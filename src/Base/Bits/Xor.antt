-- ===== src/Base/Bits/Xor.antt =====
-- The laws of `^`: it is a group operation, and it is made digit by digit, so it commutes with
-- shifts and with the cut to a width.
use Prim.Native.Nat.{ℕ, zero, suc, ◌+◌, ◌*◌, ◌/◌, ◌%◌, ◌^◌, ◌<◌, bit_xor, bit_xor-bitwise}
use mathlib.Core.Path.{◌≡◌, refl, ◌∙◌, sym, ap}
use native.Mathlib.Nat.{pow-succ', mod-eq-sub-div-mul, div-add-mod', div-div-eq-div-mul}
use native.Mathlib.Omega.{arith}
use tsanalyze.Base.Bits.Step.{bit_xor_step}
use tsanalyze.Base.Bits.{by_halving, double}

pub xor-zero : (x : ℕ) → bit_xor x 0 ≡ x
xor-zero = by_halving (λ x. bit_xor x 0 ≡ x) refl (λ x half. omega (arith, bit_xor_step (suc x) 0))

pub xor_comm : (x y : ℕ) → bit_xor x y ≡ bit_xor y x
xor_comm =
    by_halving (λ x. (y : ℕ) → bit_xor x y ≡ bit_xor y x)
      (λ y. bit_xor-bitwise 0 y ∙ sym (xor-zero y))
      (λ x half y. omega (arith, bit_xor_step (suc x) y, bit_xor_step y (suc x), half (y / 2)))

pub xor_self : (x : ℕ) → bit_xor x x ≡ 0
xor_self =
    by_halving (λ x. bit_xor x x ≡ 0) refl (λ x half. omega (arith, bit_xor_step (suc x) (suc x)))

half_xor : (x y : ℕ) → bit_xor x y / 2 ≡ bit_xor (x / 2) (y / 2)
half_xor x y = omega (arith, bit_xor_step x y)

pub xor_assoc : (x y z : ℕ) → bit_xor (bit_xor x y) z ≡ bit_xor x (bit_xor y z)
xor_assoc =
    by_halving (λ x. (y z : ℕ) → bit_xor (bit_xor x y) z ≡ bit_xor x (bit_xor y z))
      (λ y z. rw (xor_comm 0 y, xor-zero y, xor_comm 0 (bit_xor y z), xor-zero (bit_xor y z)))
      (λ x half y z. omega (
        arith,
        bit_xor_step (suc x) (bit_xor y z),
        bit_xor_step (bit_xor (suc x) y) z,
        bit_xor_step (suc x) y,
        bit_xor_step y z,
        half (y / 2) (z / 2),
        ap (λ t. bit_xor t (z / 2)) (half_xor (suc x) y),
        ap (λ t. bit_xor (suc x / 2) t) (half_xor y z),
      ))

mod-suc : (k x : ℕ) → x % 2 ^ suc k ≡ x / 2 % 2 ^ k * 2 + x % 2
mod-suc k x =
    let q = x / 2 / 2 ^ k in
    let quotient : x / 2 ^ suc k ≡ q = rw (pow-succ' 2 k, div-div-eq-div-mul x 2 (2 ^ k)) in
    omega (
      arith,
      mod-eq-sub-div-mul x (2 ^ suc k),
      mod-eq-sub-div-mul (x / 2) (2 ^ k),
      div-add-mod' (x / 2) (2 ^ k),
      double q k,
      ap (λ t. t * 2 ^ suc k) quotient,
    )

-- The cut to k bits.
pub xor_mod : (k x y : ℕ) → bit_xor x y % 2 ^ k ≡ bit_xor (x % 2 ^ k) (y % 2 ^ k)
xor_mod zero x y =
    let left : x % 2 ^ 0 ≡ 0 = omega arith in
    let right : y % 2 ^ 0 ≡ 0 = omega arith in rw (left, right) (omega arith)
xor_mod (suc k) x y =
    let cut : (t : ℕ) → t % 2 ^ suc k / 2 ≡ t / 2 % 2 ^ k = λ t. omega (arith, mod-suc k t) in
    let low : (t : ℕ) → t % 2 ^ suc k % 2 ≡ t % 2 = λ t. omega (arith, mod-suc k t) in
    omega (
      arith,
      mod-suc k (bit_xor x y),
      bit_xor_step x y,
      low x,
      low y,
      bit_xor_step (x % 2 ^ suc k) (y % 2 ^ suc k),
      xor_mod k (x / 2) (y / 2),
      ap (λ t. t % 2 ^ k) (half_xor x y),
      ap (λ t. bit_xor t (y % 2 ^ suc k / 2)) (cut x),
      ap (λ t. bit_xor (x / 2 % 2 ^ k) t) (cut y),
    )

pub xor-lt : (k x y : ℕ) → x < 2 ^ k → y < 2 ^ k → bit_xor x y < 2 ^ k
xor-lt zero x y small small' =
    let left : x ≡ 0 = omega arith in
    let right : y ≡ 0 = omega arith in rw (left, right) (omega arith)
xor-lt (suc k) x y small small' = omega (
  arith,
  pow-succ' 2 k,
  bit_xor_step x y,
  xor-lt k (x / 2) (y / 2) (omega (arith, pow-succ' 2 k)) (omega (arith, pow-succ' 2 k)),
)

pub xor_shift : (k x y : ℕ) → bit_xor (x * 2 ^ k) (y * 2 ^ k) ≡ bit_xor x y * 2 ^ k
xor_shift zero x y =
    let left : x * 2 ^ 0 ≡ x = omega arith in
    let right : y * 2 ^ 0 ≡ y = omega arith in rw (left, right) (omega arith)
xor_shift (suc k) x y =
    let halved : (t : ℕ) → t * 2 ^ suc k / 2 ≡ t * 2 ^ k = λ t. omega (arith, double t k) in
    omega (
      arith,
      double x k,
      double y k,
      double (bit_xor x y) k,
      bit_xor_step (x * 2 ^ suc k) (y * 2 ^ suc k),
      xor_shift k x y,
      ap (λ t. bit_xor t (y * 2 ^ suc k / 2)) (halved x),
      ap (λ t. bit_xor (x * 2 ^ k) t) (halved y),
    )

-- A number with k zeroes at its end and one of k bits.
pub xor_fields : (k q r : ℕ) → r < 2 ^ k → bit_xor (q * 2 ^ k) r ≡ q * 2 ^ k + r
xor_fields zero q r small = ground (arith, xor-zero q)
xor_fields (suc k) q r small = ground (
  arith,
  bit_xor_step (q * 2 ^ suc k) r,
  double q k,
  xor_fields k q (r / 2) (omega (arith, pow-succ' 2 k)),
)

pub xor_div : (k x y : ℕ) → bit_xor x y / 2 ^ k ≡ bit_xor (x / 2 ^ k) (y / 2 ^ k)
xor_div zero x y =
    let whole : (t : ℕ) → t / 2 ^ 0 ≡ t = λ t. omega arith in
    rw (whole (bit_xor x y), whole x, whole y) refl
xor_div (suc k) x y =
    let later : (t : ℕ) → t / 2 ^ suc k ≡ t / 2 / 2 ^ k =
      λ t. rw (pow-succ' 2 k, div-div-eq-div-mul t 2 (2 ^ k)) in
    rw (later (bit_xor x y), later x, later y, half_xor x y) (xor_div k (x / 2) (y / 2))
