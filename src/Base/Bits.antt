-- ===== src/Base/Bits.antt =====
-- The binary digits of `&`, `|`, `^`, masks and fields, at every width.
mod Step
pub mod Xor
use Prim.Native.Nat.{ℕ, zero, suc, ◌+◌, ◌-◌, ◌*◌, ◌/◌, ◌%◌, ◌^◌, ◌≤◌, ◌<◌, min, max}
use Prim.Native.Nat.{bit_and, bit_or, bit_xor, bit_and-bitwise}
use mathlib.Core.Path.{◌≡◌, refl, ◌∙◌, sym, ap}
use mathlib.Core.Logic.{◌≢◌}
use native.Mathlib.Nat.{div-div-eq-div-mul, pow-succ', one-le-pow}
use native.Mathlib.Omega.{arith}
use tsanalyze.Base.Word.{bit, ◌<<<◌}
use Step.{bit_and_step, bit_or_step, bit_xor_step}

pub bit-zero : (a : ℕ) → bit a 0 ≡ a % 2
bit-zero a = omega arith

pub bit-suc : (a j : ℕ) → bit a (suc j) ≡ bit (a / 2) j
bit-suc a j = rw (pow-succ' 2 j, div-div-eq-div-mul a 2 (2 ^ j))

pub bit-of_zero : (j : ℕ) → bit 0 j ≡ 0
bit-of_zero zero = refl
bit-of_zero (suc j) = bit-suc 0 j ∙ bit-of_zero j

module _ (a b : ℕ) where
  half_and : bit_and a b / 2 ≡ bit_and (a / 2) (b / 2)
  half_and = omega (arith, bit_and_step a b)

  half_or : bit_or a b / 2 ≡ bit_or (a / 2) (b / 2)
  half_or = omega (arith, bit_or_step a b)

  half_xor : bit_xor a b / 2 ≡ bit_xor (a / 2) (b / 2)
  half_xor = omega (arith, bit_xor_step a b)

pub bit-bit_and : (a b j : ℕ) → bit (bit_and a b) j ≡ min (bit a j) (bit b j)
bit-bit_and a b zero = omega (arith, bit_and_step a b)
bit-bit_and a b (suc j) =
    rw (bit-suc (bit_and a b) j, bit-suc a j, bit-suc b j, half_and a b)
      (bit-bit_and (a / 2) (b / 2) j)

pub bit-bit_or : (a b j : ℕ) → bit (bit_or a b) j ≡ max (bit a j) (bit b j)
bit-bit_or a b zero = omega (arith, bit_or_step a b)
bit-bit_or a b (suc j) =
    rw (bit-suc (bit_or a b) j, bit-suc a j, bit-suc b j, half_or a b)
      (bit-bit_or (a / 2) (b / 2) j)

pub bit-bit_xor : (a b j : ℕ) → bit (bit_xor a b) j ≡ (bit a j + bit b j) % 2
bit-bit_xor a b zero = omega (arith, bit_xor_step a b)
bit-bit_xor a b (suc j) =
    rw (bit-suc (bit_xor a b) j, bit-suc a j, bit-suc b j, half_xor a b)
      (bit-bit_xor (a / 2) (b / 2) j)

-- Numbers below 2 ^ k with the same k digits are equal.
pub eq_of_bits : (k a b : ℕ) → a < 2 ^ k → b < 2 ^ k → ((j : ℕ) → j < k → bit a j ≡ bit b j) → a ≡ b
eq_of_bits zero a b ha hb h = omega arith
eq_of_bits (suc k) a b ha hb h = omega (
  arith,
  h 0 (omega arith),
  eq_of_bits k (a / 2) (b / 2) (omega (arith, pow-succ' 2 k)) (omega (arith, pow-succ' 2 k))
      (λ j hj. sym (bit-suc a j) ∙ h (suc j) (omega arith) ∙ bit-suc b j),
)

pub bit-two-pow_self : (k : ℕ) → bit (2 ^ k) k ≡ 1
bit-two-pow_self zero = refl
bit-two-pow_self (suc k) = bit-suc (2 ^ suc k) k ∙ ap (λ t. bit t k) halves ∙ bit-two-pow_self k
  where
    halves : 2 ^ suc k / 2 ≡ 2 ^ k
    halves = omega (arith, pow-succ' 2 k)

pub bit-two-pow_ne : (k j : ℕ) → k ≢ j → bit (2 ^ k) j ≡ 0
bit-two-pow_ne zero zero h = absurd (h refl)
bit-two-pow_ne zero (suc j) h = bit-suc 1 j ∙ bit-of_zero j
bit-two-pow_ne (suc k) zero h = omega (arith, pow-succ' 2 k)
bit-two-pow_ne (suc k) (suc j) h =
    bit-suc (2 ^ suc k) j ∙ ap (λ t. bit t j) halves ∙ bit-two-pow_ne k j (λ e. h (ap suc e))
  where
    halves : 2 ^ suc k / 2 ≡ 2 ^ k
    halves = omega (arith, pow-succ' 2 k)

-- Induction on a number by its half.
pub by_halving : (P : ℕ → Type 0) → P 0 → ((x : ℕ) → P (suc x / 2) → P (suc x)) → (x : ℕ) → P x
by_halving P base halve x = up_to x x (omega arith)
  where
    up_to : (bound y : ℕ) → y ≤ bound → P y
    up_to bound zero small = base
    up_to zero (suc y) small = absurd (omega arith)
    up_to (suc bound) (suc y) small = halve y (up_to bound (suc y / 2) (omega arith))

bit_and-zero : (x : ℕ) → bit_and x 0 ≡ 0
bit_and-zero =
    by_halving (λ x. bit_and x 0 ≡ 0) refl (λ x half. omega (arith, bit_and_step (suc x) 0))

bit_or-zero : (x : ℕ) → bit_or x 0 ≡ x
bit_or-zero = by_halving (λ x. bit_or x 0 ≡ x) refl (λ x half. omega (arith, bit_or_step (suc x) 0))

pub double : (q k : ℕ) → q * 2 ^ suc k ≡ 2 * (q * 2 ^ k)
double q k = omega (arith, ap (λ (t : ℕ). q * t) (pow-succ' 2 k))

-- The low field of a sum.
pub bit_and_field : (k q r : ℕ) → r < 2 ^ k → bit_and (q * 2 ^ k + r) (2 ^ k - 1) ≡ r
bit_and_field zero q r h = rw (bit_and-zero (q * 2 ^ 0 + r)) (omega arith)
bit_and_field (suc k) q r h = ground (
  arith,
  bit_and_step (q * 2 ^ suc k + r) (2 ^ suc k - 1),
  double q k,
  pow-succ' 2 k,
  one-le-pow k 2,
  bit_and_field k q (r / 2) (omega (arith, pow-succ' 2 k)),
)

-- `& (2 ^ k - 1)` is the remainder by 2 ^ k.
pub bit_and_mask : (k a : ℕ) → bit_and a (2 ^ k - 1) ≡ a % 2 ^ k
bit_and_mask k a = ground (arith, one-le-pow k 2, bit_and_field k (a / 2 ^ k) (a % 2 ^ k))

-- `(q << k) | r` is a sum when `r` fits k bits.
pub bit_or_fields : (k q r : ℕ) → r < 2 ^ k → bit_or (q <<< k) r ≡ q * 2 ^ k + r
bit_or_fields zero q r h = ground (arith, bit_or-zero q)
bit_or_fields (suc k) q r h = ground (
  arith,
  bit_or_step (q * 2 ^ suc k) r,
  double q k,
  bit_or_fields k q (r / 2) (omega (arith, pow-succ' 2 k)),
)

pub bit_and_comm : (x y : ℕ) → bit_and x y ≡ bit_and y x
bit_and_comm =
    by_halving (λ x. (y : ℕ) → bit_and x y ≡ bit_and y x)
      (λ y. bit_and-bitwise 0 y ∙ sym (bit_and-zero y))
      (λ x half y. omega (arith, bit_and_step (suc x) y, bit_and_step y (suc x), half (y / 2)))

-- A test of one bit.
pub bit_and-two-pow : (k w : ℕ) → bit_and w (2 ^ k) ≡ bit w k * 2 ^ k
bit_and-two-pow zero w = omega (arith, bit_and_mask 1 w)
bit_and-two-pow (suc k) w = ground (
  arith,
  bit_and_step w (2 ^ suc k),
  pow-succ' 2 k,
  bit-suc w k,
  ap (λ (t : ℕ). bit (w / 2) k * t) (pow-succ' 2 k),
  bit_and-two-pow k (w / 2),
)

-- `~` flips each of the n bits.
pub bit-complement : (n x j : ℕ) → x < 2 ^ n → j < n → bit (2 ^ n - 1 - x) j ≡ 1 - bit x j
bit-complement zero x j h lt = absurd (omega arith)
bit-complement (suc n) x zero h lt = omega (arith, pow-succ' 2 n)
bit-complement (suc n) x (suc j) h lt =
    let halved : (2 ^ suc n - 1 - x) / 2 ≡ 2 ^ n - 1 - x / 2 = omega (arith, pow-succ' 2 n) in
    bit-suc (2 ^ suc n - 1 - x) j
    ∙ ap (λ t. bit t j) halved
    ∙ bit-complement n (x / 2) j (omega (arith, pow-succ' 2 n)) (omega arith)
    ∙ ap (λ t. 1 - t) (sym (bit-suc x j))

pub bit-lt : (x j : ℕ) → bit x j < 2
bit-lt x j = omega arith
