-- ===== src/Crc32/Serial.antt =====
-- src/crc32.c: the table against a shift register that takes the polynomial in bit by bit.
use tsanalyze.Base.{
  ℕ, all_below, all_below-lt, zero, suc, ◌*◌, ◌/◌, ◌%◌, ◌^◌, ◌<◌, ◌==◌, ==_iff, bit_and, bit_xor,
  true,
}
use tsanalyze.Base.{
  Bytes, IsBytes, [], ◌∷◌, some, get_or, length, ◌≤◌, take, ◌≡◌, refl, sym, ◌∙◌, ap, arith,
}
use tsanalyze.Base.Bits.{bit_and_mask}
use tsanalyze.Base.Bits.Xor.{
  xor_mod, xor_div, xor_shift, xor_fields, xor_assoc, xor_comm, xor-lt, xor-zero,
}
use native.Mathlib.Nat.{one-le-pow, pow-succ', mul_assoc}
use tsanalyze.Crc32.{next_crc, crc_from, crc32}
use tsanalyze.Crc32.Table.{crc_table}

abbrev pub polynomial : ℕ
polynomial = 0x04c11db7

-- One shift: the bit that leaves the register takes the polynomial in.
unfoldable pub shift : ℕ → ℕ
shift crc = bit_xor (crc % 2 ^ 31 * 2) (crc / 2 ^ 31 * polynomial)

unfoldable pub shifts : ℕ → ℕ → ℕ
unfolding shift
shifts zero crc = crc
shifts (suc n) crc = shifts n (shift crc)

-- A byte enters at the top of the register.
abbrev pub serial_byte : ℕ → ℕ → ℕ
serial_byte crc x = shifts 8 (bit_xor crc (x * 2 ^ 24))

abbrev pub serial : Bytes → ℕ → ℕ
serial [] crc = crc
serial (x ∷ buf) crc = serial buf (serial_byte crc x)

-- A test at every number below n.
table_checked : all_below 256 (λ k. get_or crc_table k 0 == shifts 8 (k * 2 ^ 24)) ≡ true
unfolding all_below shifts
table_checked = refl

crc_table_lem : (k : ℕ) → k < 256 → get_or crc_table k 0 ≡ shifts 8 (k * 2 ^ 24)
crc_table_lem k small = (==_iff _ _).0 (all_below-lt 256 _ k table_checked small)

feedback_xor :
    (p q : ℕ) → p < 2 → q < 2 → bit_xor p q * polynomial ≡ bit_xor (p * polynomial) (q * polynomial)
feedback_xor zero zero small small' = refl
feedback_xor zero (suc zero) small small' = refl
feedback_xor (suc zero) zero small small' = refl
feedback_xor (suc zero) (suc zero) small small' = refl
feedback_xor (suc (suc p)) q small small' = absurd (omega arith)
feedback_xor zero (suc (suc q)) small small' = absurd (omega arith)
feedback_xor (suc zero) (suc (suc q)) small small' = absurd (omega arith)

interchange :
    (a b c d : ℕ) → bit_xor (bit_xor a b) (bit_xor c d) ≡ bit_xor (bit_xor a c) (bit_xor b d)
interchange a b c d =
    xor_assoc a b (bit_xor c d)
    ∙ ap (λ t. bit_xor a t)
        (sym (xor_assoc b c d) ∙ ap (λ t. bit_xor t d) (xor_comm b c) ∙ xor_assoc c b d)
    ∙ sym (xor_assoc a c (bit_xor b d))

-- The register is linear.
shift-xor : (x y : ℕ) → x < 2 ^ 32 → y < 2 ^ 32 → shift (bit_xor x y) ≡ bit_xor (shift x) (shift y)
unfolding shift
shift-xor x y small small' =
    let rest = ap (λ t. t * 2) (xor_mod 31 x y) ∙ sym (xor_shift 1 (x % 2 ^ 31) (y % 2 ^ 31)) in
    let fed =
      ap (λ t. t * polynomial) (xor_div 31 x y)
      ∙ feedback_xor (x / 2 ^ 31) (y / 2 ^ 31) (omega arith) (omega arith) in
    ap (λ t. bit_xor t (bit_xor x y / 2 ^ 31 * polynomial)) rest
    ∙ ap (λ t. bit_xor (bit_xor (x % 2 ^ 31 * 2) (y % 2 ^ 31 * 2)) t) fed
    ∙ interchange (x % 2 ^ 31 * 2) (y % 2 ^ 31 * 2) (x / 2 ^ 31 * polynomial)
        (y / 2 ^ 31 * polynomial)

shift-lt : (x : ℕ) → x < 2 ^ 32 → shift x < 2 ^ 32
unfolding shift
shift-lt x small = xor-lt 32 _ _ (omega arith) (omega arith)

shifts-lt : (n x : ℕ) → x < 2 ^ 32 → shifts n x < 2 ^ 32
unfolding shifts
shifts-lt zero x small = small
shifts-lt (suc n) x small = shifts-lt n (shift x) (shift-lt x small)

shifts-xor :
    (n x y : ℕ)
    → x < 2 ^ 32
    → y < 2 ^ 32
    → shifts n (bit_xor x y) ≡ bit_xor (shifts n x) (shifts n y)
unfolding shifts
shifts-xor zero x y small small' = refl
shifts-xor (suc n) x y small small' =
    ap (λ t. shifts n t) (shift-xor x y small small')
    ∙ shifts-xor n (shift x) (shift y) (shift-lt x small) (shift-lt y small')

-- No bit leaves the register.
shift_low : (x : ℕ) → x < 2 ^ 31 → shift x ≡ x * 2
unfolding shift
shift_low x small =
    let top : x / 2 ^ 31 ≡ 0 = omega arith in rw top (xor-zero (x % 2 ^ 31 * 2) ∙ omega arith)

shifts_low : (n x : ℕ) → x * 2 ^ n < 2 ^ 32 → shifts n x ≡ x * 2 ^ n
unfolding shifts
shifts_low zero x small = omega arith
shifts_low (suc n) x small =
    let grows : x ≤ x * 2 ^ n = grind (arith, one-le-pow n 2) in
    let twice : x * 2 * 2 ^ n ≡ x * 2 ^ suc n =
      mul_assoc x 2 (2 ^ n) ∙ ap (λ t. x * t) (sym (pow-succ' 2 n)) in
    ap (λ t. shifts n t) (shift_low x (omega (arith, twice)))
    ∙ shifts_low n (x * 2) (omega (arith, twice))
    ∙ twice

split_top :
    (crc x : ℕ)
    → bit_xor crc (x * 2 ^ 24) ≡ bit_xor (bit_xor (crc / 2 ^ 24) x * 2 ^ 24) (crc % 2 ^ 24)
split_top crc x =
    let high = crc / 2 ^ 24 in
    let low = crc % 2 ^ 24 in
    let parts : crc ≡ bit_xor (high * 2 ^ 24) low =
      omega (arith, xor_fields 24 high low (omega arith)) in
    ap (λ t. bit_xor t (x * 2 ^ 24)) parts
    ∙ xor_assoc (high * 2 ^ 24) low (x * 2 ^ 24)
    ∙ ap (λ t. bit_xor (high * 2 ^ 24) t) (xor_comm low (x * 2 ^ 24))
    ∙ sym (xor_assoc (high * 2 ^ 24) (x * 2 ^ 24) low)
    ∙ ap (λ t. bit_xor t low) (xor_shift 24 high x)

-- The top byte is what is fed back, and the others move up.
next_crc_lem : (crc x : ℕ) → crc < 2 ^ 32 → x < 256 → next_crc crc x ≡ serial_byte crc x
unfolding next_crc
next_crc_lem crc x word byte =
    let top = bit_xor (crc / 2 ^ 24) x in
    let low = crc % 2 ^ 24 in
    let top_byte : top < 256 = xor-lt 8 (crc / 2 ^ 24) x (omega arith) byte in
    let index : bit_and top 0xff ≡ top = omega (arith, bit_and_mask 8 top) in
    let moved : crc * 2 ^ 8 % 2 ^ 32 ≡ low * 2 ^ 8 = omega arith in
    let split : bit_xor crc (x * 2 ^ 24) ≡ bit_xor (top * 2 ^ 24) low = split_top crc x in
    rw (index, crc_table_lem top top_byte, moved)
      (sym (
        ap (λ t. shifts 8 t) split
        ∙ shifts-xor 8 (top * 2 ^ 24) low (omega arith) (omega arith)
        ∙ ap (λ t. bit_xor (shifts 8 (top * 2 ^ 24)) t) (shifts_low 8 low (omega arith))
        ∙ xor_comm (shifts 8 (top * 2 ^ 24)) (low * 2 ^ 8)))

serial-lt : (crc x : ℕ) → crc < 2 ^ 32 → x < 256 → serial_byte crc x < 2 ^ 32
serial-lt crc x word byte =
    shifts-lt 8 (bit_xor crc (x * 2 ^ 24)) (xor-lt 32 crc (x * 2 ^ 24) word (omega arith))

crc_from-serial :
    (buf : Bytes) (n crc : ℕ)
    → crc < 2 ^ 32
    → IsBytes buf
    → n ≤ length buf
    → crc_from n buf crc ≡ some (serial (take n buf) crc)
unfolding crc_from
crc_from-serial buf zero crc word bytes inside = refl
crc_from-serial [] (suc n) crc word bytes inside = absurd (omega arith)
crc_from-serial (x ∷ buf) (suc n) crc word bytes inside =
    ap (λ t. crc_from n buf t) (next_crc_lem crc x word bytes.0)
    ∙ crc_from-serial buf n (serial_byte crc x) (serial-lt crc x word bytes.0) bytes.1 (omega arith)

-- Over a buffer of at least `len` bytes `crc32` reads nothing out of range, and gives what the
-- shift register of the polynomial holds after those bytes, started with all ones.
pub crc32-serial :
    (buf : Bytes) (len : ℕ)
    → IsBytes buf
    → len ≤ length buf
    → crc32 buf len ≡ some (serial (take len buf) 0xffffffff)
unfolding crc32
crc32-serial buf len bytes inside = crc_from-serial buf len 0xffffffff (omega arith) bytes inside
