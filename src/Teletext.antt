-- ===== src/Teletext.antt =====
-- src/teletext.c: the parity and the Hamming 8/4 code of teletext.
pub mod Hamming
pub mod Pages
mod Tests
use tsanalyze.Base.{
  ℕ, ◌+◌, ◌-◌, ◌*◌, ◌/◌, ◌%◌, ◌^◌, ◌==◌, ◌&&◌, ◌||◌, if◌then◌else◌, bit_and, bit_or, u8, Bool, true,
  false, not, Option, none, some, ◌<<<◌, ◌>>>◌,
}

-- One line of `popcount`, with the shift and the mask of the line.
abbrev pub fold_bits : ℕ → ℕ → ℕ → ℕ
fold_bits shift mask u = bit_and u mask + bit_and (u >>> shift) mask

-- `popcount` as the source defines it for one compiler; the others have it built in.
unfoldable pub popcount : ℕ → ℕ
popcount u = fold_bits 16 0xFFFF (
    fold_bits 8 0xFF00FF
      (fold_bits 4 0xF0F0F0F (fold_bits 2 0x33333333 (fold_bits 1 0x55555555 u))))

abbrev pub odd_parity8_test : ℕ → Bool
odd_parity8_test value = popcount value % 2 == 1

-- `REVERSE_BIT` of a byte: `~(1 << v) & x`.
abbrev pub reverse_bit : ℕ → ℕ → ℕ
reverse_bit x v = bit_and (0xFF - (1 <<< v)) x

-- The bit that the three failed or passed tests point at.
abbrev pub wrong_bit : Bool → Bool → Bool → ℕ
wrong_bit a b c =
    if a && b && not c
    then 3
    else if a && c && not b
    then 5
    else if not a && b && c
    then 7
    else if not a && not b && c
    then 0
    else if not a && not c && b
    then 2
    else if a && not b && not c
    then 4
    else 6

-- `none` is the -1.
unfoldable pub decode_hamming8_code : ℕ → Option ℕ
unfolding popcount
decode_hamming8_code code =
    let a = odd_parity8_test (bit_and code 0xC5) in
    let b = odd_parity8_test (bit_and code 0x71) in
    let c = odd_parity8_test (bit_and code 0x5C) in
    let d = odd_parity8_test (bit_and code 0xFF) in
    if a && b && c
    then if d then some code else some (reverse_bit code 1)
    else if d
    then none
    else some (reverse_bit code (wrong_bit a b c))

-- `HAMMING8_DATA`
unfoldable pub hamming8_data : ℕ → ℕ
hamming8_data x =
    let y = bit_and x 0x55 in
    bit_or (bit_or (bit_or (bit_and (y >>> 6) 1) (bit_and (y >>> 3) 2)) (bit_and y 4))
      (bit_and (y <<< 3) 8)
