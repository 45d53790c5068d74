-- ===== src/Teletext/Hamming.antt =====
-- src/teletext.c: which single errors of a Hamming 8/4 code word are corrected.
use tsanalyze.Base.{
  ℕ, all_below, all_below-lt, ◌+◌, ◌*◌, ◌%◌, ◌^◌, ◌<◌, ◌==◌, ◌&&◌, if◌then◌else◌, bit, bit_xor,
  Bool, true, false, Option, none, some, ◌≡◌, refl, ap, arith,
}
use tsanalyze.Teletext.{popcount, decode_hamming8_code, hamming8_data}

-- The code word of four data bits by the standard, first bit highest: each parity bit makes the
-- number of ones in its group odd, and the last one that of the whole byte.
abbrev pub code_word : ℕ → ℕ
code_word data' =
    let d₁ = bit data' 0 in
    let d₂ = bit data' 1 in
    let d₃ = bit data' 2 in
    let d₄ = bit data' 3 in
    let p₁ = (1 + d₁ + d₃ + d₄) % 2 in
    let p₂ = (1 + d₁ + d₂ + d₄) % 2 in
    let p₃ = (1 + d₁ + d₂ + d₃) % 2 in
    let p₄ = (1 + p₁ + d₁ + p₂ + d₂ + p₃ + d₃ + d₄) % 2 in
    128 * p₁ + 64 * d₁ + 32 * p₂ + 16 * d₂ + 8 * p₃ + 4 * d₃ + 2 * p₄ + d₄

-- The word with bit `k` the other way.
abbrev pub flipped : ℕ → ℕ → ℕ
flipped w k = bit_xor w (2 ^ k)

is_result : ℕ → Option ℕ → Bool
is_result w none = false
is_result w (some v) = v == w

is_result-eq : (w : ℕ) (o : Option ℕ) → is_result w o ≡ true → o ≡ some w
unfolding is_result
is_result-eq w none h = ground arith
is_result-eq w (some v) h = ap (λ k. some k) (ground arith)

and_true : (a b : Bool) → (a && b) ≡ true → (a ≡ true) × (b ≡ true)
and_true true b h = (refl, h)
and_true false b h = absurd (ground arith)

word_check : ℕ → Bool
word_check d =
    is_result (code_word d) (decode_hamming8_code (code_word d)) && hamming8_data (code_word d) == d

error_check : ℕ → ℕ → Bool
error_check d k =
    let w = code_word d in
    is_result (if bit w k == 1 then flipped w k else w) (decode_hamming8_code (flipped w k))

every_word : all_below 16 word_check ≡ true
unfolding all_below word_check is_result decode_hamming8_code hamming8_data popcount
every_word = refl

every_error : all_below 16 (λ d. all_below 8 (error_check d)) ≡ true
unfolding all_below error_check is_result decode_hamming8_code popcount
every_error = refl

-- A code word is decoded as it is and gives its four data bits back. With one bit flipped it is
-- decoded as the code word only if the bit was a zero; a one that came as a zero is found, but
-- stays a zero, since the correction clears the bit where it is to flip it.
pub decode_hamming8_code_lem :
    (data' k : ℕ)
    → data' < 16
    → k < 8
    → (decode_hamming8_code (code_word data') ≡ some (code_word data'))
      × (hamming8_data (code_word data') ≡ data')
      × (decode_hamming8_code (flipped (code_word data') k)
          ≡ some (
              if bit (code_word data') k == 1
              then flipped (code_word data') k
              else code_word data'))
unfolding word_check error_check
decode_hamming8_code_lem data' k small below =
    let w = code_word data' in
    let (word, read) = and_true _ _ (all_below-lt 16 word_check data' every_word small) in
    let error =
      all_below-lt 8 (error_check data') k
        (all_below-lt 16 (λ d. all_below 8 (error_check d)) data' every_error small) below in
    (
      is_result-eq w (decode_hamming8_code w) word,
      ground (arith, read),
      is_result-eq _ (decode_hamming8_code (flipped w k)) error,
    )
