-- ===== src/Teletext/Tests.antt =====
-- src/teletext.c: the code word of 5 with its lowest bit flipped.
use tsanalyze.Base.{
  ◌==◌, if◌then◌else◌, bit, some, ◌≡◌, arith, Bytes, ◌∷◌, replicate, ◌*◌, ◌+◌, ◌<◌, refl,
}
use tsanalyze.Teletext.{decode_hamming8_code, hamming8_data}
use tsanalyze.Teletext.Hamming.{code_word, flipped, decode_hamming8_code_lem}
use tsanalyze.Teletext.Pages.{Pages, parse_teletext_data, parse_teletext_data-some}

decode_hamming8_code_example :
    (decode_hamming8_code (code_word 5) ≡ some (code_word 5))
    × (hamming8_data (code_word 5) ≡ 5)
    × (decode_hamming8_code (flipped (code_word 5) 0)
        ≡ some (if bit (code_word 5) 0 == 1 then flipped (code_word 5) 0 else code_word 5))
decode_hamming8_code_example = decode_hamming8_code_lem 5 0 (omega arith) (omega arith)

-- The header of page 15 of magazine 2, which erases the page.
abbrev header_bytes : Bytes
header_bytes = code_word 5 ∷ code_word 1 ∷ code_word 0 ∷ code_word 8 ∷ replicate 36 (code_word 0)

parse_teletext_data-some_example :
    (s' : Pages) × (parse_teletext_data
        (code_word 2 * 256 + code_word 0)
        header_bytes
        (record { page = 7; text = λ _ _ _ _. 0 })
      ≡ some s')
    × (s'.page < 100)
unfolding decode_hamming8_code hamming8_data
parse_teletext_data-some_example =
    parse_teletext_data-some (code_word 2 * 256 + code_word 0) (code_word 2) header_bytes
      (record { page = 7; text = λ _ _ _ _. 0 }) (code_word 5) (code_word 1) refl refl (omega arith)
      refl refl (λ _. omega arith)
