-- ===== src/Descriptor/Tests.antt =====
-- src/descriptor.c: a loop of two descriptors.
use tsanalyze.Base.{ℕ, arith, none, some, [], ◌∷◌, ◌≡◌, refl, Bytes, List}
use tsanalyze.Descriptor.{parse_descriptors, parse_from, parse_one, parse_reserved_descriptor}
use tsanalyze.Descriptor.Loop.{reserved, describe, parse_descriptors-encode}

abbrev two : List (ℕ × Bytes)
two = (0x0A, 0x65 ∷ 0x6E ∷ 0x67 ∷ 0 ∷ []) ∷ (0x52, 7 ∷ []) ∷ []

-- A length that runs past the buffer.
cut_run : parse_descriptors reserved (0x0A ∷ 4 ∷ 0x65 ∷ []) 3 ≡ none
unfolding parse_descriptors parse_from parse_one parse_reserved_descriptor
cut_run = refl

parse_descriptors-encode_example :
    parse_descriptors reserved (0x0A ∷ 4 ∷ 0x65 ∷ 0x6E ∷ 0x67 ∷ 0 ∷ 0x52 ∷ 1 ∷ 7 ∷ 0xFF ∷ []) 9
    ≡ some (describe two)
parse_descriptors-encode_example =
    parse_descriptors-encode two (0xFF ∷ []) (omega arith, (omega arith, tt))
