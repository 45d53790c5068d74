-- ===== src/Table/Header/Tests.antt =====
-- src/table.c: `parse_section_header` on small sections.
use tsanalyze.Base.{
  ℕ, ◌+◌, ◌-◌, bit_and, bits8, Option, none, some, [], ◌∷◌, ◌++◌, Bytes, replicate, drop, read16,
  memcpy, Heap, load, copy_to, ◌≡◌, ◌≢◌, refl, arith,
}
use tsanalyze.Bitmap.{bitmap64_get, bitmap64_set, bitmap64_full}
use tsanalyze.Table.Header.{
  TableHeader, HeaderResult, done, zero_header, parse_section_header, long_section, store_section,
}
use tsanalyze.Table.Header.Several.{IsWaiting, parse_section_header-IsWaiting}
use tsanalyze.Table.Header.Single.{parse_section_header-single}

abbrev empty_heap : Heap
empty_heap = record { next = 0; block = λ _. none }

-- Every call of `malloc` gives its block.
abbrev plenty : ℕ → Option Bytes
plenty n = some (replicate n 7)

-- Section 0 of two, with four bytes behind its header.
abbrev first_of_two : Bytes
first_of_two = 0x42 ∷ 0xB0 ∷ 9 ∷ 0 ∷ 1 ∷ 0xC1 ∷ 0 ∷ 1 ∷ 10 ∷ 11 ∷ 12 ∷ 13 ∷ []

abbrev outcome : Option (HeaderResult × TableHeader × Heap) → HeaderResult × TableHeader × Heap
outcome none = (done, zero_header, empty_heap)
outcome (some r) = r

abbrev after_first : HeaderResult × TableHeader × Heap
after_first = outcome (parse_section_header plenty (some first_of_two) 12 zero_header empty_heap)

parse_section_header-IsWaiting_example : (after_first.0 ≢ done) × IsWaiting 1 after_first.1
unfolding parse_section_header long_section store_section bitmap64_get bitmap64_set bitmap64_full
    memcpy copy_to read16
parse_section_header-IsWaiting_example =
    parse_section_header-IsWaiting plenty zero_header after_first.1 first_of_two 12 empty_heap
      after_first.2 after_first.0 0xB0 0 1 refl refl refl (omega arith) refl (omega arith)
      (omega arith) (record { four_words = refl; word_empty = refl }) refl

-- The only section of its table.
abbrev only_section : Bytes
only_section = 0x42 ∷ 0xB0 ∷ 9 ∷ 0 ∷ 1 ∷ 0xC1 ∷ 0 ∷ 0 ∷ 10 ∷ 11 ∷ 12 ∷ 13 ∷ []

parse_section_header-single_example :
    (h' : TableHeader) × (mem' : Heap) × (parse_section_header plenty
        (some only_section)
        (bit_and 0xB009 0x0FFF + 3)
        zero_header
        empty_heap
      ≡ some (done, h', mem'))
    × (load h'.private_data_byte mem'
        ≡ some (drop 8 only_section ++ drop (bit_and 0xB009 0x0FFF - 5) (replicate 9 7)))
    × (h'.version_number ≡ bits8 0xC1 5 1)
    × (h'.section_length ≡ bit_and 0xB009 0x0FFF)
    × (h'.table_id ≡ 0x42)
unfolding bitmap64_get read16
parse_section_header-single_example =
    parse_section_header-single plenty zero_header only_section (replicate 9 7) empty_heap 0x42 0xB0
      0xB009 1 0xC1 refl refl refl refl refl refl refl refl refl (omega arith) refl (omega arith)
      refl refl refl
