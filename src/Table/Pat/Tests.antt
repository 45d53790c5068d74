-- ===== src/Table/Pat/Tests.antt =====
-- src/table.c: `parse_pat` on a table of two programs.
use tsanalyze.Base.{
  ℕ, List, false, ◌+◌, true, Option, none, some, [], ◌∷◌, Bytes, length, replicate, Heap, ◌≡◌, refl,
  arith,
}
use tsanalyze.Filter.{no_slot}
use tsanalyze.Table.Ops.{Psi}
use tsanalyze.Table.Version.{check_section_header_version}
use tsanalyze.Table.Pat.{Pat, Pats, parsed, new_pat, add_pat, parse_pat}
use tsanalyze.Table.Pat.View.{pid_of, IsPat, Marks}
use tsanalyze.Table.Pat.Programs.{encode, Entry, Registered, assign}
use tsanalyze.Table.Header.Section.{section_bytes}
use tsanalyze.Table.Pat.Whole.{parse_pat-encode}

abbrev two_programs : List Entry
two_programs =
    record { number = 1; reserved = 7; pid = 0x100 }
    ∷ record { number = 2; reserved = 7; pid = 0x1FFE }
    ∷ []

abbrev checksum : Bytes
checksum = 1 ∷ 2 ∷ 3 ∷ 4 ∷ []

abbrev plenty : ℕ → Option Bytes
plenty n = some (replicate n 7)

abbrev no_heap : Heap
no_heap = record { next = 0; block = λ _. none }

abbrev no_pats : Pats
no_pats = record { pat = none; previous = [] }

abbrev no_maps : Psi
no_maps = record {
  pmt_bitmap = replicate 128 0;
  section_bitmap = replicate 128 0;
  filters = λ _. record { cap = 0; slots = []; map = λ _. no_slot; multi = false };
}

parse_pat-encode_example :
    (p' : Pat) × (psi' : Psi) × (mem' : Heap) × (parse_pat true true plenty true
        (some (section_bytes 0 1 0xC1 (encode two_programs) checksum))
        (9 + length (encode two_programs) + 3)
        no_pats
        no_maps
        no_heap
      ≡ some (parsed, record (add_pat new_pat no_pats) { pat = some p' }, psi', mem'))
    × IsPat p'
    × ((m : ℕ) → pid_of p'.programs m ≡ assign two_programs (λ _. none) m)
    × Marks no_maps psi'
    × Registered two_programs (λ _. none) psi'
unfolding check_section_header_version
parse_pat-encode_example =
    parse_pat-encode plenty 0 1 0xC1 two_programs checksum (replicate 17 7) no_pats no_maps no_heap
      ((omega arith, omega arith, omega arith), ((omega arith, omega arith, omega arith), tt))
      (omega arith) refl refl refl refl refl
