-- ===== src/Table/Cat.antt =====
-- src/table.c: the conditional access table and the transport stream description table, whose
-- sections are descriptors only, with the callbacks that count them. The counters of
-- include/statistics.h are 64 bits wide.
mod Tests
use tsanalyze.Base.{
  ℕ, ◌+◌, ◌-◌, ◌^◌, ◌==◌, if◌then◌else◌, bit, Bool, true, false, Option, none, some, ◌>>=◌, List,
  [], ◌∷◌, ◌++◌, Bytes, read8, u16, u64, Heap, load, length, ◌≡◌, refl, ap, arith,
}
use tsanalyze.Descriptor.{Descriptor, parse_descriptors}
use tsanalyze.Table.Version.{VersionCheck, go_on, newer, check_section_header_version}
use tsanalyze.Table.Header.{TableHeader, HeaderResult, done, zero_header, parse_section_header}
use tsanalyze.Table.Pat.{PatResult, parsed, out_of_memory, not_current, not_done, contents}

-- `cat_t`, without the unused `crc32`, and `tsdt_t`.
pub record DescriptorTable (D : Type 0) : Type 0 where
  pub header : TableHeader
  pub list : List (Descriptor D)

-- `psi.cat` and the tables of `psi.cat_list` before it, with what else the two callbacks change.
pub record CatState (D : Type 0) : Type 0 where
  pub cat : Option (DescriptorTable D)
  pub previous : List (DescriptorTable D)
  pub tsdt : DescriptorTable D
  pub ca_num : ℕ
  pub cat_sections : ℕ
  pub tsdt_sections : ℕ

module _ {D : Type 0} where
  abbrev pub new_cat : DescriptorTable D
  new_cat = record { header = record zero_header { version_number = 0x1F }; list = [] }

  abbrev pub cat_version : Option (DescriptorTable D) → ℕ
  cat_version none = 0x1F
  cat_version (some p) = p.header.version_number

  abbrev pub older_cats : Option (DescriptorTable D) → List (DescriptorTable D)
  older_cats none = []
  older_cats (some p) = p ∷ []

  module _ (parse : ℕ → Bytes → ℕ → Option D) (malloc : ℕ → Option Bytes) where
    -- `parse_tsdt`, and what `parse_cat` does with the table it found. What the old descriptors
    -- held is given back, which nothing here observes.
    unfoldable pub parse_tsdt :
        Option Bytes → ℕ → DescriptorTable D → Heap → Option (PatResult × DescriptorTable D × Heap)
    parse_tsdt pbuf buf_size p mem = do
      (ret, header', mem') ← parse_section_header malloc pbuf buf_size p.header mem
      elim ret [
        | done ↦ (do
          let section_len = u16 (header'.section_length + 2 ^ 16 - (5 + 4))
          ds ← parse_descriptors parse (contents (load header'.private_data_byte mem')) section_len
          some (parsed, record { header = header'; list = ds }, mem'))
        | other ↦ some (not_done other, record p { header = header' }, mem')
      ]

    -- `memory` says whether `calloc` gives a new table.
    unfoldable pub parse_cat :
        Bool → Option Bytes → ℕ → CatState D → Heap → Option (PatResult × CatState D × Heap)
    unfolding parse_tsdt
    parse_cat memory pbuf buf_size st mem = do
      check ← check_section_header_version pbuf (cat_version st.cat)
      elim check [
        | go_on ↦ elim st.cat [
          | none ↦ some (not_done HeaderResult.null_pointer, st, mem)
          | some p ↦ (do
            (result, p', mem') ← parse_tsdt pbuf buf_size p mem
            some (result, record st { cat = some p' }, mem'))
        ]
        | newer ↦
            if memory
            then (do
              (result, p', mem') ← parse_tsdt pbuf buf_size new_cat mem
              let previous' = st.previous ++ older_cats st.cat
              some (result, record st { cat = some p'; previous = previous' }, mem'))
            else some (out_of_memory, st, mem)
        | other ↦ some (not_current other, st, mem)
      ]

    -- The list of a null table cannot be walked.
    unfoldable pub count_descriptors : Option (DescriptorTable D) → CatState D → Option (CatState D)
    count_descriptors none st = none
    count_descriptors (some p) st = some (record st { ca_num = length p.list })

    unfoldable pub cat_proc :
        Bool → Option Bytes → ℕ → CatState D → Heap → Option (CatState D × Heap)
    unfolding parse_cat count_descriptors
    cat_proc memory pkt len st mem = do
      (_, st', mem') ←
          parse_cat memory pkt len (record st { cat_sections = u64 (st.cat_sections + 1) }) mem
      st'' ← count_descriptors st'.cat st'
      some (st'', mem')

    unfoldable pub tsdt_proc : Option Bytes → ℕ → CatState D → Heap → Option (CatState D × Heap)
    unfolding parse_tsdt
    tsdt_proc pkt len st mem = do
      (_, tsdt', mem') ← parse_tsdt pkt len st.tsdt mem
      some (record st { tsdt = tsdt'; tsdt_sections = u64 (st.tsdt_sections + 1) }, mem')

    no_list :
        (st : CatState D)
        → st.cat ≡ none
        → count_descriptors st.cat (record st { cat_sections = u64 (st.cat_sections + 1) }) ≡ none
    unfolding count_descriptors
    no_list st no_table = rw no_table refl

    -- While there is no table, a section without the long syntax makes `cat_proc` fault, as the
    -- table that it was to make is walked after all.
    pub cat_proc-no_table :
        (memory : Bool) (pkt : Bytes) (len flags : ℕ) (st : CatState D) (mem : Heap)
        → st.cat ≡ none
        → read8 pkt 1 ≡ some flags
        → bit flags 7 ≡ 0
        → cat_proc memory (some pkt) len st mem ≡ none
    unfolding cat_proc check_section_header_version count_descriptors
    cat_proc-no_table memory pkt len flags st mem no_table at1 short =
        let not_long : (bit flags 7 == 0) ≡ true = ground arith in
        rw (at1, not_long, no_table) (ap (λ o. o >>= λ k. some (k, mem)) (no_list st no_table))
