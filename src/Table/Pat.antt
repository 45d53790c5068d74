-- ===== src/Table/Pat.antt =====
-- src/table.c: `parse_pat`, which turns the program association table into a list of programs.
pub mod View
mod Tests
pub mod Programs
pub mod Whole
use tsanalyze.Base.{
  ℕ, zero, suc, ◌+◌, ◌-◌, ◌*◌, ◌^◌, ◌==◌, if◌then◌else◌, Bool, true, false, not, Option, none, some,
  ◌>>=◌, List, [], ◌∷◌, ◌++◌, map, Bytes, bit_and, bit_or, ◌<<<◌, u16, u64, replicate, Heap, load,
}
use tsanalyze.Bitmap.{Bitmap, bitmap64_get, bitmap64_set}
use tsanalyze.Table.Ops.{Psi, register_pmt_ops}
use tsanalyze.Table.Version.{
  VersionCheck, null_pointer, go_on, newer, older, check_section_header_version,
}
use tsanalyze.Table.Header.{TableHeader, HeaderResult, done, zero_header, parse_section_header}

-- `struct program_node`
pub record ProgramNode : Type 0 where
  pub program_number : ℕ
  pub program_map_pid : ℕ

-- `pat_t`; `crc32` is never used.
pub record Pat : Type 0 where
  pub pat_header : TableHeader
  pub program_bitmap : Bitmap
  pub programs : List ProgramNode

-- `psi.pat`, the last of `psi.pat_list`, and the others of that list.
pub record Pats : Type 0 where
  pub pat : Option Pat
  pub previous : List Pat

-- What `parse_pat` returns: 0, `ENOMEM`, or the result of the check or the header that ended it.
pub data PatResult : Type 0 where
  parsed out_of_memory : PatResult
  not_current : VersionCheck → PatResult
  not_done : HeaderResult → PatResult

abbrev pub new_pat : Pat
new_pat = record {
  pat_header = record zero_header { version_number = 0x1F };
  program_bitmap = replicate 1024 0;
  programs = [];
}

-- `psi.pat = p_pat; list_add_tail(&psi.pat_list, &p_pat->n)`
abbrev pub add_pat : Pat → Pats → Pats
add_pat p pats = elim pats.pat [
  | none ↦ record pats { pat = some p }
  | some last ↦ record { pat = some p; previous = pats.previous ++ (last ∷ []) }
]

abbrev pub current_version : Option Pat → ℕ
current_version none = 0x1F
current_version (some p) = p.pat_header.version_number

-- Nothing can be read through a null pointer.
abbrev pub contents : Option Bytes → Bytes
contents none = []
contents (some b) = b

abbrev pub set_pid : ℕ → ℕ → ProgramNode → ProgramNode
set_pid number pid pn =
    if pn.program_number == number then record pn { program_map_pid = pid } else pn

-- `memory` says whether `realloc` gives the memory of a filter, and `node_memory` whether `calloc`
-- gives a node.
module _ (memory node_memory : Bool) where
  -- The body of the loop, for a program that is not the stuffing.
  unfoldable pub add_program : ℕ → ℕ → Pat → Psi → Option (PatResult × Pat × Psi)
  add_program program_num program_map_pid p psi = do
    known ← bitmap64_get p.program_bitmap program_num
    if known
        then some (
          parsed,
          record p { programs = map (set_pid program_num program_map_pid) p.programs },
          psi,
        )
        else (do
          psi' ← register_pmt_ops memory program_map_pid psi
          if not node_memory then some (out_of_memory, p, psi') else do
            bitmap' ← bitmap64_set p.program_bitmap program_num
            let pn : ProgramNode = record {
              program_number = program_num;
              program_map_pid = program_map_pid;
            }
            some (
              parsed,
              record p { program_bitmap = bitmap'; programs = p.programs ++ (pn ∷ []) },
              psi',
            ))

  -- The loop, from `pdata` with `section_len` to go, a `uint16_t`. A round reads four bytes.
  unfoldable pub programs_from : Bytes → ℕ → Pat → Psi → Option (PatResult × Pat × Psi)
  unfolding add_program
  programs_from (a ∷ b ∷ c ∷ d ∷ rest) section_len p psi =
      let program_num = bit_or (a <<< 8) b in
      let program_map_pid = bit_and (bit_or (c <<< 8) d) 0x1FFF in
      let later : Pat → Psi → Option (PatResult × Pat × Psi) =
        programs_from rest (u16 (section_len + 2 ^ 16 - 4)) in
      if section_len == 0
      then some (parsed, p, psi)
      else if program_num == 0xFFFF
      then some (parsed, p, psi)
      else do
        (result, p', psi') ← add_program program_num program_map_pid p psi
        elim result [ parsed ↦ later p' psi' | other ↦ some (other, p', psi') ]
  programs_from pdata section_len p psi = if section_len == 0 then some (parsed, p, psi) else none

  module _ (malloc : ℕ → Option Bytes) where
    -- What follows once the table that the section belongs to is found.
    unfoldable pub parse_pat_sections :
        Option Bytes → ℕ → Pat → Pats → Psi → Heap → Option (PatResult × Pats × Psi × Heap)
    unfolding programs_from
    parse_pat_sections pbuf buf_size p pats psi mem = do
      (ret, header', mem') ← parse_section_header malloc pbuf buf_size p.pat_header mem
      let p' : Pat = record p { pat_header = header' }
      elim ret [
        | done ↦ (do
          let pdata = contents (load header'.private_data_byte mem')
          let section_len = u16 (header'.section_length + 2 ^ 16 - (5 + 4))
          (result, p'', psi') ← programs_from pdata section_len p' psi
          some (result, record pats { pat = some p'' }, psi', mem'))
        | other ↦ some (not_done other, record pats { pat = some p' }, psi, mem')
      ]

    -- `pat_memory` says whether `calloc` gives a new table.
    unfoldable pub parse_pat :
        Bool → Option Bytes → ℕ → Pats → Psi → Heap → Option (PatResult × Pats × Psi × Heap)
    unfolding parse_pat_sections
    parse_pat pat_memory pbuf buf_size pats psi mem = do
      check ← check_section_header_version pbuf (current_version pats.pat)
      elim check [
        | go_on ↦ elim pats.pat [
          | none ↦ some (not_done HeaderResult.null_pointer, pats, psi, mem)
          | some p ↦ parse_pat_sections pbuf buf_size p pats psi mem
        ]
        | newer ↦
            if pat_memory
            then parse_pat_sections pbuf buf_size new_pat (add_pat new_pat pats) psi mem
            else some (out_of_memory, pats, psi, mem)
        | other ↦ some (not_current other, pats, psi, mem)
      ]

    -- With the counter of the sections, of 64 bits.
    unfoldable pub pat_proc :
        Bool → Option Bytes → ℕ → ℕ → Pats → Psi → Heap → Option (ℕ × Pats × Psi × Heap)
    unfolding parse_pat
    pat_proc pat_memory pkt len pat_sections pats psi mem = do
      (_, pats', psi', mem') ← parse_pat pat_memory pkt len pats psi mem
      some (u64 (pat_sections + 1), pats', psi', mem')
