-- ===== src/Table/Ops.antt =====
-- src/table.c: the PIDs of program maps and of other sections, with their filters.
use tsanalyze.Base.{ℕ, ◌==◌, if◌then◌else◌, Bool, Option, none, some, ◌>>=◌}
use tsanalyze.Bitmap.{Bitmap, bitmap64_get, bitmap64_set, bitmap64_clear}
use tsanalyze.Filter.{Filters}
use tsanalyze.Table.Register.{init_table_filter, uninit_table_filter}

-- The callbacks that filters of the tables call, by the name of the function; `scte_proc` is that
-- of src/scte.c, and `pes_proc` that of src/pes.c.
pub data Callback : Type 0 where
  pat_proc cat_proc tsdt_proc nit_proc eit_proc sdt_bat_proc tdt_tot_proc : Callback
  atsc_psip_proc pmt_proc default_proc scte_proc pes_proc : Callback

-- The parts of `psi` that say which PIDs carry sections, with the registry of the filters.
pub record Psi : Type 0 where
  pub pmt_bitmap : Bitmap
  pub section_bitmap : Bitmap
  pub filters : Filters Callback

abbrev pub nit_pid : ℕ
nit_pid = 0x10

abbrev pub pmt_tid : ℕ
pmt_tid = 0x02

unfoldable pub check_pmt_pid : ℕ → Psi → Option Bool
check_pmt_pid pid psi = bitmap64_get psi.pmt_bitmap pid

unfoldable pub check_section_pid : ℕ → Psi → Option Bool
check_section_pid pid psi = bitmap64_get psi.section_bitmap pid

-- `memory` says whether `realloc` gives the memory.
unfoldable pub register_pmt_ops : Bool → ℕ → Psi → Option Psi
register_pmt_ops memory pid psi = if pid == nit_pid then some psi else do
  pmt_bitmap' ← bitmap64_set psi.pmt_bitmap pid
  filters' ← init_table_filter memory pid pmt_tid 0xFF pmt_proc psi.filters
  some (record psi { pmt_bitmap = pmt_bitmap'; filters = filters' })

unfoldable pub unregister_pmt_ops : ℕ → Psi → Option Psi
unregister_pmt_ops pid psi = do
  pmt_bitmap' ← bitmap64_clear psi.pmt_bitmap pid
  filters' ← uninit_table_filter pid pmt_tid 0xFF psi.filters
  some (record psi { pmt_bitmap = pmt_bitmap'; filters = filters' })

-- The null callback is `none`.
abbrev pub or_default : Option Callback → Callback
or_default none = default_proc
or_default (some callback) = callback

unfoldable pub register_section_ops : Bool → ℕ → ℕ → Option Callback → Psi → Option Psi
register_section_ops memory pid tableid callback psi = if pid == nit_pid then some psi else do
  registered ← bitmap64_get psi.section_bitmap pid
  if registered then some psi else do
    section_bitmap' ← bitmap64_set psi.section_bitmap pid
    filters' ← init_table_filter memory pid tableid 0xFF (or_default callback) psi.filters
    some (record psi { section_bitmap = section_bitmap'; filters = filters' })

unfoldable pub unregister_section_ops : ℕ → Psi → Option Psi
unregister_section_ops pid psi = do
  section_bitmap' ← bitmap64_clear psi.section_bitmap pid
  filters' ← uninit_table_filter pid 0 0 psi.filters
  some (record psi { section_bitmap = section_bitmap'; filters = filters' })
