-- ===== src/Scte.antt =====
-- src/scte.c: the PIDs that carry SCTE 35 sections, up to eight. `none` is an access out of range.
pub mod Command
pub mod Info
pub mod Whole
pub mod Overrun
mod Tests
use tsanalyze.Base.{
  ℕ, ◌+◌, leb, if◌then◌else◌, Bool, Option, none, some, ◌>>=◌, List, [], ◌∷◌, get_elem?, set, take,
  length,
}
use tsanalyze.Bitmap.{Bitmap, bitmap64_get, bitmap64_set}
use tsanalyze.Filter.{Filters}
use tsanalyze.Table.Register.{uninit_table_filter}
use tsanalyze.Table.Ops.{Psi, Callback, scte_proc, register_section_ops}

abbrev pub scte_max_pid_num : ℕ
scte_max_pid_num = 8

abbrev pub scte_splice_tid : ℕ
scte_splice_tid = 0xFC

-- The parts of `mpegts_scte_t` that say which PIDs are entered; `pids` are those of `list`.
pub record MpegtsScte : Type 0 where
  pub pid_num : ℕ
  pub pid_bitmap : Bitmap
  pub pids : List ℕ

unfoldable pub register_scte_ops : Bool → ℕ → MpegtsScte → Psi → Option (MpegtsScte × Psi)
register_scte_ops memory pid scte psi =
    if leb scte_max_pid_num scte.pid_num then some (scte, psi) else do
      registered ← bitmap64_get scte.pid_bitmap pid
      if registered then some (scte, psi) else do
        bitmap' ← bitmap64_set scte.pid_bitmap pid
        old ← get_elem? scte.pids scte.pid_num
        psi' ← register_section_ops memory pid scte_splice_tid (some scte_proc) psi
        some (
          record {
            pid_num = scte.pid_num + 1;
            pid_bitmap = bitmap';
            pids = set scte.pids scte.pid_num pid;
          },
          psi',
        )

-- The filters of PIDs, taken out one after the other.
unfoldable pub free_filters : List ℕ → Filters Callback → Option (Filters Callback)
free_filters [] fs = some fs
free_filters (pid ∷ rest) fs = do
  fs' ← uninit_table_filter pid scte_splice_tid 0xFF fs
  free_filters rest fs'

unfoldable pub unregister_scte_ops : MpegtsScte → Psi → Option (MpegtsScte × Psi)
unfolding free_filters
unregister_scte_ops scte psi =
    if leb scte.pid_num (length scte.pids)
    then (do
      fs' ← free_filters (take scte.pid_num scte.pids) psi.filters
      some (record scte { pid_num = 0 }, record psi { filters = fs' }))
    else none
