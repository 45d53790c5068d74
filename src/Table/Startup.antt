-- ===== src/Table/Startup.antt =====
-- src/table.c: the filters that the program starts with and takes back at its end.
pub mod Served
pub mod Slots
use tsanalyze.Base.{
  ℕ, zero, suc, ◌+◌, ◌≤◌, ◌<◌, ◌==◌, ==_refl, ==_ne, if◌then◌else◌, Bool, true, false, Option, none,
  some, List, [], ◌∷◌, ◌++◌, ◌>>=◌,
}
use tsanalyze.Base.{length, length-append, replicate, ◌≡◌, ◌≢◌, refl, sym, ◌∙◌, ap, arith}
use native.Mathlib.Decide.{ℕ_discrete}
use tsanalyze.Bitmap.{Bitmap, bitmap64_set}
use tsanalyze.Filter.{Filters, FilterSlot, num_filter_max}
use tsanalyze.Filter.Registry.{filter_rebuild_rest}
use tsanalyze.Table.Register.{
  init_table_filter, uninit_table_filter, init_table_filter_lem, table_slot,
}
use tsanalyze.Table.Ops.{
  Psi, Callback, nit_pid, pat_proc, cat_proc, tsdt_proc, nit_proc, eit_proc, sdt_bat_proc,
  tdt_tot_proc, atsc_psip_proc, default_proc,
}

-- The arguments of a call of `init_table_filter`.
pub record Entry : Type 0 where
  pub pid : ℕ
  pub tableid : ℕ
  pub mask : ℕ
  pub func : Callback

abbrev entry : ℕ → ℕ → ℕ → Callback → Entry
entry pid tableid mask func = record { pid = pid; tableid = tableid; mask = mask; func = func }

abbrev pub mgt_pid : ℕ
mgt_pid = 0x1FFB

abbrev pub si_entries : List Entry
si_entries =
    entry 0x00 0x00 0xFF pat_proc
    ∷ entry 0x01 0x01 0xFF cat_proc
    ∷ entry 0x02 0x03 0xFF tsdt_proc
    ∷ entry 0x10 0x40 0xFE nit_proc
    ∷ entry 0x12 0x4E 0xFE eit_proc
    ∷ entry 0x11 0x42 0xFF sdt_bat_proc
    ∷ entry 0x11 0x46 0xFF sdt_bat_proc
    ∷ entry 0x11 0x4A 0xFF sdt_bat_proc
    ∷ entry 0x14 0x70 0xFF tdt_tot_proc
    ∷ entry 0x14 0x73 0xFF tdt_tot_proc
    ∷ []

abbrev pub psip_entries : List Entry
psip_entries =
    entry mgt_pid 0xC7 0xFF atsc_psip_proc
    ∷ entry mgt_pid 0xC8 0xFF atsc_psip_proc
    ∷ entry mgt_pid 0xC9 0xFF atsc_psip_proc
    ∷ entry mgt_pid 0xCA 0xFF atsc_psip_proc
    ∷ entry mgt_pid 0xCC 0xFF atsc_psip_proc
    ∷ entry mgt_pid 0xCB 0xFF atsc_psip_proc
    ∷ entry mgt_pid 0xCD 0xFF atsc_psip_proc
    ∷ entry mgt_pid 0xD3 0xFF atsc_psip_proc
    ∷ entry mgt_pid 0xD4 0xFF atsc_psip_proc
    ∷ []

-- The calls in a row.
unfoldable pub init_entries : Bool → List Entry → Filters Callback → Option (Filters Callback)
init_entries memory [] fs = some fs
init_entries memory (e ∷ rest) fs = do
  fs' ← init_table_filter memory e.pid e.tableid e.mask e.func fs
  init_entries memory rest fs'

unfoldable pub uninit_entries : List Entry → Filters Callback → Option (Filters Callback)
uninit_entries [] fs = some fs
uninit_entries (e ∷ rest) fs = do
  fs' ← uninit_table_filter e.pid e.tableid e.mask fs
  uninit_entries rest fs'

-- The PIDs that the user chose, from `i` on, with `left` rounds to go.
unfoldable pub chosen_from : (ℕ → Bool) → ℕ → ℕ → List Entry
chosen_from pids zero i = []
chosen_from pids (suc left) i =
    let later = chosen_from pids left (i + 1) in
    if pids i then entry i 0 0 default_proc ∷ later else later

abbrev pub ts_max_pid : ℕ
ts_max_pid = 8191

-- What `psi_table_init` leaves of the bitmaps.
abbrev pub no_pids : Bitmap
no_pids = replicate 128 0

-- The calls once the chosen PIDs are known; `memory` says whether `realloc` gives the memory.
unfoldable pub start_tables : Bool → List Entry → Filters Callback → Option Psi
start_tables memory [] fs = do
  fs' ← init_entries memory (si_entries ++ psip_entries) fs
  section_bitmap' ← bitmap64_set no_pids mgt_pid
  some (record { pmt_bitmap = no_pids; section_bitmap = section_bitmap'; filters = fs' })
start_tables memory (e ∷ rest) fs = do
  fs' ← init_entries memory (e ∷ rest) fs
  some (record { pmt_bitmap = no_pids; section_bitmap = no_pids; filters = fs' })

-- `pids` says which entries of `tsaconf->pids` are 1.
unfoldable pub init_table_ops : Bool → (ℕ → Bool) → Filters Callback → Option Psi
init_table_ops memory pids fs = start_tables memory (chosen_from pids ts_max_pid 0) fs

unfoldable pub uninit_table_ops : Psi → Option Psi
uninit_table_ops psi = do
  fs' ← uninit_entries (si_entries ++ psip_entries) psi.filters
  some (record psi { filters = fs' })

-- The slots of the calls on one PID, in order.
abbrev pub slots_at : ℕ → List Entry → List (FilterSlot Callback)
slots_at q [] = []
slots_at q (e ∷ rest) =
    if q == e.pid
    then table_slot e.pid e.tableid e.mask e.func ∷ slots_at q rest
    else slots_at q rest
