-- ===== src/Dvb/Procs.antt =====
-- src/table.c: the callbacks that hand the sections of the DVB tables to their parsers. The counters
-- of include/statistics.h are 64 bits wide.
pub mod Services
use tsanalyze.Base.{ℕ, ◌+◌, ◌==◌, if◌then◌else◌, Bool, Option, some, ◌>>=◌, Bytes, read8, u64, Heap}
use tsanalyze.Dvb.Network.{NetworkTable, parse_nit, parse_bat}
use tsanalyze.Dvb.Service.{Sdt, parse_sdt}
use tsanalyze.Dvb.Event.{Eit, parse_eit}
use tsanalyze.Dvb.Time.{Tdt, Tot, parse_tdt, parse_tot}

-- The DVB tables of `mpeg_psi_t` and how many sections came for each.
pub record DvbTables (D : Type 0) : Type 0 where
  pub nit_actual : NetworkTable D
  pub nit_other : NetworkTable D
  pub sdt_actual : Sdt D
  pub sdt_other : Sdt D
  pub bat : NetworkTable D
  pub eit_actual : Eit D
  pub eit_other : Eit D
  pub tdt : Tdt
  pub tot : Tot D
  pub nit_actual_sections : ℕ
  pub nit_other_sections : ℕ
  pub sdt_actual_sections : ℕ
  pub sdt_other_sections : ℕ
  pub bat_sections : ℕ
  pub eit_actual_sections : ℕ
  pub eit_other_sections : ℕ
  pub tdt_sections : ℕ
  pub tot_sections : ℕ

module _ {D : Type 0} (parse : ℕ → Bytes → ℕ → Option D) (malloc : ℕ → Option Bytes)
    (node_memory : Bool) where
  unfoldable pub nit_proc : Bytes → ℕ → DvbTables D → Heap → Option (DvbTables D × Heap)
  nit_proc pkt len t mem = do
    tid ← read8 pkt 0
    if tid == 0x40
        then (do
          (_, p', mem') ← parse_nit parse malloc node_memory (some pkt) len t.nit_actual mem
          let n = u64 (t.nit_actual_sections + 1)
          some (record t { nit_actual = p'; nit_actual_sections = n }, mem'))
        else if tid == 0x41
        then (do
          (_, p', mem') ← parse_nit parse malloc node_memory (some pkt) len t.nit_other mem
          let n = u64 (t.nit_other_sections + 1)
          some (record t { nit_other = p'; nit_other_sections = n }, mem'))
        else some (t, mem)

  unfoldable pub sdt_bat_proc : Bytes → ℕ → DvbTables D → Heap → Option (DvbTables D × Heap)
  sdt_bat_proc pkt len t mem = do
    tid ← read8 pkt 0
    if tid == 0x4A
        then (do
          (_, p', mem') ← parse_bat parse malloc node_memory (some pkt) len t.bat mem
          some (record t { bat = p'; bat_sections = u64 (t.bat_sections + 1) }, mem'))
        else if tid == 0x42
        then (do
          (_, p', mem') ← parse_sdt parse malloc node_memory (some pkt) len t.sdt_actual mem
          let n = u64 (t.sdt_actual_sections + 1)
          some (record t { sdt_actual = p'; sdt_actual_sections = n }, mem'))
        else if tid == 0x46
        then (do
          (_, p', mem') ← parse_sdt parse malloc node_memory (some pkt) len t.sdt_other mem
          let n = u64 (t.sdt_other_sections + 1)
          some (record t { sdt_other = p'; sdt_other_sections = n }, mem'))
        else some (t, mem)

  unfoldable pub eit_proc : Bytes → ℕ → DvbTables D → Heap → Option (DvbTables D × Heap)
  eit_proc pkt len t mem = do
    tid ← read8 pkt 0
    if tid == 0x4E
        then (do
          (_, p', mem') ← parse_eit parse malloc node_memory (some pkt) len t.eit_actual mem
          let n = u64 (t.eit_actual_sections + 1)
          some (record t { eit_actual = p'; eit_actual_sections = n }, mem'))
        else if tid == 0x4F
        then (do
          (_, p', mem') ← parse_eit parse malloc node_memory (some pkt) len t.eit_other mem
          let n = u64 (t.eit_other_sections + 1)
          some (record t { eit_other = p'; eit_other_sections = n }, mem'))
        else some (t, mem)

  unfoldable pub tdt_tot_proc : Bytes → DvbTables D → Option (DvbTables D)
  tdt_tot_proc pkt t = do
    tid ← read8 pkt 0
    if tid == 0x70
        then (do
          (_, p') ← parse_tdt (some pkt) t.tdt
          some (record t { tdt = p'; tdt_sections = u64 (t.tdt_sections + 1) }))
        else if tid == 0x73
        then (do
          (_, p') ← parse_tot parse (some pkt) t.tot
          some (record t { tot = p'; tot_sections = u64 (t.tot_sections + 1) }))
        else some t
