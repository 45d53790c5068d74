-- ===== src/Table/Tests.antt =====
-- src/table.c: registering a table's filter and taking it back, on an empty registry.
use tsanalyze.Base.{ℕ, true, false, some, [], ◌≡◌, ◌≢◌, refl, arith}
use tsanalyze.Filter.{Filters, lookup_from, same_param, filter_rebuild, no_slot}
use tsanalyze.Table.Register.{init_table_filter, uninit_table_filter, table_slot, entered_head}
use tsanalyze.Base.{Bool, false, ◌∷◌, ◌<◌, Bytes}
use tsanalyze.Table.Ops.{Psi, scte_proc, check_section_pid}
use tsanalyze.Table.Startup.{no_pids, init_table_ops, chosen_from}
use tsanalyze.Table.Startup.Served.{takers, served}
use tsanalyze.Table.Startup.Slots.{init_table_ops_lem}
use tsanalyze.Base.{◌+◌, ◌*◌}
use tsanalyze.Table.Version.{go_on, check_section_header_version, version-encode}
use tsanalyze.Table.Undo.{uninit-init}

abbrev empty : Filters ℕ
empty pid = record { cap = 0; slots = []; map = λ _. no_slot; multi = false }

abbrev one_table : Filters ℕ
one_table pid = entered_head (empty pid) (table_slot 0x11 0x42 0xFF 1)

uninit-init_example :
    (fs' fs'' : Filters ℕ) × (init_table_filter true 0x11 0x46 0xFF 7 one_table ≡ some fs')
    × (uninit_table_filter 0x11 0x46 0xFF fs' ≡ some fs'')
    × ((fs'' 0x11).slots ≡ (one_table 0x11).slots)
    × (filter_rebuild (fs'' 0x11) ≡ fs'' 0x11)
    × ((q : ℕ) → q ≢ 0x11 → fs'' q ≡ one_table q)
unfolding filter_rebuild lookup_from same_param
uninit-init_example = uninit-init 0x11 0x46 0xFF 7 one_table (omega arith) refl

-- No PID carries sections, and there are no filters.
abbrev started : Psi
started = record {
  pmt_bitmap = no_pids;
  section_bitmap = no_pids;
  filters = λ _. record { cap = 0; slots = []; map = λ _. no_slot; multi = false };
}

-- A PID with the filter of the splice table.
abbrev spliced : Psi
spliced = record started {
  filters = λ _. record {
    cap = 4;
    slots = table_slot 0x100 0xFC 0xFF scte_proc ∷ [];
    map = λ _. no_slot;
    multi = false;
  };
}

abbrev none_chosen : ℕ → Bool
none_chosen pid = false

init_table_ops_example :
    (psi : Psi) × (init_table_ops true none_chosen started.filters ≡ some psi)
    × ((q t : ℕ) (rest : Bytes) → t < 256 → takers (t ∷ rest) (psi.filters q).slots ≡ served q t)
    × (check_section_pid 0x1FFB psi ≡ some true)
unfolding chosen_from takers
init_table_ops_example = init_table_ops_lem none_chosen started.filters refl (λ q. omega arith)

-- The kept version is that of version 6; version 7 comes.
version-encode_example :
    check_section_header_version (some (0 ∷ 0xB0 ∷ 13 ∷ 0 ∷ 1 ∷ (3 * 64 + 7 * 2 + 1) ∷ [])) 19
    ≡ some go_on
version-encode_example =
    version-encode 0 0xB0 13 0 1 3 7 1 19 [] (omega arith) (omega arith) (omega arith) (omega arith)
      (omega arith)
