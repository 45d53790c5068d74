-- ===== src/Table/Marks.antt =====
-- src/table.c: what registering a PID does to the checks that `ts_proc` makes, and to the filters.
use tsanalyze.Base.{
  ℕ, ◌/◌, ◌<◌, if◌then◌else◌, Bool, true, false, Option, none, some, length, ◌≡◌, ◌≢◌, refl, sym,
  ◌∙◌, ap, arith, ==_ne, ==_refl,
}
use tsanalyze.Bitmap.{bitmap64_get}
use tsanalyze.Bitmap.Laws.{get-set, get-clear, bitmap64_get-set, bitmap64_get-clear}
use tsanalyze.Filter.{Filters, num_filter_max, lookup_from, filter_lookup}
use tsanalyze.Table.Register.{
  uninit_table_filter, table_slot, table_param, entered_head, init_table_filter_lem,
}
use tsanalyze.Table.Undo.{uninit-init}
use tsanalyze.Table.Ops.{
  Psi, Callback, nit_pid, pmt_tid, pmt_proc, or_default, check_pmt_pid, check_section_pid,
}
use tsanalyze.Table.Ops.{
  register_pmt_ops, unregister_pmt_ops, register_section_ops, unregister_section_ops,
}

-- A PID other than the NIT's that carries no sections yet, and has room for a filter, carries them
-- once it is registered; no other PID does that did not before, and to register it again, with
-- whatever table and callback, changes nothing.
pub register_section_ops_lem :
    (pid tableid : ℕ) (callback : Option Callback) (psi : Psi)
    → pid ≢ nit_pid
    → pid / 64 < length psi.section_bitmap
    → bitmap64_get psi.section_bitmap pid ≡ some false
    → length (psi.filters pid).slots < num_filter_max
    → (psi' : Psi) × (register_section_ops true pid tableid callback psi ≡ some psi')
      × (check_section_pid pid psi' ≡ some true)
      × ((q : ℕ)
          → q / 64 < length psi.section_bitmap
          → q ≢ pid
          → check_section_pid q psi' ≡ check_section_pid q psi)
      × (psi'.filters pid
          ≡ entered_head (psi.filters pid) (table_slot pid tableid 0xFF (or_default callback)))
      × ((t : ℕ) (c : Option Callback) (m : Bool) → register_section_ops m pid t c psi' ≡ some psi')
unfolding register_section_ops check_section_pid
register_section_ops_lem pid tableid callback psi ne inside unset room =
    let (bitmap', marked, _, set_at) = get-set psi.section_bitmap pid pid inside inside in
    let (filters', entered, head, others) =
      init_table_filter_lem pid tableid 0xFF (or_default callback) psi.filters room in
    let set_bit : bitmap64_get bitmap' pid ≡ some true =
      bitmap64_get-set psi.section_bitmap bitmap' pid pid inside inside marked
      ∙ ap (λ b. if b then some true else bitmap64_get psi.section_bitmap pid) (==_refl pid) in
    (
      record psi { section_bitmap = bitmap'; filters = filters' },
      rw (==_ne pid nit_pid ne, unset, marked, entered) refl,
      set_bit,
      (λ q at_q other.
          bitmap64_get-set psi.section_bitmap bitmap' pid q inside at_q marked
          ∙ ap (λ b. if b then some true else bitmap64_get psi.section_bitmap q)
              (==_ne pid q (λ e. other (sym e)))),
      head,
      λ t c m. rw (==_ne pid nit_pid ne, set_bit) refl,
    )

-- On a PID that is not the NIT's, has room for a filter and has none of a program map, `unregister_pmt_ops` after
-- `register_pmt_ops` gives the slots of the PID back, and the PID carries no program map; in
-- between it does.
pub unregister-register_pmt :
    (pid : ℕ) (psi : Psi)
    → pid ≢ nit_pid
    → pid / 64 < length psi.pmt_bitmap
    → length (psi.filters pid).slots < num_filter_max
    → lookup_from (table_param pmt_tid 0xFF) (psi.filters pid).slots 0 ≡ none
    → (psi' psi'' : Psi) × (register_pmt_ops true pid psi ≡ some psi')
      × (check_pmt_pid pid psi' ≡ some true)
      × (unregister_pmt_ops pid psi' ≡ some psi'')
      × (check_pmt_pid pid psi'' ≡ some false)
      × ((psi''.filters pid).slots ≡ (psi.filters pid).slots)
unfolding register_pmt_ops unregister_pmt_ops check_pmt_pid
unregister-register_pmt pid psi ne inside room fresh =
    let (bitmap', marked, same, _) = get-set psi.pmt_bitmap pid pid inside inside in
    let (filters', filters'', entered, left, slots_back, _, _) =
      uninit-init pid pmt_tid 0xFF pmt_proc psi.filters room fresh in
    let inside' : pid / 64 < length bitmap' = omega (arith, same) in
    let (bitmap'', cleared, _, _) = get-clear bitmap' pid pid inside' inside' in
    (
      record psi { pmt_bitmap = bitmap'; filters = filters' },
      record psi { pmt_bitmap = bitmap''; filters = filters'' },
      rw (==_ne pid nit_pid ne, marked, entered) refl,
      bitmap64_get-set psi.pmt_bitmap bitmap' pid pid inside inside marked
          ∙ ap (λ b. if b then some true else bitmap64_get psi.pmt_bitmap pid) (==_refl pid),
      rw (cleared, left) refl,
      bitmap64_get-clear bitmap' bitmap'' pid pid inside' inside' cleared
          ∙ ap (λ b. if b then some false else bitmap64_get bitmap' pid) (==_refl pid),
      slots_back,
    )

uninit_missing :
    {Cb : Type 0} (pid tid mask : ℕ) (fs : Filters Cb)
    → lookup_from (table_param tid mask) (fs pid).slots 0 ≡ none
    → uninit_table_filter pid tid mask fs ≡ some fs
unfolding uninit_table_filter filter_lookup
uninit_missing pid tid mask fs missing = rw (uninit_table_filter, filter_lookup, missing) refl

-- On a PID with no filter of table id 0 and mask 0, `unregister_section_ops` takes no filter back,
-- whatever tables are registered there: the PID no longer carries sections for `ts_proc`, and all
-- filters stay.
pub unregister_section_ops_lem :
    (pid : ℕ) (psi : Psi)
    → pid / 64 < length psi.section_bitmap
    → lookup_from (table_param 0 0) (psi.filters pid).slots 0 ≡ none
    → (psi' : Psi) × (unregister_section_ops pid psi ≡ some psi')
      × (check_section_pid pid psi' ≡ some false)
      × (psi'.filters ≡ psi.filters)
unfolding unregister_section_ops check_section_pid
unregister_section_ops_lem pid psi inside missing =
    let (bitmap', cleared, _, _) = get-clear psi.section_bitmap pid pid inside inside in
    (
      record psi { section_bitmap = bitmap' },
      rw (cleared, uninit_missing pid 0 0 psi.filters missing) refl,
      bitmap64_get-clear psi.section_bitmap bitmap' pid pid inside inside cleared
          ∙ ap (λ b. if b then some false else bitmap64_get psi.section_bitmap pid) (==_refl pid),
      refl,
    )
