-- ===== src/Table/Startup/Slots.antt =====
-- src/table.c: the slots of a PID after a row of calls of `init_table_filter`.
use tsanalyze.Base.{
  ℕ, ◌+◌, ◌≤◌, ◌<◌, ◌==◌, ==_refl, ==_ne, if◌then◌else◌, Bool, true, some, Bytes, List, [], ◌∷◌,
  ◌++◌,
}
use tsanalyze.Base.{
  length, length-append, ◌≡◌, refl, sym, subst, inl, inr, Bool-cases, ◌∙◌, ap, arith,
}
use mathlib.Core.List.{append-nil, append_assoc}
use native.Mathlib.Decide.{ℕ_discrete}
use tsanalyze.Filter.{Filters, num_filter_max}
use tsanalyze.Filter.Registry.{filter_rebuild_rest}
use tsanalyze.Table.Register.{init_table_filter, init_table_filter_lem, table_slot}
use tsanalyze.Table.Ops.{Callback}
use tsanalyze.Bitmap.Laws.{get-set, bitmap64_get-set}
use tsanalyze.Table.Ops.{Psi, check_section_pid}
use tsanalyze.Table.Startup.Served.{takers, takers-append, served, takers-served}
use tsanalyze.Table.Startup.{
  Entry, init_entries, slots_at, chosen_from, ts_max_pid, init_table_ops, start_tables, si_entries,
  psip_entries, no_pids, mgt_pid,
}

slots_at-cons :
    (q : ℕ) (e : Entry) (rest : List Entry)
    → slots_at q (e ∷ rest) ≡ slots_at q (e ∷ []) ++ slots_at q rest
slots_at-cons q e rest = elim (Bool-cases (q == e.pid)) [
  | inl here ↦ rw here refl
  | inr elsewhere ↦ rw elsewhere refl
]

length-slots_at_one : (q : ℕ) (e : Entry) → length (slots_at q (e ∷ [])) ≤ 1
length-slots_at_one q e = ground arith

init_one :
    (e : Entry) (fs : Filters Callback)
    → length (fs e.pid).slots < num_filter_max
    → (fs' : Filters Callback) × (init_table_filter true e.pid e.tableid e.mask e.func fs
        ≡ some fs')
      × ((q : ℕ) → (fs' q).slots ≡ (fs q).slots ++ slots_at q (e ∷ []))
init_one e fs room =
    let (fs', entered, head, others) =
      init_table_filter_lem e.pid e.tableid e.mask e.func fs room in
    let s = table_slot e.pid e.tableid e.mask e.func in
    let here : (fs' e.pid).slots ≡ (fs e.pid).slots ++ slots_at e.pid (e ∷ []) =
      ap (λ h. h.slots) head
      ∙ (filter_rebuild_rest _).0
      ∙ sym (ap (λ b. (fs e.pid).slots ++ (if b then s ∷ [] else [])) (==_refl e.pid)) in
    (
      fs',
      entered,
      λ q. elim (ℕ_discrete q e.pid) [
        | yes same ↦
            subst (λ k. (fs' k).slots ≡ (fs k).slots ++ slots_at k (e ∷ [])) (sym same) here
        | no other ↦
            rw (==_ne q e.pid other)
              (ap (λ h. h.slots) (others q other) ∙ sym (append-nil (fs q).slots))
      ],
    )

-- With room for all of them on every PID, the calls that `init_table_ops` makes in a row append to
-- each PID's slots those of the calls on that PID, in order.
pub init_entries_lem :
    (entries : List Entry) (fs : Filters Callback)
    → ((q : ℕ) → length (fs q).slots + length entries ≤ num_filter_max)
    → (fs' : Filters Callback) × (init_entries true entries fs ≡ some fs')
      × ((q : ℕ) → (fs' q).slots ≡ (fs q).slots ++ slots_at q entries)
unfolding init_entries
init_entries_lem [] fs room = (fs, refl, λ q. sym (append-nil (fs q).slots))
init_entries_lem (e ∷ rest) fs room =
    let (fs', entered, after) = init_one e fs (omega (arith, room e.pid)) in
    let (fs'', ran, slots) = init_entries_lem rest fs' (λ q. omega (
      arith,
      room q,
      length-slots_at_one q e,
      ap length (after q),
      length-append (fs q).slots (slots_at q (e ∷ [])),
    )) in
    (
      fs'',
      rw entered ran,
      λ q.
          slots q
          ∙ ap (λ front. front ++ slots_at q rest) (after q)
          ∙ append_assoc (fs q).slots (slots_at q (e ∷ [])) (slots_at q rest)
          ∙ ap (λ back. (fs q).slots ++ back) (sym (slots_at-cons q e rest)),
    )

-- If the user chose no PID and every PID has room for 19 more filters, after `init_table_ops` a
-- section is taken by the callbacks that took it before on its PID and then by the one of its table,
-- if it is a table that the program starts with: the PAT on PID 0, the CAT on 1, the TSDT on 2, the
-- NIT on 0x10, the SDT and the BAT on 0x11, the EIT of the present and the following event on 0x12,
-- the TDT and the TOT on 0x14, and nine tables of PSIP on 0x1FFB, which is marked as a PID that
-- carries sections.
pub init_table_ops_lem :
    (pids : ℕ → Bool) (fs : Filters Callback)
    → chosen_from pids ts_max_pid 0 ≡ []
    → ((q : ℕ) → length (fs q).slots + 19 ≤ num_filter_max)
    → (psi : Psi) × (init_table_ops true pids fs ≡ some psi)
      × ((q t : ℕ) (rest : Bytes)
          → t < 256
          → takers (t ∷ rest) (psi.filters q).slots ≡ takers (t ∷ rest) (fs q).slots ++ served q t)
      × (check_section_pid mgt_pid psi ≡ some true)
unfolding init_table_ops start_tables check_section_pid
init_table_ops_lem pids fs none_chosen room =
    let (fs', ran, slots) = init_entries_lem (si_entries ++ psip_entries) fs room in
    let (bitmap', marked, _, _) = get-set no_pids mgt_pid mgt_pid (omega arith) (omega arith) in
    (
      record { pmt_bitmap = no_pids; section_bitmap = bitmap'; filters = fs' },
      ap (λ chosen. start_tables true chosen fs) none_chosen ∙ rw (ran, marked) refl,
      λ q t rest small.
          ap (takers (t ∷ rest)) (slots q)
          ∙ takers-append (t ∷ rest) (fs q).slots (slots_at q (si_entries ++ psip_entries))
          ∙ ap (λ l. takers (t ∷ rest) (fs q).slots ++ l) (takers-served q t rest small),
      bitmap64_get-set no_pids bitmap' mgt_pid mgt_pid (omega arith) (omega arith) marked,
    )
