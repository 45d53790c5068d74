-- ===== src/Table/Undo.antt =====
-- src/table.c: taking a table out of the filter registry undoes entering it.
use tsanalyze.Base.{ℕ, ◌<◌, none, some, true}
use tsanalyze.Base.{[], ◌∷◌, ◌++◌, length, get_elem?, ◌≡◌, ◌∙◌, ap, arith, ◌≢◌}
use tsanalyze.Base.{get_elem?-append_last, ==_refl, ==_ne, update}
use tsanalyze.Filter.{Filters, FilterSlot, FilterParam, ok}
use tsanalyze.Filter.{filter_free, filter_lookup, filter_rebuild, lookup_from, same_param, swap_pop}
use tsanalyze.Filter.{num_filter_max}
use tsanalyze.Filter.Registry.{filter_rebuild_rest, filter_rebuild_idem, lookup_from-append_last}
use tsanalyze.Filter.Registry.{swap_pop-append_last}
use tsanalyze.Table.Register.{init_table_filter, uninit_table_filter, table_param, table_slot}
use tsanalyze.Table.Register.{init_table_filter_lem}

module _ {Cb : Type 0} where
  -- What `uninit_table_filter` leaves of the registry.
  abbrev freed : ℕ → ℕ → FilterSlot Cb → Filters Cb → Filters Cb
  freed pid i s fs =
      update fs pid (filter_rebuild (record (fs pid) { slots = swap_pop (fs pid).slots i s }))

  lookup_found :
      (pid i : ℕ) (para : FilterParam) (fs : Filters Cb)
      → lookup_from para (fs pid).slots 0 ≡ some i
      → filter_lookup pid (some para) fs ≡ some (record { pid = pid; index = i })
  unfolding filter_lookup
  lookup_found pid i para fs found = rw (found, filter_lookup)

  free_found :
      (pid tid mask i : ℕ) (func : Cb) (fs : Filters Cb)
      → get_elem? (fs pid).slots i ≡ some (table_slot pid tid mask func)
      → filter_free (some (record { pid = pid; index = i })) fs
        ≡ some (ok, freed pid i (table_slot pid tid mask func) fs)
  unfolding filter_free
  free_found pid tid mask i func fs at_i = rw (at_i, filter_free, ==_refl pid)

  uninit_found :
      (pid tid mask i : ℕ) (func : Cb) (fs : Filters Cb)
      → lookup_from (table_param tid mask) (fs pid).slots 0 ≡ some i
      → get_elem? (fs pid).slots i ≡ some (table_slot pid tid mask func)
      → uninit_table_filter pid tid mask fs ≡ some (freed pid i (table_slot pid tid mask func) fs)
  unfolding uninit_table_filter
  uninit_found pid tid mask i func fs found at_i = rw (
    lookup_found pid i (table_param tid mask) fs found,
    uninit_table_filter,
    free_found pid tid mask i func fs at_i,
  )

  same_param-table :
      (pid tid mask : ℕ) (func : Cb)
      → same_param (table_slot pid tid mask func).para (table_param tid mask) ≡ true
  unfolding same_param
  same_param-table pid tid mask func = rw (==_refl tid, ==_refl mask)

  -- On a PID with room for one more filter and no equal one, `uninit_table_filter` after `init_table_filter` gives the slots
  -- of the PID back, with the dispatch rebuilt; no other PID changes.
  pub uninit-init :
      (pid tid mask : ℕ) (func : Cb) (fs : Filters Cb)
      → length (fs pid).slots < num_filter_max
      → lookup_from (table_param tid mask) (fs pid).slots 0 ≡ none
      → (fs' fs'' : Filters Cb) × (init_table_filter true pid tid mask func fs ≡ some fs')
        × (uninit_table_filter pid tid mask fs' ≡ some fs'')
        × ((fs'' pid).slots ≡ (fs pid).slots)
        × (filter_rebuild (fs'' pid) ≡ fs'' pid)
        × ((q : ℕ) → q ≢ pid → fs'' q ≡ fs q)
  uninit-init pid tid mask func fs room fresh =
      let (fs', entered, head, others) = init_table_filter_lem pid tid mask func fs room in
      let s = table_slot pid tid mask func in
      let slots_now : (fs' pid).slots ≡ (fs pid).slots ++ (s ∷ []) =
        ap (λ h. h.slots) head ∙ (filter_rebuild_rest _).0 in
      let fs'' = freed pid (length (fs pid).slots) s fs' in
      (
        fs',
        fs'',
        entered,
        uninit_found pid tid mask (length (fs pid).slots) func fs'
            (rw slots_now (
              lookup_from-append_last (table_param tid mask) (fs pid).slots s 0 fresh
                (same_param-table pid tid mask func)
              ∙ ap some (omega arith)))
            (rw slots_now (get_elem?-append_last (fs pid).slots s)),
        rw (==_refl pid) (
            (filter_rebuild_rest _).0
            ∙ ap (λ slots. swap_pop slots (length (fs pid).slots) s) slots_now
            ∙ swap_pop-append_last (fs pid).slots s s),
        rw (==_refl pid) (filter_rebuild_idem _),
        λ q other. rw (==_ne q pid other) (others q other),
      )
