-- ===== src/Filter/Equivalence.antt =====
-- src/filter.c: `filter_proc` offers the section to every slot, whichever way it dispatches.
use tsanalyze.Base.{ℕ, zero, suc, ◌+◌, ◌==◌, if◌then◌else◌, ◌≤◌, ◌<◌}
use tsanalyze.Base.{false, Option, none, some, List, [], ◌∷◌, ◌>>=◌, Bytes}
use tsanalyze.Base.{length, get_elem?, ◌≡◌, sym, ◌∙◌, ap, arith, Bool-cases, Option-cases}
use mathlib.Core.Logic.{inl, inr}
use tsanalyze.Filter.{Filters, FilterSlot, ok, failed, filter_rebuild}
use tsanalyze.Filter.{no_slot, num_filter_max}
use tsanalyze.Filter.Proc.{
  call, slots_of, offer, offer_all, scan_from, scan_fuel, by_table_id, filter_proc,
}
use tsanalyze.Filter.Dispatch.{rebuild_from-Entered}
use tsanalyze.Filter.Scan.{AllSlots, View, View-all, View-tail, scan_end, scan_step, table-Entered}

module _ {Cb W : Type 0} (filters : W → Filters Cb) (run : Cb → ℕ → Bytes → ℕ → W → Option W)
    (pid : ℕ) (x : ℕ) (rest : Bytes) (len : ℕ) (byte : x < 256)
    -- A callback leaves the slots of the PID alone.
    (keeps : (cb : Cb) (w w' : W)
      → run cb pid (x ∷ rest) len w ≡ some w'
      → (filters w' pid).slots ≡ (filters w pid).slots) where
  call-keeps :
      (cb : Option Cb) (w w' : W)
      → call filters run pid (x ∷ rest) len cb w ≡ some w'
      → (filters w' pid).slots ≡ (filters w pid).slots
  unfolding call
  call-keeps none w w' h = cc
  call-keeps (some cb) w w' h = keeps cb w w' h

  offer-keeps :
      (s : FilterSlot Cb) (w w' : W)
      → offer filters run pid (x ∷ rest) len s w ≡ some w'
      → (filters w' pid).slots ≡ (filters w pid).slots
  unfolding offer
  offer-keeps s w w' h = ground (arith, call-keeps s.callback w w')

  scan-offer_all :
      (fuel i : ℕ) (w : W) (suffix : List (FilterSlot Cb))
      → length suffix < fuel
      → View filters run pid x rest len byte keeps w i suffix
      → scan_from filters run pid (x ∷ rest) len fuel i w
        ≡ offer_all filters run pid (x ∷ rest) len suffix w
  unfolding offer_all
  scan-offer_all zero i w suffix fits view = absurd (omega arith)
  scan-offer_all (suc fuel) i w [] fits view =
      scan_end filters run pid x rest len byte keeps fuel i w view
  scan-offer_all (suc fuel) i w (s ∷ suffix) fits view =
      scan_step filters run pid x rest len byte keeps fuel i w s suffix view
      ∙ elim (Option-cases (offer filters run pid (x ∷ rest) len s w)) [
        | inl faults ↦ rw faults
        | inr (w', ran) ↦ rw ran (
            scan-offer_all fuel (i + 1) w' suffix (omega arith) (λ j.
              ap (λ slots. get_elem? slots (i + 1 + j)) (offer-keeps s w w' ran)
              ∙ View-tail filters run pid x rest len byte keeps w i s suffix view j))
      ]

  by_table_id-scan :
      (w : W)
      → (filters w pid).multi ≡ false
      → filter_rebuild (filters w pid) ≡ filters w pid
      → length (slots_of filters pid w) ≤ num_filter_max
      → AllSlots (slots_of filters pid w)
      → by_table_id filters run pid (x ∷ rest) len w
        ≡ scan_from filters run pid (x ∷ rest) len scan_fuel 0 w
  unfolding filter_rebuild
  by_table_id-scan w single rebuilt small valid =
      let hd = filters w pid in
      let (all, found) =
        rebuild_from-Entered x hd.slots 0 (record hd { map = λ _. no_slot; multi = false })
          (ap (λ h. h.multi) rebuilt ∙ single) (omega arith) in
      table-Entered filters run pid x rest len byte keeps w _ found
        (sym (ap (λ h. h.map x) rebuilt)) small all valid

  -- Let the dispatch be rebuilt, the slots be at most `NUM_FILTER_MAX`, with arrays that hold
  -- bytes, and let no callback change the slots of the PID. On a PID with no filter `filter_proc`
  -- fails; else it calls the callback of every filter that matches, in the order of the slots,
  -- through the table of table ids just as through the scan.
  pub filter_proc-offer_all :
      (w : W)
      → filter_rebuild (filters w pid) ≡ filters w pid
      → length (slots_of filters pid w) ≤ num_filter_max
      → AllSlots (slots_of filters pid w)
      → filter_proc filters run pid (x ∷ rest) len w ≡ (
          if length (slots_of filters pid w) == 0
          then some (failed, w)
          else offer_all filters run pid (x ∷ rest) len (slots_of filters pid w) w >>= λ w'.
              some (ok, w'))
  unfolding filter_proc
  filter_proc-offer_all w rebuilt small valid =
      ap
        (λ r.
          if length (slots_of filters pid w) == 0
          then some (failed, w)
          else r >>= λ w'. some (ok, w'))
        dispatched
    where
      scanned :
          scan_from filters run pid (x ∷ rest) len scan_fuel 0 w
          ≡ offer_all filters run pid (x ∷ rest) len (slots_of filters pid w) w
      scanned =
          scan-offer_all scan_fuel 0 w (slots_of filters pid w) (omega arith)
            (View-all filters run pid x rest len byte keeps w)

      dispatched :
          (if (filters w pid).multi
            then scan_from filters run pid (x ∷ rest) len scan_fuel 0 w
            else by_table_id filters run pid (x ∷ rest) len w)
          ≡ offer_all filters run pid (x ∷ rest) len (slots_of filters pid w) w
      dispatched = elim (Bool-cases (filters w pid).multi) [
        | inl many ↦ rw many scanned
        | inr single ↦ rw single (by_table_id-scan w single rebuilt small valid ∙ scanned)
      ]
