-- ===== src/Filter/Registry.antt =====
-- src/filter.c: what `filter_rebuild`, `filter_lookup` and `filter_free` do to the slots of a PID.
use tsanalyze.Base.{ℕ, ◌+◌, ◌-◌, true, false, none, some}
use tsanalyze.Base.{List, [], ◌∷◌, ◌++◌, length, length-append, ◌≡◌, refl, ap, ◌∙◌, arith}
use tsanalyze.Base.{get_or-append_last, set-append_last, take-append_length}
use tsanalyze.Filter.{
  FilterSlot, FilterHead, FilterParam, rebuild_slot, rebuild_from, filter_rebuild,
}
use tsanalyze.Filter.{no_slot, lookup_from, same_param, swap_pop}

module _ {Cb : Type 0} where
  rebuild_slot_rest :
      (s : FilterSlot Cb) (i : ℕ) (hd : FilterHead Cb)
      → ((rebuild_slot s i hd).slots ≡ hd.slots) × ((rebuild_slot s i hd).cap ≡ hd.cap)
  unfolding rebuild_slot
  rebuild_slot_rest s i hd = ground arith

  rebuild_from_rest :
      (slots : List (FilterSlot Cb)) (i : ℕ) (hd : FilterHead Cb)
      → ((rebuild_from slots i hd).slots ≡ hd.slots) × ((rebuild_from slots i hd).cap ≡ hd.cap)
  unfolding rebuild_from
  rebuild_from_rest [] i hd = (refl, refl)
  rebuild_from_rest (s ∷ rest) i hd =
      let (same_slots, same_cap) = rebuild_from_rest rest (i + 1) (rebuild_slot s i hd) in
      let (slots_kept, cap_kept) = rebuild_slot_rest s i hd in
      (same_slots ∙ slots_kept, same_cap ∙ cap_kept)

  pub filter_rebuild_rest :
      (hd : FilterHead Cb)
      → ((filter_rebuild hd).slots ≡ hd.slots) × ((filter_rebuild hd).cap ≡ hd.cap)
  unfolding filter_rebuild
  filter_rebuild_rest hd =
      rebuild_from_rest hd.slots 0 (record hd { map = λ _. no_slot; multi = false })

  abbrev blank : ℕ → List (FilterSlot Cb) → FilterHead Cb
  blank c slots = record { cap = c; slots = slots; map = λ _. no_slot; multi = false }

  -- To rebuild the dispatch of a PID again changes nothing: table, flag and slots stay.
  pub filter_rebuild_idem :
      (hd : FilterHead Cb) → filter_rebuild (filter_rebuild hd) ≡ filter_rebuild hd
  unfolding rebuild_from filter_rebuild
  filter_rebuild_idem hd =
      let (slots_kept, cap_kept) = filter_rebuild_rest hd in
      λ i. from_blank (cap_kept i) (slots_kept i)
    where
      from_blank : ℕ → List (FilterSlot Cb) → FilterHead Cb
      from_blank c slots = rebuild_from slots 0 (blank c slots)

  pub lookup_from-append_last :
      (para : FilterParam) (slots : List (FilterSlot Cb)) (s : FilterSlot Cb) (i : ℕ)
      → lookup_from para slots i ≡ none
      → same_param s.para para ≡ true
      → lookup_from para (slots ++ (s ∷ [])) i ≡ some (i + length slots)
  unfolding lookup_from
  lookup_from-append_last para [] s i missing same = rw same (ap some (omega arith))
  lookup_from-append_last para (h ∷ slots) s i missing same =
      ground (arith, lookup_from-append_last para slots s (i + 1))

  -- Freeing the last slot leaves the others as they were.
  pub swap_pop-append_last :
      (slots : List (FilterSlot Cb)) (s s' : FilterSlot Cb)
      → swap_pop (slots ++ (s ∷ [])) (length slots) s' ≡ slots
  unfolding swap_pop
  swap_pop-append_last slots s s' =
      let counted : length (slots ++ (s ∷ [])) - 1 ≡ length slots =
        omega (arith, length-append slots (s ∷ [])) in
      rw (counted, get_or-append_last, set-append_last, take-append_length)
