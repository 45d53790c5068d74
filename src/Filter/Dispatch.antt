-- ===== src/Filter/Dispatch.antt =====
-- src/filter.c: the dispatch through the table of table ids against the linear scan.
use tsanalyze.Base.{ℕ, zero, suc, ◌+◌, ◌==◌, if◌then◌else◌, ◌≤◌, ◌<◌}
use tsanalyze.Base.{true, false, List, [], ◌∷◌}
use native.Mathlib.Decide.{ℕ_discrete}
use tsanalyze.Base.{length, ◌≡◌, refl, ◌≢◌, inl, inr, arith, Bool-cases}
use tsanalyze.Filter.{FilterSlot, FilterHead, rebuild_slot, rebuild_from}
use tsanalyze.Filter.{no_slot, num_filter_max, is_single, table_id}

module _ {Cb : Type 0} (t : ℕ) where
  -- No slot has the table id `t`.
  abbrev pub Absent : List (FilterSlot Cb) → Type 0
  Absent [] = Unit {0}
  Absent (s ∷ rest) = (table_id s ≢ t) × Absent rest

  -- Slot `k` is the only one with the table id `t`.
  abbrev pub OnlyAt : List (FilterSlot Cb) → ℕ → Type 0
  OnlyAt [] k = ⊥
  OnlyAt (s ∷ rest) zero = (table_id s ≡ t) × Absent rest
  OnlyAt (s ∷ rest) (suc k) = (table_id s ≢ t) × OnlyAt rest k

abbrev pub AllSingle : {Cb : Type 0} → List (FilterSlot Cb) → Type 0
AllSingle [] = Unit {0}
AllSingle (s ∷ rest) = (is_single s ≡ true) × AllSingle rest

module _ {Cb : Type 0} where
  -- What the table says of `t` once the slots are entered from index `i` on.
  pub data Entered (t : ℕ) (slots : List (FilterSlot Cb)) (i before after : ℕ) : Type 0 where
    kept : before ≢ no_slot → after ≡ before → Absent t slots → Entered t slots i before after
    missing : before ≡ no_slot → after ≡ no_slot → Absent t slots → Entered t slots i before after
    entered :
        (k : ℕ)
        → before ≡ no_slot
        → after ≡ i + k
        → OnlyAt t slots k
        → Entered t slots i before after

  rebuild_from-multi :
      (slots : List (FilterSlot Cb)) (i : ℕ) (hd : FilterHead Cb)
      → hd.multi ≡ true
      → (rebuild_from slots i hd).multi ≡ true
  unfolding rebuild_from
  rebuild_from-multi [] i hd h = h
  rebuild_from-multi (s ∷ rest) i hd h =
      rebuild_from-multi rest (i + 1) (rebuild_slot s i hd) (unfold rebuild_slot in ground arith)

  -- One slot is entered without setting `multi`.
  rebuild_slot_single :
      (s : FilterSlot Cb) (i : ℕ) (hd : FilterHead Cb)
      → (rebuild_slot s i hd).multi ≡ false
      → i < no_slot
      → (is_single s ≡ true)
        × (hd.multi ≡ false)
        × (hd.map (table_id s) ≡ no_slot)
        × ((t : ℕ) → (rebuild_slot s i hd).map t ≡ (if t == table_id s then i else hd.map t))
  unfolding rebuild_slot
  rebuild_slot_single s i hd h small = (ground arith, ground arith, ground arith, λ t. ground arith)

  Entered-cons :
      {t : ℕ} {rest : List (FilterSlot Cb)} {i after : ℕ} (s : FilterSlot Cb) (before mid : ℕ)
      → i < no_slot
      → (table_id s ≡ t → (mid ≡ i) × (before ≡ no_slot))
      → (table_id s ≢ t → mid ≡ before)
      → Entered t rest (i + 1) mid after
      → Entered t (s ∷ rest) i before after
  Entered-cons {t} s before mid small at_t elsewhere (kept ne e absent) =
      elim (ℕ_discrete (table_id s) t) [
        | yes same ↦ entered 0 (at_t same).1 (omega (arith, at_t same)) (same, absent)
        | no other ↦
            kept (omega (arith, elsewhere other)) (omega (arith, elsewhere other)) (other, absent)
      ]
  Entered-cons {t} s before mid small at_t elsewhere (missing m e absent) =
      elim (ℕ_discrete (table_id s) t) [
        | yes same ↦ absurd (omega (arith, at_t same))
        | no other ↦ missing (omega (arith, elsewhere other)) e (other, absent)
      ]
  Entered-cons {t} s before mid small at_t elsewhere (entered k m e only) =
      elim (ℕ_discrete (table_id s) t) [
        | yes same ↦ absurd (omega (arith, at_t same))
        | no other ↦ entered (suc k) (omega (arith, elsewhere other)) (omega arith) (other, only)
      ]

  -- `filter_rebuild` enters each slot, or sets `multi`.
  pub rebuild_from-Entered :
      (t : ℕ) (slots : List (FilterSlot Cb)) (i : ℕ) (hd : FilterHead Cb)
      → (rebuild_from slots i hd).multi ≡ false
      → i + length slots ≤ num_filter_max
      → AllSingle slots × Entered t slots i (hd.map t) ((rebuild_from slots i hd).map t)
  unfolding rebuild_from
  rebuild_from-Entered t [] i hd h small = (
    tt,
    elim (ℕ_discrete (hd.map t) no_slot) [
      | yes free ↦ missing free free tt
      | no used ↦ kept used refl tt
    ],
  )
  rebuild_from-Entered t (s ∷ rest) i hd h small =
      let (later, found) =
        rebuild_from-Entered t rest (i + 1) (rebuild_slot s i hd) h (omega arith) in
      let single : (rebuild_slot s i hd).multi ≡ false =
        elim (Bool-cases (rebuild_slot s i hd).multi) [
          | inl bad ↦ cc (rebuild_from-multi rest (i + 1) (rebuild_slot s i hd) bad)
          | inr good ↦ good
        ] in
      let (is, _, free, table) = rebuild_slot_single s i hd single (omega arith) in
      (
        (is, later),
        Entered-cons s (hd.map t) ((rebuild_slot s i hd).map t) (omega arith)
            (λ same. ground (arith, table t)) (λ other. ground (arith, table t)) found,
      )
