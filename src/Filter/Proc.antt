-- ===== src/Filter/Proc.antt =====
-- src/filter.c: `filter_proc`. A callback may register filters, so it acts on the state `W` of the
-- whole program, of which `filters` reads the registry; `run` calls a callback.
use tsanalyze.Base.{ℕ, zero, suc, ◌+◌, ◌==◌, ◌!=◌, ltb, if◌then◌else◌, ◌&&◌}
use tsanalyze.Base.{Option, none, some, List, [], ◌∷◌, [], ◌∷◌, ◌>>=◌, Bytes, read8}
use tsanalyze.Base.{get_elem?, length, u16}
use tsanalyze.Filter.{Filters, FilterSlot, Status, ok, failed}
use tsanalyze.Filter.{filter_match, no_slot, num_filter_max}

-- A head has at most `num_filter_max` slots, and the last round finds the end.
abbrev pub scan_fuel : ℕ
scan_fuel = num_filter_max + 1

module _ {Cb W : Type 0} (filters : W → Filters Cb) (pid : ℕ) where
  abbrev pub slots_of : W → List (FilterSlot Cb)
  slots_of w = (filters w pid).slots

module _ {Cb W : Type 0} (filters : W → Filters Cb) (run : Cb → ℕ → Bytes → ℕ → W → Option W)
    (pid : ℕ) (buf : Bytes) (len : ℕ) where
  -- A call through a null pointer is a fault.
  unfoldable pub call : Option Cb → W → Option W
  call none w = none
  call (some cb) w = run cb pid buf len w

  -- The body of the linear scan.
  unfoldable pub offer : FilterSlot Cb → W → Option W
  unfolding call
  offer s w = do matches ← filter_match s.para buf; if matches then call s.callback w else some w

  -- Every slot in turn is offered the section: what the dispatch comes to.
  unfoldable pub offer_all : List (FilterSlot Cb) → W → Option W
  offer_all [] w = some w
  offer_all (s ∷ rest) w = do w' ← offer s w; offer_all rest w'

  -- The linear scan at index `i`. The number of slots is read again in each round.
  unfoldable pub scan_from : ℕ → ℕ → W → Option W
  scan_from zero i w = none
  scan_from (suc fuel) i w = elim (get_elem? (slots_of filters pid w) i) [
    | none ↦ some w
    | some s ↦ (do w' ← offer s w; scan_from fuel (i + 1) w')
  ]

  -- `hd->map[data[0]]`, and the call if the index names a slot.
  unfoldable pub by_table_id : W → Option W
  unfolding call
  by_table_id w = do
    x ← read8 buf 0
    let idx = (filters w pid).map x
    if idx != no_slot && ltb idx (u16 (length (slots_of filters pid w)))
        then elim (get_elem? (slots_of filters pid w) idx) [
          | none ↦ none
          | some s ↦ call s.callback w
        ]
        else some w

  unfoldable pub filter_proc : W → Option (Status × W)
  unfolding scan_from by_table_id offer
  filter_proc w = if length (slots_of filters pid w) == 0 then some (failed, w) else do
    w' ← (if (filters w pid).multi then scan_from scan_fuel 0 w else by_table_id w)
    some (ok, w')
