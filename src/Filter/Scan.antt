-- ===== src/Filter/Scan.antt =====
-- src/filter.c: `filter_proc` by table id gives what the linear scan gives.
use tsanalyze.Base.{ℕ, zero, suc, ◌+◌, ◌==◌, if◌then◌else◌, ◌≤◌, ◌<◌}
use tsanalyze.Base.{true, Option, none, some, List, [], ◌∷◌, ◌>>=◌, Bytes, IsBytes}
use tsanalyze.Base.{
  get_elem?, get_or, length, ==_ne, ==_iff, lt-length_of_some, ◌≡◌, refl, sym, ◌∙◌, ap, arith,
  Option-cases,
}
use tsanalyze.Base.{byte-lt, get_elem?-eq-get_or, bit_and}
use mathlib.Core.Option.{some-injective}
use mathlib.Core.Logic.{inl, inr}
use tsanalyze.Base.Bits.{bit_and_mask, bit_and_comm}
use tsanalyze.Filter.{Filters, FilterSlot, FilterParam}
use tsanalyze.Filter.{filter_match, match_from, no_slot, num_filter_max, is_single, table_id}
use tsanalyze.Filter.Proc.{call, slots_of, offer, scan_from, scan_fuel, by_table_id}
use tsanalyze.Filter.Dispatch.{Absent, OnlyAt, AllSingle, Entered, kept, missing, entered}

-- The arrays of a slot have their length and hold bytes.
pub record IsSlot {Cb : Type 0} (s : FilterSlot Cb) : Type 0 where
  pub coff_long : 0 < length s.para.coff
  pub mask_long : 0 < length s.para.mask
  pub coff_bytes : IsBytes s.para.coff

abbrev pub AllSlots : {Cb : Type 0} → List (FilterSlot Cb) → Type 0
AllSlots [] = Unit {0}
AllSlots (s ∷ rest) = IsSlot s × AllSlots rest

byte_mask : (x : ℕ) → x < 256 → (bit_and x 0xFF ≡ x) × (bit_and 0xFF x ≡ x)
byte_mask x h =
    (omega (arith, bit_and_mask 8 x), omega (arith, bit_and_mask 8 x, bit_and_comm 0xFF x))

is_single_iff :
    {Cb : Type 0} (s : FilterSlot Cb)
    → is_single s ≡ true
    → (s.para.depth ≡ 1) × (get_or s.para.mask 0 0 ≡ 0xFF)
is_single_iff s h = ground arith

match_once :
    (p : FilterParam) (x : ℕ) (rest : Bytes)
    → 0 < length p.coff
    → 0 < length p.mask
    → match_from 1 0 p (x ∷ rest)
      ≡ some (bit_and x (get_or p.mask 0 0) == bit_and (get_or p.mask 0 0) (get_or p.coff 0 0))
unfolding match_from
match_once p x rest c m =
    ground (arith, get_elem?-eq-get_or p.coff 0 0 c, get_elem?-eq-get_or p.mask 0 0 m)

match_single :
    {Cb : Type 0} (s : FilterSlot Cb) (x : ℕ) (rest : Bytes)
    → is_single s ≡ true
    → IsSlot s
    → x < 256
    → filter_match s.para (x ∷ rest) ≡ some (x == table_id s)
unfolding filter_match
match_single s x rest single v h =
    let (deep, full) = is_single_iff s single in
    let small : table_id s < 256 = byte-lt s.para.coff 0 v.coff_bytes in
    ap (λ n. match_from n 0 s.para (x ∷ rest)) deep
    ∙ match_once s.para x rest v.coff_long v.mask_long
    ∙ ap (λ m. some (bit_and x m == bit_and m (table_id s))) full
    ∙ rw ((byte_mask x h).0, (byte_mask (table_id s) small).1)

OnlyAt-get_elem? :
    {Cb : Type 0} (t : ℕ) (slots : List (FilterSlot Cb)) (k : ℕ)
    → OnlyAt t slots k
    → (s : FilterSlot Cb) × (get_elem? slots k ≡ some s)
OnlyAt-get_elem? t [] k only = absurd only
OnlyAt-get_elem? t (s ∷ rest) zero only = (s, refl)
OnlyAt-get_elem? t (s ∷ rest) (suc k) only = OnlyAt-get_elem? t rest k only.1

module _ {Cb W : Type 0} (filters : W → Filters Cb) (run : Cb → ℕ → Bytes → ℕ → W → Option W)
    (pid : ℕ) (x : ℕ) (rest : Bytes) (len : ℕ) (byte : x < 256)
    -- A callback leaves the slots of the PID alone.
    (keeps : (cb : Cb) (w w' : W)
      → run cb pid (x ∷ rest) len w ≡ some w'
      → (filters w' pid).slots ≡ (filters w pid).slots) where
  abbrev pub buf : Bytes
  buf = x ∷ rest

  -- `suffix` is what is left of the slots at index `i`.
  abbrev pub View : W → ℕ → List (FilterSlot Cb) → Type 0
  View w i suffix = (j : ℕ) → get_elem? (slots_of filters pid w) (i + j) ≡ get_elem? suffix j

  offer_single :
      (s : FilterSlot Cb) (w : W)
      → is_single s ≡ true
      → IsSlot s
      → offer filters run pid buf len s w
        ≡ (if x == table_id s then call filters run pid buf len s.callback w else some w)
  unfolding offer
  offer_single s w single v = rw (match_single s x rest single v byte)

  pub View-tail :
      (w : W) (i : ℕ) (s : FilterSlot Cb) (suffix : List (FilterSlot Cb))
      → View w i (s ∷ suffix)
      → View w (i + 1) suffix
  View-tail w i s suffix view j =
      ap (λ k. get_elem? (slots_of filters pid w) k) (omega arith) ∙ view (suc j)

  View-head :
      (w : W) (i : ℕ) (suffix : List (FilterSlot Cb))
      → View w i suffix
      → get_elem? (slots_of filters pid w) i ≡ get_elem? suffix 0
  View-head w i suffix view = ap (λ k. get_elem? (slots_of filters pid w) k) (omega arith) ∙ view 0

  pub scan_end :
      (fuel i : ℕ) (w : W) → View w i [] → scan_from filters run pid buf len (suc fuel) i w ≡ some w
  unfolding scan_from
  scan_end fuel i w view = rw (View-head w i [] view, scan_from)

  pub scan_step :
      (fuel i : ℕ) (w : W) (s : FilterSlot Cb) (suffix : List (FilterSlot Cb))
      → View w i (s ∷ suffix)
      → scan_from filters run pid buf len (suc fuel) i w ≡ (
          offer filters run pid buf len s w >>= λ w'.
          scan_from filters run pid buf len fuel (i + 1) w')
  unfolding scan_from
  scan_step fuel i w s suffix view = rw (View-head w i (s ∷ suffix) view, scan_from)

  scan-Absent :
      (fuel i : ℕ) (w : W) (suffix : List (FilterSlot Cb))
      → length suffix < fuel
      → View w i suffix
      → AllSingle suffix
      → AllSlots suffix
      → Absent x suffix
      → scan_from filters run pid buf len fuel i w ≡ some w
  scan-Absent zero i w suffix fits view single valid absent = absurd (omega arith)
  scan-Absent (suc fuel) i w [] fits view single valid absent = scan_end fuel i w view
  scan-Absent (suc fuel) i w (s ∷ suffix) fits view single valid absent =
      scan_step fuel i w s suffix view
      ∙ rw (offer_single s w single.0 valid.0, ==_ne x (table_id s) (λ e. absent.0 (sym e)))
          (scan-Absent fuel (i + 1) w suffix (omega arith) (View-tail w i s suffix view) single.1
            valid.1 absent.1)

  pub View-kept :
      (cb : Cb) (w w' : W) (i : ℕ) (suffix : List (FilterSlot Cb))
      → run cb pid buf len w ≡ some w'
      → View w i suffix
      → View w' i suffix
  View-kept cb w w' i suffix ran view j =
      ap (λ slots. get_elem? slots (i + j)) (keeps cb w w' ran) ∙ view j

  -- After a call the scan goes through the other slots and calls none.
  call_then :
      (cb : Option Cb) (fuel i : ℕ) (w : W) (suffix : List (FilterSlot Cb))
      → length suffix < fuel
      → View w i suffix
      → AllSingle suffix
      → AllSlots suffix
      → Absent x suffix
      → (call filters run pid buf len cb w >>= λ w'. scan_from filters run pid buf len fuel i w')
        ≡ call filters run pid buf len cb w
  unfolding call
  call_then none fuel i w suffix fits view single valid absent = refl
  call_then (some cb) fuel i w suffix fits view single valid absent =
      elim (Option-cases (run cb pid buf len w)) [
        | inl faults ↦ rw faults
        | inr (w', ran) ↦ rw ran (
            scan-Absent fuel i w' suffix fits (View-kept cb w w' i suffix ran view) single valid
              absent)
      ]

  -- The slot of the table id is called, and no other.
  scan_only :
      (fuel i : ℕ) (w : W) (suffix : List (FilterSlot Cb)) (k : ℕ) (s : FilterSlot Cb)
      → length suffix < fuel
      → View w i suffix
      → AllSingle suffix
      → AllSlots suffix
      → OnlyAt x suffix k
      → get_elem? suffix k ≡ some s
      → scan_from filters run pid buf len fuel i w ≡ call filters run pid buf len s.callback w
  scan_only zero i w suffix k s fits view single valid only at_k = absurd (omega arith)
  scan_only (suc fuel) i w [] k s fits view single valid only at_k = absurd only
  scan_only (suc fuel) i w (h ∷ suffix) zero s fits view single valid only at_k =
      scan_step fuel i w h suffix view
      ∙ rw (offer_single h w single.0 valid.0, (==_iff x (table_id h)).1 (sym only.0))
          (call_then h.callback fuel (i + 1) w suffix (omega arith) (View-tail w i h suffix view)
            single.1 valid.1 only.1)
      ∙ ap (λ (o : FilterSlot Cb). call filters run pid buf len o.callback w)
          (some-injective h s at_k)
  scan_only (suc fuel) i w (h ∷ suffix) (suc k) s fits view single valid only at_k =
      scan_step fuel i w h suffix view
      ∙ rw (offer_single h w single.0 valid.0, ==_ne x (table_id h) (λ e. only.0 (sym e)))
          (scan_only fuel (i + 1) w suffix k s (omega arith) (View-tail w i h suffix view) single.1
            valid.1 only.1 at_k)

  pub View-all : (w : W) → View w 0 (slots_of filters pid w)
  View-all w j = ap (λ k. get_elem? (slots_of filters pid w) k) (omega arith)

  by_table_id_hit :
      (w : W) (k : ℕ) (s : FilterSlot Cb)
      → (filters w pid).map x ≡ k
      → k < length (slots_of filters pid w)
      → length (slots_of filters pid w) ≤ num_filter_max
      → get_elem? (slots_of filters pid w) k ≡ some s
      → by_table_id filters run pid buf len w ≡ call filters run pid buf len s.callback w
  unfolding by_table_id
  by_table_id_hit w k s m inside small at_k = ground arith

  -- The lookup by table id does what the scan does, given what the table says of the table id.
  pub table-Entered :
      (w : W) (idx : ℕ)
      → Entered x (slots_of filters pid w) 0 no_slot idx
      → (filters w pid).map x ≡ idx
      → length (slots_of filters pid w) ≤ num_filter_max
      → AllSingle (slots_of filters pid w)
      → AllSlots (slots_of filters pid w)
      → by_table_id filters run pid buf len w ≡ scan_from filters run pid buf len scan_fuel 0 w
  unfolding by_table_id
  table-Entered w idx (kept ne e absent) m small single valid = absurd (ne refl)
  table-Entered w idx (missing free e absent) m small single valid =
      rw (m, e)
        (sym (
          scan-Absent scan_fuel 0 w (slots_of filters pid w) (omega arith) (View-all w) single valid
            absent))
  table-Entered w idx (entered k free e only) m small single valid =
      let (s, at_k) = OnlyAt-get_elem? x (slots_of filters pid w) k only in
      by_table_id_hit w k s (m ∙ e ∙ omega arith)
        (lt-length_of_some (slots_of filters pid w) k s at_k) small at_k
      ∙ sym (
          scan_only scan_fuel 0 w (slots_of filters pid w) k s (omega arith) (View-all w) single
            valid only at_k)
