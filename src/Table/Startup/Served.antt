-- ===== src/Table/Startup/Served.antt =====
-- src/table.c: which callback takes a section by its PID and table id, once the tables are entered.
use tsanalyze.Base.{
  ℕ, ◌*◌, ◌/◌, ◌<◌, ◌==◌, leb, bit_and, ◌&&◌, ◌||◌, if◌then◌else◌, Bool, true, false, Bool-cases,
  all_below, all_below-lt, Option, none, some, List, [], ◌∷◌, ◌++◌, Bytes, ◌≡◌, refl, ap, inl, inr,
  arith, subst,
}
use tsanalyze.Base.Bits.{bit_and_mask}
use tsanalyze.Filter.{FilterSlot, filter_match}
use tsanalyze.Table.Ops.{
  Callback, pat_proc, cat_proc, tsdt_proc, nit_proc, eit_proc, sdt_bat_proc, tdt_tot_proc,
  atsc_psip_proc,
}
use tsanalyze.Table.Startup.{slots_at, si_entries, psip_entries}

-- Whether a match is one; a fault is none.
abbrev taken : Option Bool → Bool
taken none = false
taken (some b) = b

-- The callbacks of the slots that match a section, in order.
unfoldable pub takers : {Cb : Type 0} → Bytes → List (FilterSlot Cb) → List (Option Cb)
takers buf [] = []
takers buf (s ∷ ss) =
    let rest = takers buf ss in if taken (filter_match s.para buf) then s.callback ∷ rest else rest

pub takers-append :
    {Cb : Type 0} (buf : Bytes) (front back : List (FilterSlot Cb))
    → takers buf (front ++ back) ≡ takers buf front ++ takers buf back
unfolding takers
takers-append buf [] back = refl
takers-append buf (s ∷ front) back = elim (Bool-cases (taken (filter_match s.para buf))) [
  | inl matches ↦ rw matches (ap (λ l. s.callback ∷ l) (takers-append buf front back))
  | inr other ↦ rw other (takers-append buf front back)
]

abbrev one_if : Bool → Callback → List (Option Callback)
one_if b callback = if b then some callback ∷ [] else []

-- The callback of a table by the PID that it comes on and its table id: the PAT, the CAT and the
-- TSDT; the NIT of this network and of others; the SDT of this stream and of others, and the BAT; the
-- EIT of the present and the following event; the TDT and the TOT; the tables of PSIP.
abbrev pub served : ℕ → ℕ → List (Option Callback)
served pid t =
    if pid == 0
    then one_if (t == 0) pat_proc
    else if pid == 1
    then one_if (t == 1) cat_proc
    else if pid == 2
    then one_if (t == 3) tsdt_proc
    else if pid == 0x10
    then one_if (t == 0x40 || t == 0x41) nit_proc
    else if pid == 0x11
    then one_if (t == 0x42 || t == 0x46 || t == 0x4A) sdt_bat_proc
    else if pid == 0x12
    then one_if (t == 0x4E || t == 0x4F) eit_proc
    else if pid == 0x14
    then one_if (t == 0x70 || t == 0x73) tdt_tot_proc
    else if pid == 0x1FFB
    then one_if ((leb 0xC7 t && leb t 0xCD) || t == 0xD3 || t == 0xD4) atsc_psip_proc
    else []

even_checked : all_below 256 (λ t. bit_and t 0xFE == t / 2 * 2) ≡ true
unfolding all_below
even_checked = refl

even_lem : (t : ℕ) → t < 256 → bit_and t 0xFE ≡ t / 2 * 2
even_lem t small = ground (arith, all_below-lt 256 _ t even_checked small)

full_lem : (t : ℕ) → t < 256 → bit_and t 0xFF ≡ t
full_lem t small = omega (arith, bit_and_mask 8 t)

takers-served_0 :
    (t : ℕ) (rest : Bytes)
    → t < 256
    → takers (t ∷ rest) (slots_at 0 (si_entries ++ psip_entries)) ≡ served 0 t
unfolding takers filter_match
takers-served_0 t rest small = rw (full_lem t small) (ground arith)

takers-served_1 :
    (t : ℕ) (rest : Bytes)
    → t < 256
    → takers (t ∷ rest) (slots_at 1 (si_entries ++ psip_entries)) ≡ served 1 t
unfolding takers filter_match
takers-served_1 t rest small = rw (full_lem t small) (ground arith)

takers-served_2 :
    (t : ℕ) (rest : Bytes)
    → t < 256
    → takers (t ∷ rest) (slots_at 2 (si_entries ++ psip_entries)) ≡ served 2 t
unfolding takers filter_match
takers-served_2 t rest small = rw (full_lem t small) (ground arith)

takers-served_0x10 :
    (t : ℕ) (rest : Bytes)
    → t < 256
    → takers (t ∷ rest) (slots_at 0x10 (si_entries ++ psip_entries)) ≡ served 0x10 t
unfolding takers filter_match
takers-served_0x10 t rest small = rw (even_lem t small) (ground arith)

takers-served_0x11 :
    (t : ℕ) (rest : Bytes)
    → t < 256
    → takers (t ∷ rest) (slots_at 0x11 (si_entries ++ psip_entries)) ≡ served 0x11 t
unfolding takers filter_match
takers-served_0x11 t rest small = rw (full_lem t small) (ground arith)

takers-served_0x12 :
    (t : ℕ) (rest : Bytes)
    → t < 256
    → takers (t ∷ rest) (slots_at 0x12 (si_entries ++ psip_entries)) ≡ served 0x12 t
unfolding takers filter_match
takers-served_0x12 t rest small = rw (even_lem t small) (ground arith)

takers-served_0x14 :
    (t : ℕ) (rest : Bytes)
    → t < 256
    → takers (t ∷ rest) (slots_at 0x14 (si_entries ++ psip_entries)) ≡ served 0x14 t
unfolding takers filter_match
takers-served_0x14 t rest small = rw (full_lem t small) (ground arith)

abbrev AllOf : (ℕ → Type 0) → List ℕ → Type 0
AllOf p [] = Unit {0}
AllOf p (k ∷ ks) = p k × AllOf p ks

abbrev NoneOf : ℕ → List ℕ → Type 0
NoneOf t [] = Unit {0}
NoneOf t (k ∷ ks) = ((t == k) ≡ false) × NoneOf t ks

by_values : (p : ℕ → Type 0) (ks : List ℕ) (t : ℕ) → AllOf p ks → (NoneOf t ks → p t) → p t
by_values p [] t all other = other tt
by_values p (k ∷ ks) t all other = elim (Bool-cases (t == k)) [
  | inl same ↦ subst p (ground (arith, same)) all.0
  | inr ne ↦ by_values p ks t all.1 (λ later. other (ne, later))
]

takers-served_0x1FFB :
    (t : ℕ) (rest : Bytes)
    → t < 256
    → takers (t ∷ rest) (slots_at 0x1FFB (si_entries ++ psip_entries)) ≡ served 0x1FFB t
unfolding takers filter_match
takers-served_0x1FFB t rest small =
    by_values
      (λ k. takers (k ∷ rest) (slots_at 0x1FFB (si_entries ++ psip_entries)) ≡ served 0x1FFB k)
      (0xC7 ∷ 0xC8 ∷ 0xC9 ∷ 0xCA ∷ 0xCB ∷ 0xCC ∷ 0xCD ∷ 0xD3 ∷ 0xD4 ∷ []) t
      (refl, (refl, (refl, (refl, (refl, (refl, (refl, (refl, (refl, tt)))))))))
      (λ n.
        let outside : (leb 0xC7 t && leb t 0xCD) ≡ false =
          ground
            (arith, n.0, n.1.0, n.1.1.0, n.1.1.1.0, n.1.1.1.1.0, n.1.1.1.1.1.0, n.1.1.1.1.1.1.0) in
        rw
          (
            full_lem t small,
            n.0,
            n.1.0,
            n.1.1.0,
            n.1.1.1.0,
            n.1.1.1.1.0,
            n.1.1.1.1.1.0,
            n.1.1.1.1.1.1.0,
            n.1.1.1.1.1.1.1.0,
            n.1.1.1.1.1.1.1.1.0,
            outside,
          )
          refl)

-- Once the tables are entered, a section is taken on its PID by the callback of its table alone.
pub takers-served :
    (q t : ℕ) (rest : Bytes)
    → t < 256
    → takers (t ∷ rest) (slots_at q (si_entries ++ psip_entries)) ≡ served q t
unfolding takers filter_match
takers-served q t rest small =
    by_values (λ k. takers (t ∷ rest) (slots_at k (si_entries ++ psip_entries)) ≡ served k t)
      (0 ∷ 1 ∷ 2 ∷ 0x10 ∷ 0x11 ∷ 0x12 ∷ 0x14 ∷ 0x1FFB ∷ []) q
      (
        takers-served_0 t rest small,
        (
          takers-served_1 t rest small,
          (
            takers-served_2 t rest small,
            (
              takers-served_0x10 t rest small,
              (
                takers-served_0x11 t rest small,
                (
                  takers-served_0x12 t rest small,
                  (takers-served_0x14 t rest small, (takers-served_0x1FFB t rest small, tt)),
                ),
              ),
            ),
          ),
        ),
      )
      (λ n.
        rw
          (
            n.0, n.1.0, n.1.1.0, n.1.1.1.0, n.1.1.1.1.0, n.1.1.1.1.1.0, n.1.1.1.1.1.1.0,
            n.1.1.1.1.1.1.1.0,
          )
          refl)
