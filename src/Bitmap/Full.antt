-- ===== src/Bitmap/Full.antt =====
-- src/utils.c: what `bitmap64_full` says of the sections that came.
use tsanalyze.Base.{ℕ, ◌+◌, ◌-◌, ◌*◌, ◌%◌, ◌^◌, ◌<◌, bit_and}
use tsanalyze.Base.{false, some, get_elem?, get_or, length, ◌≡◌, ◌∙◌, ap, arith}
use tsanalyze.Base.{get_elem?-eq-get_or, lt→leb_false}
use native.Mathlib.Nat.{pow-suc, one-le-pow}
use native.Mathlib.Numerals.{add-one}
use tsanalyze.Base.Bits.{bit_and_mask}
use tsanalyze.Bitmap.{Bitmap, bitmap64_get, bitmap64_full}
use tsanalyze.Bitmap.Laws.{bitmap64_get_lem}

-- A table of one section is full exactly when the bit of section 0 is set.
pub full_zero :
    (bitmap : Bitmap) → 0 < length bitmap → bitmap64_full bitmap 0 ≡ bitmap64_get bitmap 0
unfolding bitmap64_full
full_zero bitmap inside = ground (
  arith,
  bitmap64_get_lem bitmap 0 inside,
  get_elem?-eq-get_or bitmap 0 0 inside,
  bit_and_mask 1 (get_or bitmap 0 0),
)

-- If the last section has a number from 1 to 62 that is also the index of a word of the array, the
-- table is not full while that word is empty, whichever of its sections came: their bits are all in
-- word 0.
pub full_small :
    (bitmap : Bitmap) (last : ℕ)
    → 0 < last
    → last < 63
    → last < length bitmap
    → get_or bitmap last 0 ≡ 0
    → bitmap64_full bitmap last ≡ some false
unfolding bitmap64_full
full_small bitmap last several small inside empty =
    let masked : bit_and (get_or bitmap last 0) (2 ^ (last + 1) - 1) ≡ 0 =
      bit_and_mask (last + 1) (get_or bitmap last 0)
      ∙ ap (λ w. w % 2 ^ (last + 1)) empty
      ∙ omega arith in
    let word : get_elem? bitmap (last % 64) ≡ some (get_or bitmap last 0) =
      ap (λ k. get_elem? bitmap k) (omega arith) ∙ get_elem?-eq-get_or bitmap last 0 inside in
    let position : (last + 1) % 64 ≡ last + 1 = omega arith in
    let one : 1 * 2 ^ (last + 1) ≡ 2 ^ (last + 1) = omega arith in
    rw (lt→leb_false 64 last (omega arith), word, position, one, masked)
      (ground (arith, pow-suc 2 last, add-one last, one-le-pow last 2))
