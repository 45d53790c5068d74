-- ===== src/Bitmap/Laws.antt =====
-- src/utils.c: reading back what was set or cleared in a bitmap.
use tsanalyze.Base.{ℕ, ◌*◌, ◌/◌, ◌%◌, ◌^◌, ◌!=◌, ◌==◌, if◌then◌else◌, bit_and, bit_or, bit, ◌<◌}
use tsanalyze.Base.{
  true, false, some, get_or, set, length, replicate, length-replicate, get_or-replicate,
}
use tsanalyze.Base.{
  ◌≡◌, refl, ◌∙◌, ap, arith, get_elem?-eq-get_or, length-set, get_or-set_self, get_or-set_ne,
}
use tsanalyze.Base.Bits.{
  bit_and-two-pow, bit-bit_or, bit-bit_and, bit-two-pow_self, bit-two-pow_ne, bit-complement,
  bit-lt, bit-of_zero,
}
use native.Mathlib.Nat.{one-le-pow, pow-le-pow_right}
use native.Mathlib.Decide.{ℕ_discrete}
use tsanalyze.Bitmap.{Bitmap, bit_mask, complement64, bitmap64_get, bitmap64_set, bitmap64_clear}

-- The bit of a word that a test looks at.
pub test_bit : (word k : ℕ) → (bit_and word (1 * 2 ^ k) != 0) ≡ (bit word k == 1)
test_bit word k =
    let e : bit_and word (1 * 2 ^ k) ≡ bit word k * 2 ^ k =
      ap (λ m. bit_and word m) (omega arith) ∙ bit_and-two-pow k word in
    let positive = one-le-pow k 2 (omega arith) in
    elim (ℕ_discrete (bit word k) 1) [
      | yes on ↦ rw (e, on) (ground arith)
      | no off ↦
          let zero_bit : bit word k ≡ 0 = omega (arith, bit-lt word k) in
          rw (e, zero_bit) (ground arith)
    ]

one_mask : (i : ℕ) → bit_mask i ≡ 2 ^ (i % 64)
one_mask i = omega arith

-- The bit that `|` sets and the bit that `& ~` clears.
bit-set :
    (word i k : ℕ) → bit (bit_or word (bit_mask i)) k ≡ (if i % 64 == k then 1 else bit word k)
bit-set word i k = elim (ℕ_discrete (i % 64) k) [
  | yes same ↦ rw one_mask (
      rw (← same) (
        ground (
          arith,
          bit-bit_or word (2 ^ (i % 64)) (i % 64),
          bit-two-pow_self (i % 64),
          bit-lt word (i % 64),
        )))
  | no other ↦
      rw one_mask
        (ground (arith, bit-bit_or word (2 ^ (i % 64)) k, bit-two-pow_ne (i % 64) k other))
]

-- What `bitmap64_get` reads, for a bit inside the array.
pub bitmap64_get_lem :
    (bitmap : Bitmap) (i : ℕ)
    → i / 64 < length bitmap
    → bitmap64_get bitmap i ≡ some (bit (get_or bitmap (i / 64) 0) (i % 64) == 1)
unfolding bitmap64_get
bitmap64_get_lem bitmap i inside =
    rw (get_elem?-eq-get_or bitmap (i / 64) 0 inside, test_bit (get_or bitmap (i / 64) 0) (i % 64))

bit-clear :
    (word i k : ℕ)
    → k < 64
    → bit (bit_and word (complement64 (bit_mask i))) k ≡ (if i % 64 == k then 0 else bit word k)
bit-clear word i k small =
    let fits : 2 ^ (i % 64) < 2 ^ 64 =
      omega (arith, pow-le-pow_right {n = 2} (omega arith) {i = i % 64} {j = 63} (omega arith)) in
    let flipped = bit-complement 64 (2 ^ (i % 64)) k fits small in
    rw one_mask (elim (ℕ_discrete (i % 64) k) [
      | yes same ↦ rw (← same) (
          ground (
            arith,
            bit-bit_and word (complement64 (2 ^ (i % 64))) (i % 64),
            bit-complement 64 (2 ^ (i % 64)) (i % 64) fits (rw same small),
            bit-two-pow_self (i % 64),
          ))
      | no other ↦ ground (
        arith,
        bit-bit_and word (complement64 (2 ^ (i % 64))) k,
        flipped,
        bit-two-pow_ne (i % 64) k other,
        bit-lt word k,
      )
    ])

-- One bit of one word is written: what a read of bit `j` then gives.
get-write :
    (bitmap : Bitmap) (i j v word : ℕ)
    → i / 64 < length bitmap
    → j / 64 < length bitmap
    → ((k : ℕ)
        → k < 64
        → bit word k ≡ (if i % 64 == k then v else bit (get_or bitmap (i / 64) 0) k))
    → bitmap64_get (set bitmap (i / 64) word) j
      ≡ (if i == j then some (v == 1) else bitmap64_get bitmap j)
get-write bitmap i j v word at_i at_j written =
    bitmap64_get_lem (set bitmap (i / 64) word) j (rw length-set at_j)
    ∙ elim (ℕ_discrete (i / 64) (j / 64)) [
      | yes same ↦ ground (
        arith,
        same,
        ap (λ k. get_or (set bitmap (i / 64) word) k 0) same,
        ap (λ k. get_or bitmap k 0) same,
        get_or-set_self bitmap (i / 64) word 0 at_i,
        written (j % 64),
        bitmap64_get_lem bitmap j at_j,
      )
      | no other ↦ ground (
        arith,
        get_or-set_ne bitmap (i / 64) (j / 64) word 0 other,
        bitmap64_get_lem bitmap j at_j,
      )
    ]

-- After `bitmap64_set` the bit reads as set and every other bit as before; the array keeps its
-- length.
pub get-set :
    (bitmap : Bitmap) (i j : ℕ)
    → i / 64 < length bitmap
    → j / 64 < length bitmap
    → (bitmap' : Bitmap) × (bitmap64_set bitmap i ≡ some bitmap')
      × (length bitmap' ≡ length bitmap)
      × (bitmap64_get bitmap' j ≡ (if i == j then some true else bitmap64_get bitmap j))
unfolding bitmap64_set
get-set bitmap i j at_i at_j =
    let word = bit_or (get_or bitmap (i / 64) 0) (bit_mask i) in
    (
      set bitmap (i / 64) word,
      rw (get_elem?-eq-get_or bitmap (i / 64) 0 at_i),
      length-set bitmap (i / 64) word,
      get-write bitmap i j 1 word at_i at_j (λ k h. bit-set (get_or bitmap (i / 64) 0) i k),
    )

-- After `bitmap64_clear` the bit reads as clear and every other bit as before; the array keeps its
-- length.
pub get-clear :
    (bitmap : Bitmap) (i j : ℕ)
    → i / 64 < length bitmap
    → j / 64 < length bitmap
    → (bitmap' : Bitmap) × (bitmap64_clear bitmap i ≡ some bitmap')
      × (length bitmap' ≡ length bitmap)
      × (bitmap64_get bitmap' j ≡ (if i == j then some false else bitmap64_get bitmap j))
unfolding bitmap64_clear
get-clear bitmap i j at_i at_j =
    let word = bit_and (get_or bitmap (i / 64) 0) (complement64 (bit_mask i)) in
    (
      set bitmap (i / 64) word,
      rw (get_elem?-eq-get_or bitmap (i / 64) 0 at_i),
      length-set bitmap (i / 64) word,
      get-write bitmap i j 0 word at_i at_j (λ k h. bit-clear (get_or bitmap (i / 64) 0) i k h),
    )

-- What `bitmap64_get` reads once a bit is set.
pub bitmap64_get-set :
    (bitmap bitmap' : Bitmap) (i j : ℕ)
    → i / 64 < length bitmap
    → j / 64 < length bitmap
    → bitmap64_set bitmap i ≡ some bitmap'
    → bitmap64_get bitmap' j ≡ (if i == j then some true else bitmap64_get bitmap j)
bitmap64_get-set bitmap bitmap' i j at_i at_j ran =
    let (found, ran', _, reads) = get-set bitmap i j at_i at_j in cc (ran, ran', reads)

-- And once it is cleared.
pub bitmap64_get-clear :
    (bitmap bitmap' : Bitmap) (i j : ℕ)
    → i / 64 < length bitmap
    → j / 64 < length bitmap
    → bitmap64_clear bitmap i ≡ some bitmap'
    → bitmap64_get bitmap' j ≡ (if i == j then some false else bitmap64_get bitmap j)
bitmap64_get-clear bitmap bitmap' i j at_i at_j ran =
    let (found, ran', _, reads) = get-clear bitmap i j at_i at_j in cc (ran, ran', reads)

-- A bitmap of zeros has no bit set.
pub get-replicate : (n i : ℕ) → i / 64 < n → bitmap64_get (replicate n 0) i ≡ some false
get-replicate n i inside =
    let blank : bit (get_or (replicate n 0) (i / 64) 0) (i % 64) ≡ 0 =
      ap (λ w. bit w (i % 64)) (get_or-replicate n (i / 64) 0) ∙ bit-of_zero (i % 64) in
    bitmap64_get_lem (replicate n 0) i (omega (arith, length-replicate {A = ℕ} n 0)) ∙ rw blank refl
