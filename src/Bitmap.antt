-- ===== src/Bitmap.antt =====
-- src/utils.c: bitmaps in words of 64 bits. `none` is an access past the array.
pub mod Laws
pub mod Full
mod Tests
use tsanalyze.Base.{
  ℕ, zero, suc, ◌+◌, ◌-◌, ◌/◌, ◌%◌, ◌^◌, ◌!=◌, ◌==◌, leb, if◌then◌else◌, bit_and, bit_or,
}
use tsanalyze.Base.{Bool, true, false, Option, none, some, ◌>>=◌, List, get_elem?, set, ◌<<<◌, u64}

abbrev pub Bitmap : Type 0
Bitmap = List ℕ

-- `(uint64_t)1 << (bit % 64)`
abbrev pub bit_mask : ℕ → ℕ
bit_mask i = 1 <<< (i % 64)

-- `~x` on a `uint64_t`.
abbrev pub complement64 : ℕ → ℕ
complement64 x = 2 ^ 64 - 1 - x

unfoldable pub bitmap64_get : Bitmap → ℕ → Option Bool
bitmap64_get bitmap i = do word ← get_elem? bitmap (i / 64); some (bit_and word (bit_mask i) != 0)

unfoldable pub bitmap64_set : Bitmap → ℕ → Option Bitmap
bitmap64_set bitmap i = do
  word ← get_elem? bitmap (i / 64)
  some (set bitmap (i / 64) (bit_or word (bit_mask i)))

unfoldable pub bitmap64_clear : Bitmap → ℕ → Option Bitmap
bitmap64_clear bitmap i = do
  word ← get_elem? bitmap (i / 64)
  some (set bitmap (i / 64) (bit_and word (complement64 (bit_mask i))))

-- The loop over the whole words, from word `i` with `left` to go.
all_ones : ℕ → ℕ → Bitmap → Option Bool
all_ones zero i bitmap = some true
all_ones (suc left) i bitmap =
    let rest = all_ones left (i + 1) bitmap in
    do word ← get_elem? bitmap i; if word == 2 ^ 64 - 1 then rest else some false

-- Whether `bitmap64_full` returns 0. The word that it tests last is `bitmap[last % 64]`.
unfoldable pub bitmap64_full : Bitmap → ℕ → Option Bool
unfolding all_ones
bitmap64_full bitmap last =
    let mask = (1 <<< ((last + 1) % 64)) - 1 in
    do
      words ← (if leb 64 last then all_ones (last / 64) 0 bitmap else some true)
      if words
          then (do word ← get_elem? bitmap (last % 64); some (bit_and word mask == mask))
          else some false
