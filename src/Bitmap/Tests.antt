-- ===== src/Bitmap/Tests.antt =====
-- src/utils.c: runs of the bitmap operations, and the theorems at concrete bitmaps.
use tsanalyze.Base.{false, some, [], ◌∷◌}
use tsanalyze.Base.{◌≡◌, refl}
use tsanalyze.Bitmap.{Bitmap, bitmap64_set, bitmap64_full}

-- `uint64_t section_bitmap[4]` with sections 0 and 1.
abbrev two_sections : Bitmap
two_sections = 3 ∷ 0 ∷ 0 ∷ 0 ∷ []

abbrev one_section : Bitmap
one_section = 1 ∷ 0 ∷ 0 ∷ 0 ∷ []

set_run : bitmap64_set one_section 65 ≡ some (1 ∷ 2 ∷ 0 ∷ 0 ∷ [])
unfolding bitmap64_set
set_run = refl

-- Both sections of two came.
full_run : bitmap64_full two_sections 1 ≡ some false
unfolding bitmap64_full
full_run = refl
