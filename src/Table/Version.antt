-- ===== src/Table/Version.antt =====
-- src/table.c: the version of a section against that of its table.
use tsanalyze.Base.{
  ℕ, ◌+◌, ◌*◌, ◌/◌, ◌%◌, ◌^◌, ◌≤◌, ◌<◌, ◌==◌, ◌!=◌, ltb, if◌then◌else◌, ◌||◌, ◌&&◌, bit_and, bit,
  Option, none, some, ◌>>=◌, Bytes, ◌∷◌, read8, ◌>>>◌,
}
use tsanalyze.Base.{◌≡◌, refl, arith}
use tsanalyze.Base.Bits.{bit_and_mask}

-- The results -1, 0, 1 and 2.
pub data VersionCheck : Type 0 where
  null_pointer go_on newer older : VersionCheck

abbrev pub compare_version : ℕ → ℕ → VersionCheck
compare_version cur_version version =
    if cur_version == version
    then go_on
    else if ltb cur_version version || (cur_version == 0x1F && version != 0x1F)
    then newer
    else older

-- `none` for the buffer is the null pointer. The version is the five bits behind the first one.
unfoldable pub check_section_header_version : Option Bytes → ℕ → Option VersionCheck
check_section_header_version none cur_version = some null_pointer
check_section_header_version (some pbuf) cur_version = do
  flags ← read8 pbuf 1
  if bit flags 7 == 0 then some go_on else do
    control ← read8 pbuf 5
    some (compare_version cur_version (bit_and (control >>> 2) 31))

-- Of a section header by the standard, whose sixth byte is two reserved bits, five of the version
-- and the current/next indicator, `check_section_header_version` takes for the version the lower
-- reserved bit with the upper four bits of the version: the last bit of the version is lost.
pub version-encode :
    (b₀ b₁ b₂ b₃ b₄ reserved version current cur_version : ℕ) (rest : Bytes)
    → 128 ≤ b₁
    → b₁ < 256
    → reserved < 4
    → version < 32
    → current < 2
    → check_section_header_version
        (some (b₀ ∷ b₁ ∷ b₂ ∷ b₃ ∷ b₄ ∷ (reserved * 64 + version * 2 + current) ∷ rest))
        cur_version
      ≡ some (compare_version cur_version (reserved % 2 * 16 + version / 2))
unfolding check_section_header_version
version-encode b₀ b₁ b₂ b₃ b₄ reserved version current cur_version rest syntax byte two five one =
    let control = reserved * 64 + version * 2 + current in
    let flagged : bit b₁ 7 ≡ 1 = omega arith in
    let read : bit_and (control / 2 ^ 2) 31 ≡ reserved % 2 * 16 + version / 2 =
      omega (arith, bit_and_mask 5 (control / 2 ^ 2)) in
    rw (flagged, read) refl
