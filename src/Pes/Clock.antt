-- ===== src/Pes/Clock.antt =====
-- src/pes.c: the time stamps and the clock reference of a PES header, by the standard's layout.
use tsanalyze.Base.{
  ℕ, ◌+◌, ◌*◌, ◌/◌, ◌%◌, ◌^◌, ◌<◌, bit_and, bit_or, bits8, Bytes, ◌++◌, ◌∷◌, [], some, ◌<<<◌, ◌>>>◌,
  read16, ◌≡◌, refl, ◌∙◌, arith,
}
use tsanalyze.Base.Bits.{bit_or_fields, bit_and_mask}
use tsanalyze.Pes.Header.{PtsDts, Escr, read_timestamp, read_escr}

-- The 33 bits of a time stamp behind the four bits `tag`, each part with its marker bit.
abbrev pub timestamp_bytes : ℕ → ℕ → Bytes
timestamp_bytes tag t =
    (tag * 16 + t / 2 ^ 30 * 2 + 1)
    ∷ (t / 2 ^ 22 % 256)
    ∷ (t / 2 ^ 15 % 128 * 2 + 1)
    ∷ (t / 2 ^ 7 % 256)
    ∷ (t % 128 * 2 + 1)
    ∷ []

-- A time stamp of 33 bits, laid out by the standard, is read back from its three parts, whatever
-- bytes follow.
pub read_timestamp-encode :
    (flag tag t : ℕ) (rest : Bytes)
    → tag < 16
    → t < 2 ^ 33
    → (parts : PtsDts) × (read_timestamp flag (timestamp_bytes tag t ++ rest) 0 ≡ some parts)
      × (parts.flag ≡ flag)
      × (parts.pts_dts_1 * 2 ^ 30 + parts.pts_dts_2 * 2 ^ 15 + parts.pts_dts_3 ≡ t)
unfolding read_timestamp read16
read_timestamp-encode flag tag t rest four small =
    let high = bit_or_fields 8 (t / 2 ^ 22 % 256) (t / 2 ^ 15 % 128 * 2 + 1) (omega arith) in
    let low = bit_or_fields 8 (t / 2 ^ 7 % 256) (t % 128 * 2 + 1) (omega arith) in
    (
      record {
        flag = flag;
        pts_dts_1 = bits8 (tag * 16 + t / 2 ^ 30 * 2 + 1) 3 4;
        pts_dts_2 = bit_or ((t / 2 ^ 22 % 256) <<< 8) (t / 2 ^ 15 % 128 * 2 + 1) >>> 1;
        pts_dts_3 = bit_or ((t / 2 ^ 7 % 256) <<< 8) (t % 128 * 2 + 1) >>> 1;
      },
      refl,
      refl,
      omega (arith, high, low),
    )

-- The clock reference by the standard: a base of 33 bits and an extension of 9.
abbrev pub escr_bytes : ℕ → ℕ → ℕ → Bytes
escr_bytes reserved base ext =
    (reserved * 64 + base / 2 ^ 30 * 8 + 4 + base / 2 ^ 28 % 4)
    ∷ (base / 2 ^ 20 % 256)
    ∷ (base / 2 ^ 15 % 32 * 8 + 4 + base / 2 ^ 13 % 4)
    ∷ (base / 2 ^ 5 % 256)
    ∷ (base % 32 * 8 + 4 + ext / 128)
    ∷ (ext % 128 * 2 + 1)
    ∷ []

fifteen_bits :
    (x y z : ℕ)
    → y < 256
    → z < 32
    → bit_or (bit_or (x <<< 13) (y <<< 5)) z ≡ x * 2 ^ 13 + y * 2 ^ 5 + z
fifteen_bits x y z y_byte five =
    let inner : bit_or (x <<< 13) (y <<< 5) ≡ (x * 256 + y) <<< 5 =
      bit_or_fields 13 x (y <<< 5) (omega arith) ∙ omega arith in
    rw inner (bit_or_fields 5 (x * 256 + y) z five ∙ omega arith)

-- Of a clock reference by the standard the base of 33 bits is read back. Of the extension of nine
-- bits the lower seven are read as they are, the eighth is read as the ninth, and the ninth is
-- lost, since the upper part is shifted by 8 where it has 7 bits below it.
pub read_escr-encode :
    (reserved base ext : ℕ) (rest : Bytes)
    → reserved < 4
    → base < 2 ^ 33
    → ext < 2 ^ 9
    → (parts : Escr) × (read_escr (escr_bytes reserved base ext ++ rest) 0 ≡ some parts)
      × (parts.escr_base_1 * 2 ^ 30 + parts.escr_base_2 * 2 ^ 15 + parts.escr_base_3 ≡ base)
      × (parts.escr_extension ≡ ext / 2 ^ 7 % 2 * 2 ^ 8 + ext % 2 ^ 7)
unfolding read_escr
read_escr-encode reserved base ext rest two base_small ext_small =
    let b₀ = reserved * 64 + base / 2 ^ 30 * 8 + 4 + base / 2 ^ 28 % 4 in
    let b₁ = base / 2 ^ 20 % 256 in
    let b₂ = base / 2 ^ 15 % 32 * 8 + 4 + base / 2 ^ 13 % 4 in
    let b₃ = base / 2 ^ 5 % 256 in
    let b₄ = base % 32 * 8 + 4 + ext / 128 in
    let b₅ = ext % 128 * 2 + 1 in
    let first : bit_and (b₀ >>> 3) 7 ≡ base / 2 ^ 30 = omega (arith, bit_and_mask 3 (b₀ >>> 3)) in
    let high = fifteen_bits (bit_and b₀ 3) b₁ (b₂ >>> 3) (omega arith) (omega arith) in
    let low = fifteen_bits (bit_and b₂ 3) b₃ (b₄ >>> 3) (omega arith) (omega arith) in
    let upper = bit_or_fields 8 (bit_and b₄ 3) (b₅ >>> 1) (omega arith) in
    (
      record {
        escr_base_1 = bit_and (b₀ >>> 3) 7;
        escr_base_2 = bit_or (bit_or (bit_and b₀ 3 <<< 13) (b₁ <<< 5)) (b₂ >>> 3) % 2 ^ 15;
        escr_base_3 = bit_or (bit_or (bit_and b₂ 3 <<< 13) (b₃ <<< 5)) (b₄ >>> 3) % 2 ^ 15;
        escr_extension = bit_or (bit_and b₄ 3 <<< 8) (b₅ >>> 1) % 2 ^ 9;
      },
      refl,
      omega (arith, first, high, low, bit_and_mask 2 b₀, bit_and_mask 2 b₂),
      omega (arith, upper, bit_and_mask 2 b₄),
    )
