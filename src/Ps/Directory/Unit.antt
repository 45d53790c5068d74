-- ===== src/Ps/Directory/Unit.antt =====
-- src/ps.c: what `parse_directory_PES_packet` reads of an access unit by the standard.
use tsanalyze.Base.{
  ℕ, ◌+◌, ◌*◌, ◌/◌, ◌%◌, ◌^◌, ◌<◌, ◌>>>◌, bit, bits8, some, [], ◌∷◌, ◌++◌, Bytes, read8, read16,
  ◌≡◌, refl, ap, ◌∙◌, arith,
}
use tsanalyze.Ps.Directory.{Marked, AccessUnit, unit_of_fields, low_field, read_unit}
use tsanalyze.Ps.Map.Whole.{word16, word16_lem}

-- An access unit by the standard: the offset of 44 bits with its sign, the PTS of 33 bits and the
-- size of 23 bits, by the fields that they are cut into. The marker bits are ones.
pub record Access : Type 0 where
  pub stream_id : ℕ
  pub sign : ℕ
  pub offset1 : ℕ
  pub offset2 : ℕ
  pub offset3 : ℕ
  pub reference_offset : ℕ
  pub reserved : ℕ
  pub pts1 : ℕ
  pub pts2 : ℕ
  pub pts3 : ℕ
  pub bytes1 : ℕ
  pub bytes2 : ℕ
  pub intra : ℕ
  pub coding : ℕ
  pub reserved1 : ℕ

abbrev pub encode_access : Access → Bytes
encode_access a =
    a.stream_id
    ∷ (word16 (a.sign * 2 ^ 15 + a.offset1 * 2 + 1)
        ++ (word16 (a.offset2 * 2 + 1)
            ++ (word16 (a.offset3 * 2 + 1)
                ++ (word16 a.reference_offset
                    ++ ((128 + a.reserved * 16 + a.pts1 * 2 + 1)
                        ∷ (word16 (a.pts2 * 2 + 1)
                            ++ (word16 (a.pts3 * 2 + 1)
                                ++ (word16 (a.bytes1 * 2 + 1)
                                    ++ (a.bytes2
                                        ∷ (128 + a.intra * 64 + a.coding * 16 + a.reserved1)
                                        ∷ [])))))))))

pub record IsAccess (a : Access) : Type 0 where
  pub sign_bit : a.sign < 2
  pub offset_bits : a.offset1 < 2 ^ 14
  pub reserved_bits : a.reserved < 8
  pub pts_bits : a.pts1 < 8
  pub intra_bit : a.intra < 2
  pub coding_bits : a.coding < 4
  pub reserved1_bits : a.reserved1 < 16

-- The fields of fifteen bits as they are read: without the first bit, and with the marker.
abbrev pub shifted : ℕ → Marked
shifted v = record { value = (v * 2 + 1) % 2 ^ 15; marker_bit = 1 }

abbrev pub unit_of : Access → AccessUnit
unit_of a = record {
  packet_stream_id = a.stream_id;
  offset_sign = a.sign;
  offset1 = record { value = a.offset1; marker_bit = 1 };
  offset2 = shifted a.offset2;
  offset3 = shifted a.offset3;
  reference_offset = a.reference_offset;
  marker_bit4 = 1;
  pts1 = record { value = (a.reserved * 2 + a.pts1 / 4) % 8; marker_bit = 1 };
  pts2 = shifted a.pts2;
  pts3 = shifted a.pts3;
  bytes_to_read1 = shifted a.bytes1;
  bytes_to_read2 = a.bytes2;
  marker_bit9 = 1;
  intra_coded_indicator = a.intra;
  coding_parameters_indicator = a.coding;
}

marker_lem : (v : ℕ) → bit (v * 2 + 1) 0 ≡ 1
marker_lem v = omega arith

read_unit_lem :
    (buf : Bytes) (id o₁ o₂ o₃ reference p₁ p₂ p₃ b₁ b₂ flags : ℕ)
    → read8 buf 0 ≡ some id
    → read16 buf 1 ≡ some o₁
    → read16 buf 3 ≡ some o₂
    → read16 buf 5 ≡ some o₃
    → read16 buf 7 ≡ some reference
    → read8 buf 9 ≡ some p₁
    → read16 buf 10 ≡ some p₂
    → read16 buf 12 ≡ some p₃
    → read16 buf 14 ≡ some b₁
    → read8 buf 16 ≡ some b₂
    → read8 buf 17 ≡ some flags
    → read_unit buf
      ≡ some (
          unit_of_fields id o₁
            (low_field o₂)
            (low_field o₃)
            reference
            p₁
            (low_field p₂)
            (low_field p₃)
            (low_field b₁)
            b₂
            flags)
unfolding read_unit
read_unit_lem buf id o₁ o₂ o₃ reference p₁ p₂ p₃ b₁ b₂ flags r0 r1 r3 r5 r7 r9 r10 r12 r14 r16 r17 =
    rw (r0, r1, r3, r5, r7, r9, r10, r12, r14, r16, r17) refl

-- Of an access unit by the standard, the sign, the first part of the offset, the reference and the
-- last three fields are read as they are; the five fields of fifteen bits lose their first bit and
-- take in their marker, and the three bits of PTS are two of the reserved and the first of their
-- own.
pub read_unit-encode :
    (a : Access) (rest : Bytes)
    → IsAccess a
    → read_unit (encode_access a ++ rest) ≡ some (unit_of a)
unfolding read16
read_unit-encode a rest ok =
    let o = a.sign * 2 ^ 15 + a.offset1 * 2 + 1 in
    let p = 128 + a.reserved * 16 + a.pts1 * 2 + 1 in
    let flags = 128 + a.intra * 64 + a.coding * 16 + a.reserved1 in
    let sign : bit o 15 ≡ a.sign = omega (arith, ok.sign_bit, ok.offset_bits) in
    let offset : (o >>> 1) % 2 ^ 14 ≡ a.offset1 = omega (arith, ok.sign_bit, ok.offset_bits) in
    let offset_marker : bit o 0 ≡ 1 = omega arith in
    let first : bit p 7 ≡ 1 = omega (arith, ok.reserved_bits, ok.pts_bits) in
    let pts : bits8 p 4 1 % 2 ^ 3 ≡ (a.reserved * 2 + a.pts1 / 4) % 8 =
      omega (arith, ok.reserved_bits, ok.pts_bits) in
    let pts_marker : bit p 0 ≡ 1 = omega arith in
    let last : bit flags 7 ≡ 1 = omega (arith, ok.intra_bit, ok.coding_bits, ok.reserved1_bits) in
    let intra : bit flags 6 ≡ a.intra =
      omega (arith, ok.intra_bit, ok.coding_bits, ok.reserved1_bits) in
    let coding : bits8 flags 2 2 ≡ a.coding =
      omega (arith, ok.intra_bit, ok.coding_bits, ok.reserved1_bits) in
    read_unit_lem (encode_access a ++ rest) a.stream_id o (a.offset2 * 2 + 1) (a.offset3 * 2 + 1)
      a.reference_offset p (a.pts2 * 2 + 1) (a.pts3 * 2 + 1) (a.bytes1 * 2 + 1) a.bytes2 flags refl
      (ap some (word16_lem o)) (ap some (word16_lem (a.offset2 * 2 + 1)))
      (ap some (word16_lem (a.offset3 * 2 + 1))) (ap some (word16_lem a.reference_offset)) refl
      (ap some (word16_lem (a.pts2 * 2 + 1))) (ap some (word16_lem (a.pts3 * 2 + 1)))
      (ap some (word16_lem (a.bytes1 * 2 + 1))) refl refl
    ∙ rw
        (
          sign,
          offset,
          offset_marker,
          first,
          pts,
          pts_marker,
          last,
          intra,
          coding,
          marker_lem a.offset2,
          marker_lem a.offset3,
          marker_lem a.pts2,
          marker_lem a.pts3,
          marker_lem a.bytes1,
        )
        refl
