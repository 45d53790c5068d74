-- ===== src/Pes/Fields.antt =====
-- src/pes.c: how far each optional field of a PES header moves the pointer.
use tsanalyze.Base.{
  ℕ, ◌+◌, ◌*◌, ◌%◌, ◌^◌, ◌==◌, ◌!=◌, ◌≤◌, ◌<◌, bit_and, bit_or, bit, bits8, ◌<<<◌, ◌>>>◌, some,
  Bytes, length, ◌≡◌, refl, arith,
}
use tsanalyze.Base.Bits.{bit_and-two-pow, bit_and_mask}
use tsanalyze.Pes.Header.{
  Reading, PtsDts, Escr, DsmTrickMode, skip, read_timestamp, read_escr, pts_part, dts_part,
  escr_part, es_rate_part, trick_mode_part, copy_info_part, crc_part,
}
use tsanalyze.Pes.Steps.{Step, Moved-if, readable, readable16}

readable_timestamp :
    (flag : ℕ) (pkt : Bytes) (at : ℕ)
    → at + 5 ≤ length pkt
    → (t : PtsDts) × (read_timestamp flag pkt at ≡ some t)
unfolding read_timestamp
readable_timestamp flag pkt at inside =
    let (a, at_a) = readable pkt at (omega arith) in
    let (b, at_b) = readable16 pkt (at + 1) (omega arith) in
    let (c, at_c) = readable16 pkt (at + 3) (omega arith) in
    (
      record { flag = flag; pts_dts_1 = bits8 a 3 4; pts_dts_2 = b >>> 1; pts_dts_3 = c >>> 1 },
      rw (at_a, at_b, at_c) refl,
    )

readable_escr :
    (pkt : Bytes) (at : ℕ) → at + 6 ≤ length pkt → (t : Escr) × (read_escr pkt at ≡ some t)
unfolding read_escr
readable_escr pkt at inside =
    let (b₀, at₀) = readable pkt at (omega arith) in
    let (b₁, at₁) = readable pkt (at + 1) (omega arith) in
    let (b₂, at₂) = readable pkt (at + 2) (omega arith) in
    let (b₃, at₃) = readable pkt (at + 3) (omega arith) in
    let (b₄, at₄) = readable pkt (at + 4) (omega arith) in
    let (b₅, at₅) = readable pkt (at + 5) (omega arith) in
    (
      record {
        escr_base_1 = bit_and (b₀ >>> 3) 7;
        escr_base_2 = bit_or (bit_or (bit_and b₀ 3 <<< 13) (b₁ <<< 5)) (b₂ >>> 3) % 2 ^ 15;
        escr_base_3 = bit_or (bit_or (bit_and b₂ 3 <<< 13) (b₃ <<< 5)) (b₄ >>> 3) % 2 ^ 15;
        escr_extension = bit_or (bit_and b₄ 3 <<< 8) (b₅ >>> 1) % 2 ^ 9;
      },
      rw (at₀, at₁, at₂, at₃, at₄, at₅) refl,
    )

pub pts_part-Step :
    (pkt : Bytes) (r : Reading)
    → r.packet_data.pts_dts_flags < 4
    → r.at + 5 * bit r.packet_data.pts_dts_flags 1 ≤ length pkt
    → Step (5 * bit r.packet_data.pts_dts_flags 1) r (pts_part pkt r)
unfolding pts_part
pts_part-Step pkt r small inside =
    let flags = r.packet_data.pts_dts_flags in
    let tested : (bit_and flags 2 == 2) ≡ (bit flags 1 != 0) =
      ground (arith, bit_and-two-pow 1 flags) in
    rw tested (
      Moved-if (bit flags 1) 5 5 r _ (omega arith) (λ on.
        let (t, ran) = readable_timestamp 2 pkt r.at (omega arith) in
        (
          skip 5 (record r { packet_data = record r.packet_data { pts = t } }),
          rw ran refl,
          refl,
          refl,
          refl,
        )))

pub dts_part-Step :
    (pkt : Bytes) (r : Reading)
    → r.at + 5 * bit r.packet_data.pts_dts_flags 0 ≤ length pkt
    → Step (5 * bit r.packet_data.pts_dts_flags 0) r (dts_part pkt r)
unfolding dts_part
dts_part-Step pkt r inside =
    let flags = r.packet_data.pts_dts_flags in
    let tested : (bit_and flags 1 == 1) ≡ (bit flags 0 != 0) =
      ground (arith, bit_and_mask 1 flags) in
    rw tested (
      Moved-if (bit flags 0) 5 5 r _ (omega arith) (λ on.
        let (t, ran) = readable_timestamp 3 pkt r.at (omega arith) in
        (
          skip 5 (record r { packet_data = record r.packet_data { dts = t } }),
          rw ran refl,
          refl,
          refl,
          refl,
        )))

pub escr_part-Step :
    (pkt : Bytes) (r : Reading)
    → r.packet_data.escr_flag < 2
    → r.at + 6 * r.packet_data.escr_flag ≤ length pkt
    → Step (6 * r.packet_data.escr_flag) r (escr_part pkt r)
unfolding escr_part
escr_part-Step pkt r small inside = Moved-if r.packet_data.escr_flag 6 6 r _ small (λ on.
    let (t, ran) = readable_escr pkt r.at (omega (arith, on)) in
    (
      skip 6 (record r { packet_data = record r.packet_data { escr = t } }),
      rw ran refl,
      refl,
      refl,
      refl,
    ))

pub es_rate_part-Step :
    (pkt : Bytes) (r : Reading)
    → r.packet_data.es_rate_flag < 2
    → r.at + 3 * r.packet_data.es_rate_flag ≤ length pkt
    → Step (3 * r.packet_data.es_rate_flag) r (es_rate_part pkt r)
unfolding es_rate_part
es_rate_part-Step pkt r small inside = Moved-if r.packet_data.es_rate_flag 3 3 r _ small (λ on.
    let (a, at_a) = readable pkt r.at (omega (arith, on)) in
    let (b, at_b) = readable pkt (r.at + 1) (omega (arith, on)) in
    let (c, at_c) = readable pkt (r.at + 2) (omega (arith, on)) in
    let rate = bit_and (bit_or (bit_or (a <<< 15) (b <<< 7)) (c >>> 1)) 0x3FFFFF in
    (
      skip 3 (record r { packet_data = record r.packet_data { es_rate = rate } }),
      rw (at_a, at_b, at_c) refl,
      refl,
      refl,
      refl,
    ))

pub trick_mode_part-Step :
    (pkt : Bytes) (r : Reading)
    → r.packet_data.dsm_trick_mode_flag < 2
    → r.at + 1 * r.packet_data.dsm_trick_mode_flag ≤ length pkt
    → Step (1 * r.packet_data.dsm_trick_mode_flag) r (trick_mode_part pkt r)
unfolding trick_mode_part
trick_mode_part-Step pkt r small inside =
    Moved-if r.packet_data.dsm_trick_mode_flag 1 1 r _ small (λ on.
      let (a, at_a) = readable pkt r.at (omega (arith, on)) in
      let mode : DsmTrickMode = record {
        dsm_trick_mode_control = a >>> 5;
        rep_cntrl = bit_and a 0x1F;
      } in
      (
        skip 1 (record r { packet_data = record r.packet_data { trick_mode = mode } }),
        rw at_a refl,
        refl,
        refl,
        refl,
      ))

pub copy_info_part-Step :
    (pkt : Bytes) (r : Reading)
    → r.packet_data.additional_copy_info_flag < 2
    → r.at + 1 * r.packet_data.additional_copy_info_flag ≤ length pkt
    → Step (1 * r.packet_data.additional_copy_info_flag) r (copy_info_part pkt r)
unfolding copy_info_part
copy_info_part-Step pkt r small inside =
    Moved-if r.packet_data.additional_copy_info_flag 1 1 r _ small (λ on.
      let (a, at_a) = readable pkt r.at (omega (arith, on)) in
      (
        skip 1 (record r {
          packet_data = record r.packet_data { additional_copy_info = bits8 a 7 1 };
        }),
        rw at_a refl,
        refl,
        refl,
        refl,
      ))

pub crc_part-Step :
    (pkt : Bytes) (r : Reading)
    → r.packet_data.pes_crc_flag < 2
    → r.at + 2 * r.packet_data.pes_crc_flag ≤ length pkt
    → Step (2 * r.packet_data.pes_crc_flag) r (crc_part pkt r)
unfolding crc_part
crc_part-Step pkt r small inside = Moved-if r.packet_data.pes_crc_flag 2 2 r _ small (λ on.
    let (crc, at_crc) = readable16 pkt r.at (omega (arith, on)) in
    (
      skip 2 (record r { packet_data = record r.packet_data { previous_pes_packet_crc = crc } }),
      rw at_crc refl,
      refl,
      refl,
      refl,
    ))
