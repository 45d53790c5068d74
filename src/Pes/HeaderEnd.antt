-- ===== src/Pes/HeaderEnd.antt =====
-- src/pes.c: where the reading of a PES header ends.
use tsanalyze.Base.{
  ℕ, ◌+◌, ◌*◌, ◌≤◌, ◌<◌, bit, bits8, some, Bytes, read8, length, ◌≡◌, ap, ◌∙◌, arith,
}
use tsanalyze.Pes.Header.{Reading, NonPs, skip, flags_part}
use tsanalyze.Pes.Extension.{plain_parts, header_parts}
use tsanalyze.Pes.Steps.{Flags, flags_of, readable}
use tsanalyze.Pes.Extended.{extension_size, extension_part-off, extension_part_lem}
use tsanalyze.Pes.Plain.{announced, optional_parts-Step}

-- The optional fields' size by the standard, of the header's second byte of flags.
abbrev pub fields_size : ℕ → ℕ
fields_size b =
    5 * bit b 7
    + (5 * bit b 6 + (6 * bit b 5 + (3 * bit b 4 + (1 * bit b 3 + (1 * bit b 2 + 2 * bit b 1)))))

-- What follows the length: three bytes, of which the second and third are given.
abbrev pub start : NonPs → Reading
start d = record { packet_data = d; at = 6; head_len = 6 }

abbrev AtFlags : ℕ → ℕ → NonPs → Reading → Type 0
AtFlags b hdl d r =
    (r.packet_data.pes_extension_flag ≡ bit b 0) × (r.packet_data.pes_header_data_length ≡ hdl)

plain_parts_lem :
    (pkt : Bytes) (d : NonPs) (b hdl : ℕ)
    → read8 pkt 7 ≡ some b
    → read8 pkt 8 ≡ some hdl
    → 9 + fields_size b ≤ length pkt
    → (r : Reading) × (plain_parts pkt (start d) ≡ some r)
      × (r.at ≡ 9 + fields_size b)
      × (r.head_len ≡ 9 + fields_size b)
      × AtFlags b hdl d r
unfolding plain_parts flags_part
plain_parts_lem pkt d b hdl at7 at8 inside =
    let (a, at6) = readable pkt 6 (omega arith) in
    let r₁ : Reading = skip 3 (record (start d) {
      packet_data = record d {
        pes_scrambling_control = bits8 a 2 2;
        pes_priority = bits8 a 1 4;
        data_alignment_indicator = bits8 a 1 5;
        copyright = bits8 a 1 6;
        original_or_copy = bits8 a 1 7;
        pts_dts_flags = bits8 b 2 0;
        escr_flag = bits8 b 1 2;
        es_rate_flag = bits8 b 1 3;
        dsm_trick_mode_flag = bits8 b 1 4;
        additional_copy_info_flag = bits8 b 1 5;
        pes_crc_flag = bits8 b 1 6;
        pes_extension_flag = bits8 b 1 7;
        pes_header_data_length = hdl;
      };
    }) in
    let size : announced (flags_of r₁) ≡ fields_size b = omega arith in
    let (r, ran, at', head', same) =
      optional_parts-Step pkt r₁
        (record {
          timestamps = omega arith;
          escr = omega arith;
          es_rate = omega arith;
          trick_mode = omega arith;
          copy_info = omega arith;
          crc = omega arith;
        })
        (omega arith) in
    (
      r,
      rw (at6, at7, at8) ran,
      at' ∙ ap (λ k. 9 + k) size,
      head' ∙ ap (λ k. 9 + k) size,
      (ap (λ (g : Flags). g.extension) same, ap (λ (g : Flags). g.data_length) same),
    )

pub header_parts-plain :
    (pkt : Bytes) (d : NonPs) (b hdl : ℕ)
    → read8 pkt 7 ≡ some b
    → read8 pkt 8 ≡ some hdl
    → bit b 0 ≡ 0
    → 9 + fields_size b ≤ length pkt
    → (r : Reading) × (header_parts pkt (start d) ≡ some r)
      × (r.at ≡ r.head_len + 0)
      × (r.packet_data.pes_header_data_length ≡ hdl)
unfolding header_parts
header_parts-plain pkt d b hdl at7 at8 off inside =
    let (r, ran, at', head', flags) = plain_parts_lem pkt d b hdl at7 at8 inside in
    (r, rw ran (extension_part-off pkt r (flags.0 ∙ off)), omega (arith, at', head'), flags.1)

pub header_parts-extended :
    (pkt : Bytes) (d : NonPs) (b hdl x : ℕ)
    → read8 pkt 7 ≡ some b
    → read8 pkt 8 ≡ some hdl
    → bit b 0 ≡ 1
    → read8 pkt (9 + fields_size b) ≡ some x
    → x < 256
    → bit x 6 ≡ 0
    → bit x 0 ≡ 0
    → 9 + fields_size b + extension_size x ≤ length pkt
    → (r : Reading) × (header_parts pkt (start d) ≡ some r)
      × (r.at ≡ r.head_len + 2 * bit x 5)
      × (r.packet_data.pes_header_data_length ≡ hdl)
unfolding header_parts
header_parts-extended pkt d b hdl x at7 at8 on at_x byte no_pack no_second inside =
    let (r, ran, at', head', flags) = plain_parts_lem pkt d b hdl at7 at8 (omega arith) in
    let (r', ran', moved, kept) =
      extension_part_lem pkt r x (flags.0 ∙ on) (ap (λ i. read8 pkt i) at' ∙ at_x) byte no_pack
        no_second (omega (arith, at')) in
    (r', rw ran ran', omega (arith, at', head', moved), kept ∙ flags.1)
