-- ===== src/Pes/Extension.antt =====
-- src/pes.c: the extension of a PES header, and the header as a whole.
use tsanalyze.Base.{
  ℕ, ◌+◌, ◌!=◌, if◌then◌else◌, bit_and, bit_or, bit, Option, none, some, ◌>>=◌, Bytes, read8, take,
  drop, leb, length, ◌<<<◌, ◌>>>◌,
}
use tsanalyze.Pes.Header.{
  Reading, PesExtension, Ppsc, PstdBuffer, skip, flags_part, pts_part, dts_part, escr_part,
  es_rate_part, trick_mode_part, copy_info_part, crc_part,
}

-- The reading with another extension.
abbrev pub with_extension : PesExtension → Reading → Reading
with_extension e r = record r { packet_data = record r.packet_data { extension = e } }

unfoldable pub private_data_part : Bytes → Reading → Option Reading
private_data_part pkt r =
    let e = r.packet_data.extension in
    if e.pes_private_data_flag != 0
    then if leb (r.at + 16) (length pkt)
      then some
          (skip 16 (with_extension (record e { pes_private_data = take 16 (drop r.at pkt) }) r))
      else none
    else some r

unfoldable pub pack_header_part : Bytes → Reading → Option Reading
pack_header_part pkt r =
    let e = r.packet_data.extension in
    if e.pack_header_field_flag != 0
    then (do
      n ← read8 pkt r.at
      some (skip (1 + n) (with_extension (record e { pack_head_length = n }) r)))
    else some r

-- The pointer goes on by two bytes, `head_len` does not.
unfoldable pub sequence_counter_part : Bytes → Reading → Option Reading
sequence_counter_part pkt r =
    let e = r.packet_data.extension in
    if e.program_packet_sequence_counter_flag != 0
    then (do
      a ← read8 pkt r.at
      b ← read8 pkt (r.at + 1)
      let counter : Ppsc = record {
        program_packet_sequence_counter = bit_and a 0x7F;
        mpeg1_mpeg2_identifier = bit b 6;
        original_stuff_length = bit_and b 0x3F;
      }
      some (record (with_extension (record e { ppsc = counter }) r) { at = r.at + 2 }))
    else some r

unfoldable pub std_buffer_part : Bytes → Reading → Option Reading
std_buffer_part pkt r =
    let e = r.packet_data.extension in
    if e.p_std_buffer_flag != 0
    then (do
      a ← read8 pkt r.at
      b ← read8 pkt (r.at + 1)
      let buffer : PstdBuffer = record {
        pstd_buffer_scale = bit a 5;
        pstd_buffer_size = bit_or (bit_and a 0x1F <<< 8) b;
      }
      some (skip 2 (with_extension (record e { pstd_buffer = buffer }) r)))
    else some r

unfoldable pub extension_field_part : Bytes → Reading → Option Reading
extension_field_part pkt r =
    let e = r.packet_data.extension in
    if e.pes_extension_flag_2 != 0
    then (do
      a ← read8 pkt r.at
      let n = bit_and a 0x7F
      some (skip (1 + n) (with_extension (record e { pes_extension_field_length = n }) r)))
    else some r

unfoldable pub extension_flags : ℕ → PesExtension → PesExtension
extension_flags a e = record e {
  pes_private_data_flag = a >>> 7;
  pack_header_field_flag = bit a 6;
  program_packet_sequence_counter_flag = bit a 5;
  p_std_buffer_flag = bit a 4;
  pes_extension_flag_2 = bit a 0;
}

unfoldable pub extension_part : Bytes → Reading → Option Reading
extension_part pkt r =
    if r.packet_data.pes_extension_flag != 0
    then (do
      a ← read8 pkt r.at
      r₁ ←
          private_data_part pkt
            (skip 1 (with_extension (extension_flags a r.packet_data.extension) r))
      r₂ ← pack_header_part pkt r₁
      r₃ ← sequence_counter_part pkt r₂
      r₄ ← std_buffer_part pkt r₃
      extension_field_part pkt r₄)
    else some r

-- All that the header's flags announce, without the extension.
unfoldable pub plain_parts : Bytes → Reading → Option Reading
plain_parts pkt r = do
  r₁ ← flags_part pkt r
  r₂ ← pts_part pkt r₁
  r₃ ← dts_part pkt r₂
  r₄ ← escr_part pkt r₃
  r₅ ← es_rate_part pkt r₄
  r₆ ← trick_mode_part pkt r₅
  r₇ ← copy_info_part pkt r₆
  crc_part pkt r₇

unfoldable pub header_parts : Bytes → Reading → Option Reading
header_parts pkt r = do r' ← plain_parts pkt r; extension_part pkt r'
