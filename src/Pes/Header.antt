-- ===== src/Pes/Header.antt =====
-- src/pes.c and include/pes.h: the header of a PES packet, field by field.
use tsanalyze.Base.{
  ℕ, ◌+◌, ◌%◌, ◌^◌, ◌==◌, ◌!=◌, if◌then◌else◌, bit_and, bit_or, bits8, Option, some, ◌>>=◌, Bytes,
  read8, read16, ◌<<<◌, ◌>>>◌,
}

-- `PTS_DTS`, without the marker bits, which are never used; so in the records that follow.
pub record PtsDts : Type 0 where
  pub flag : ℕ
  pub pts_dts_1 : ℕ
  pub pts_dts_2 : ℕ
  pub pts_dts_3 : ℕ

pub record Escr : Type 0 where
  pub escr_base_1 : ℕ
  pub escr_base_2 : ℕ
  pub escr_base_3 : ℕ
  pub escr_extension : ℕ

-- `DSM_trick_mode`, in the one form that the parser fills.
pub record DsmTrickMode : Type 0 where
  pub dsm_trick_mode_control : ℕ
  pub rep_cntrl : ℕ

-- `program_packet_sequence_counter`
pub record Ppsc : Type 0 where
  pub program_packet_sequence_counter : ℕ
  pub mpeg1_mpeg2_identifier : ℕ
  pub original_stuff_length : ℕ

pub record PstdBuffer : Type 0 where
  pub pstd_buffer_scale : ℕ
  pub pstd_buffer_size : ℕ

pub record PesExtension : Type 0 where
  pub pes_private_data_flag : ℕ
  pub pack_header_field_flag : ℕ
  pub program_packet_sequence_counter_flag : ℕ
  pub p_std_buffer_flag : ℕ
  pub pes_extension_flag_2 : ℕ
  pub pes_private_data : Bytes
  pub pack_head_length : ℕ
  pub ppsc : Ppsc
  pub pstd_buffer : PstdBuffer
  pub pes_extension_field_length : ℕ

-- `non_ps`
pub record NonPs : Type 0 where
  pub pes_scrambling_control : ℕ
  pub pes_priority : ℕ
  pub data_alignment_indicator : ℕ
  pub copyright : ℕ
  pub original_or_copy : ℕ
  pub pts_dts_flags : ℕ
  pub escr_flag : ℕ
  pub es_rate_flag : ℕ
  pub dsm_trick_mode_flag : ℕ
  pub additional_copy_info_flag : ℕ
  pub pes_crc_flag : ℕ
  pub pes_extension_flag : ℕ
  pub pes_header_data_length : ℕ
  pub pts : PtsDts
  pub dts : PtsDts
  pub escr : Escr
  pub es_rate : ℕ
  pub trick_mode : DsmTrickMode
  pub additional_copy_info : ℕ
  pub previous_pes_packet_crc : ℕ
  pub extension : PesExtension

-- `pt->packet_data`, `buf - pkt` and `head_len`.
pub record Reading : Type 0 where
  pub packet_data : NonPs
  pub at : ℕ
  pub head_len : ℕ

-- `buf += n; head_len += n`
abbrev pub skip : ℕ → Reading → Reading
skip n r = record r { at = r.at + n; head_len = r.head_len + n }

-- The three bytes that every such header has.
unfoldable pub flags_part : Bytes → Reading → Option Reading
flags_part pkt r = do
  a ← read8 pkt r.at
  b ← read8 pkt (r.at + 1)
  c ← read8 pkt (r.at + 2)
  some (
      skip 3 (record r {
        packet_data = record r.packet_data {
          pes_scrambling_control = bits8 a 2 2;
          pes_priority = bits8 a 1 4;
          data_alignment_indicator = bits8 a 1 5;
          copyright = bits8 a 1 6;
          original_or_copy = bits8 a 1 7;
          pts_dts_flags = bits8 b 2 0;
          escr_flag = bits8 b 1 2;
          es_rate_flag = bits8 b 1 3;
          dsm_trick_mode_flag = bits8 b 1 4;
          additional_copy_info_flag = bits8 b 1 5;
          pes_crc_flag = bits8 b 1 6;
          pes_extension_flag = bits8 b 1 7;
          pes_header_data_length = c;
        };
      }))

unfoldable pub read_timestamp : ℕ → Bytes → ℕ → Option PtsDts
read_timestamp flag pkt at = do
  a ← read8 pkt at
  b ← read16 pkt (at + 1)
  c ← read16 pkt (at + 3)
  some (record { flag = flag; pts_dts_1 = bits8 a 3 4; pts_dts_2 = b >>> 1; pts_dts_3 = c >>> 1 })

unfoldable pub pts_part : Bytes → Reading → Option Reading
pts_part pkt r =
    if bit_and r.packet_data.pts_dts_flags 2 == 2
    then (do
      t ← read_timestamp 2 pkt r.at
      some (skip 5 (record r { packet_data = record r.packet_data { pts = t } })))
    else some r

unfoldable pub dts_part : Bytes → Reading → Option Reading
dts_part pkt r =
    if bit_and r.packet_data.pts_dts_flags 1 == 1
    then (do
      t ← read_timestamp 3 pkt r.at
      some (skip 5 (record r { packet_data = record r.packet_data { dts = t } })))
    else some r

-- The fields of the clock have 3, 15, 15 and 9 bits.
unfoldable pub read_escr : Bytes → ℕ → Option Escr
read_escr pkt at = do
  b₀ ← read8 pkt at
  b₁ ← read8 pkt (at + 1)
  b₂ ← read8 pkt (at + 2)
  b₃ ← read8 pkt (at + 3)
  b₄ ← read8 pkt (at + 4)
  b₅ ← read8 pkt (at + 5)
  some (record {
    escr_base_1 = bit_and (b₀ >>> 3) 7;
    escr_base_2 = bit_or (bit_or (bit_and b₀ 3 <<< 13) (b₁ <<< 5)) (b₂ >>> 3) % 2 ^ 15;
    escr_base_3 = bit_or (bit_or (bit_and b₂ 3 <<< 13) (b₃ <<< 5)) (b₄ >>> 3) % 2 ^ 15;
    escr_extension = bit_or (bit_and b₄ 3 <<< 8) (b₅ >>> 1) % 2 ^ 9;
  })

unfoldable pub escr_part : Bytes → Reading → Option Reading
escr_part pkt r =
    if r.packet_data.escr_flag != 0
    then (do
      t ← read_escr pkt r.at
      some (skip 6 (record r { packet_data = record r.packet_data { escr = t } })))
    else some r

unfoldable pub es_rate_part : Bytes → Reading → Option Reading
es_rate_part pkt r =
    if r.packet_data.es_rate_flag != 0
    then (do
      a ← read8 pkt r.at
      b ← read8 pkt (r.at + 1)
      c ← read8 pkt (r.at + 2)
      let rate = bit_and (bit_or (bit_or (a <<< 15) (b <<< 7)) (c >>> 1)) 0x3FFFFF
      some (skip 3 (record r { packet_data = record r.packet_data { es_rate = rate } })))
    else some r

unfoldable pub trick_mode_part : Bytes → Reading → Option Reading
trick_mode_part pkt r =
    if r.packet_data.dsm_trick_mode_flag != 0
    then (do
      a ← read8 pkt r.at
      let mode : DsmTrickMode = record {
        dsm_trick_mode_control = a >>> 5;
        rep_cntrl = bit_and a 0x1F;
      }
      some (skip 1 (record r { packet_data = record r.packet_data { trick_mode = mode } })))
    else some r

unfoldable pub copy_info_part : Bytes → Reading → Option Reading
copy_info_part pkt r =
    if r.packet_data.additional_copy_info_flag != 0
    then (do
      a ← read8 pkt r.at
      some (
          skip 1 (record r {
            packet_data = record r.packet_data { additional_copy_info = bits8 a 7 1 };
          })))
    else some r

unfoldable pub crc_part : Bytes → Reading → Option Reading
crc_part pkt r =
    if r.packet_data.pes_crc_flag != 0
    then (do
      crc ← read16 pkt r.at
      some (
          skip 2
            (record r { packet_data = record r.packet_data { previous_pes_packet_crc = crc } })))
    else some r
