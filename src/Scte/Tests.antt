-- ===== src/Scte/Tests.antt =====
-- src/scte.c: the parsers on a splice of two components and on a descriptor.
use tsanalyze.Base.{◌+◌, true, none, some, inr, [], ◌∷◌, ◌++◌, length, Bytes, ◌≡◌, refl, arith}
use tsanalyze.Scte.Command.Parts.{unspecified, specified}
use tsanalyze.Scte.Command.Insertion.{Insertion, IsInsertion, components_at}
use tsanalyze.Scte.Info.{SpliceInfo, empty, accepted, parse_splice_info, parse_splice_descriptors}
use tsanalyze.Scte.Whole.{InsertSection, encode_info, info_of, parse_splice_info-encode}
use tsanalyze.Scte.Overrun.{parse_splice_descriptors-none}

abbrev two_components : Insertion
two_components = record {
  out = 1;
  mode = components_at ((1, specified 63 0x123456789) ∷ (2, unspecified 127) ∷ []);
  reserved = 15;
  duration = some (record { auto_return = 1; reserved = 63; duration = 0x1FFFFFFFF });
  unique_program_id = 0x1234;
  avail_num = 1;
  avails_expected = 2;
}

two_components-IsInsertion : IsInsertion two_components
two_components-IsInsertion = record {
  out_bit = omega arith;
  four_bits = omega arith;
  mode = ((omega arith, omega arith), (omega arith, tt));
  duration = record {
    return_bit = omega arith;
    six_bits = omega arith;
    duration_bits = omega arith;
  };
}

abbrev open_section : InsertSection
open_section = record {
  table_id = 0xFC;
  protocol_version = 0;
  algorithm = 0;
  pts_high = 1;
  pts_adjustment = 0x12345678;
  cw_index = 0xFF;
  tier = 0xFFF;
  command_length = 0xFFF;
  event_id = 7;
  insertion = two_components;
  rest = 1 ∷ 2 ∷ 3 ∷ 4 ∷ [];
}

abbrev no_info : SpliceInfo
no_info = record {
  pid = 0x100;
  table_id = 0;
  section_syntax_indicator = 0;
  private_indicator = 0;
  sap_type = 0;
  section_length = 0;
  protocol_version = 0;
  encrypted_packet = 0;
  encryption_algorithm = 0;
  pts_adjustment_h = 0;
  pts_adjustment = 0;
  cw_index = 0;
  tier = 0;
  splice_command_length = 0;
  splice_command_type = 0;
  command = empty;
  descriptor_loop_length = 0;
  list = [];
}

parse_splice_info-encode_example :
    parse_splice_info true (encode_info open_section) no_info
    ≡ some (accepted, info_of no_info open_section)
parse_splice_info-encode_example = parse_splice_info-encode no_info open_section (record {
  algorithm_bits = omega arith;
  high_bit = omega arith;
  tier_bits = omega arith;
  given = inr refl;
  room = omega arith;
  insertion = two_components-IsInsertion;
})

-- `CUEI` and the number of an avail.
abbrev avail : Bytes
avail = 0x43 ∷ 0x55 ∷ 0x45 ∷ 0x49 ∷ 0 ∷ 0 ∷ 0 ∷ 1 ∷ []

abbrev checksum : Bytes
checksum = 1 ∷ 2 ∷ 3 ∷ 4 ∷ []

parse_splice_descriptors-none_example :
    parse_splice_descriptors true (0 ∷ length avail ∷ (avail ++ checksum)) (2 + length avail) ≡ none
parse_splice_descriptors-none_example = parse_splice_descriptors-none 0 avail checksum refl
