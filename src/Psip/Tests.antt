-- ===== src/Psip/Tests.antt =====
-- src/atsc_psip.c: the parsers on small tables.
use tsanalyze.Base.{
  ℕ, ◌+◌, true, Option, none, some, [], ◌∷◌, ◌++◌, Bytes, length, replicate, Heap, ◌≡◌, refl, arith,
}
use tsanalyze.Bitmap.{bitmap64_get}
use tsanalyze.Descriptor.{parse_descriptors}
use tsanalyze.Table.Header.{TableHeader, zero_header}
use tsanalyze.Table.Header.Section.{section_bytes, IsFresh}
use tsanalyze.Table.Pat.{parsed}
use tsanalyze.Psip.Text.{MultipleString, strings, parse_multi_string}
use tsanalyze.Psip.Text.Whole.{encode_text, parse_multi_string-encode}
use tsanalyze.Psip.Guide.{AtscMgt, parse_mgt}
use tsanalyze.Psip.Guide.Whole.{Guide, encode_mgt, mgt_of, parse_mgt-encode}
use tsanalyze.Psip.Clock.{AtscStt, parse_stt, parse_stt-none}

abbrev no_parser : ℕ → Bytes → ℕ → Option Bytes
no_parser tag ptr n = some []

abbrev plenty : ℕ → Option Bytes
plenty n = some (replicate n 7)

abbrev empty_heap : Heap
empty_heap = record { next = 0; block = λ _. none }

abbrev checksum : Bytes
checksum = 1 ∷ 2 ∷ 3 ∷ 4 ∷ []

zero-IsFresh : IsFresh zero_header
unfolding bitmap64_get
zero-IsFresh = record { no_data = refl; words = omega arith; unset = refl }

abbrev two_languages : MultipleString
two_languages =
    record {
      iso_639_language_code = 0x656E67;
      segments =
          record { compression_type = 0; mode = 0; compressed_string = 0x48 ∷ 0x69 ∷ [] } ∷ [];
    }
    ∷ record { iso_639_language_code = 0x737061; segments = [] }
    ∷ []

parse_multi_string-encode_example :
    parse_multi_string (λ _. true) (encode_text two_languages ++ checksum)
    ≡ some (strings (length (encode_text two_languages)) two_languages)
parse_multi_string-encode_example =
    parse_multi_string-encode (λ _. true) two_languages checksum (λ _. refl)
      (omega arith, (omega arith, tt))

abbrev one_table : Guide Bytes
one_table = record {
  protocol_version = 0;
  tables =
      record {
        type = 0;
        reserved = 7;
        pid = 0x1FFB;
        reserved1 = 7;
        version = 3;
        number_bytes = 0x1234;
        reserved2 = 15;
        info = [];
        descriptors = [];
      }
      ∷ [];
  reserved = 15;
  info = 0x80 ∷ 0 ∷ [];
  descriptors = record { tag = 0x80; size = 0; body = [] } ∷ [];
}

abbrev no_mgt : AtscMgt Bytes
no_mgt = record {
  mgt_header = zero_header;
  protocol_version = 0;
  tables_defined = 0;
  tables = [];
  descriptors_length = 0;
  list = [];
}

parse_mgt-encode_example :
    (h' : TableHeader) × (mem' : Heap) × (parse_mgt no_parser true plenty
        (some (section_bytes 0xC7 0 0xC1 (encode_mgt no_parser one_table) checksum))
        (9 + length (encode_mgt no_parser one_table) + 3)
        no_mgt
        empty_heap
      ≡ some (parsed, mgt_of no_parser h' one_table, mem'))
unfolding parse_descriptors
parse_mgt-encode_example =
    parse_mgt-encode no_parser plenty no_mgt 0xC7 0 0xC1 one_table checksum (replicate 27 7)
      empty_heap zero-IsFresh
      (record {
        tables = (
          record {
            pid_bits = omega arith;
            version_bits = omega arith;
            info_bits = omega arith;
            read = λ rest. refl;
          },
          tt,
        );
        info_bits = omega arith;
        read = λ rest. refl;
      })
      (omega arith) refl refl refl

abbrev one_channel : Bytes
one_channel = replicate 34 0

abbrev no_stt : AtscStt Bytes
no_stt = record {
  stt_header = zero_header;
  protocol_version = 0;
  system_time = 0;
  gps_utc_offset = 0;
  daylight_saving = 0;
  list = [];
}

-- The time, with one descriptor.
abbrev time_bytes : Bytes
time_bytes = 0 ∷ 0x12 ∷ 0x34 ∷ 0x56 ∷ 0x78 ∷ 18 ∷ 0x60 ∷ 0 ∷ 0xA0 ∷ 0 ∷ []

parse_stt-none_example :
    parse_stt no_parser 1000 plenty
      (some (section_bytes 0xCD 0 0xC1 time_bytes checksum))
      (9 + length time_bytes + 3)
      no_stt
      empty_heap
    ≡ none
parse_stt-none_example =
    parse_stt-none no_parser 1000 plenty no_stt 0xCD 0 0xC1 time_bytes checksum (replicate 19 7)
      empty_heap zero-IsFresh (omega arith) (omega arith) refl refl refl
