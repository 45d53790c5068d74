-- ===== src/Ps/Tests.antt =====
-- src/ps.c: the parsers on small program streams.
use tsanalyze.Base.{
  ℕ, ◌+◌, ◌==◌, true, Option, none, some, List, [], ◌∷◌, ◌++◌, Bytes, length, replicate, read32,
  ◌≡◌, refl, arith,
}
use tsanalyze.Descriptor.{Descriptor, parse_descriptors}
use tsanalyze.Pes.{MpegtsPes, DataCallback, null}
use tsanalyze.Ps.Pack.{parse_ps}
use tsanalyze.Ps.Pack.One.{Pack, encode}
use tsanalyze.Ps.Pack.Whole.{parse_ps-encode}
use tsanalyze.Ps.Map.{took, parse_program_stream_map}
use tsanalyze.Ps.Map.Whole.{StreamMap, encode_map, map_of, parse_program_stream_map-encode}
use tsanalyze.Ps.Directory.{read_unit}
use tsanalyze.Ps.Directory.Unit.{Access, encode_access, unit_of, read_unit-encode}

abbrev no_parser : ℕ → Bytes → ℕ → Option Bytes
no_parser tag ptr n = some []

abbrev no_streams : MpegtsPes Bytes
no_streams = record { pid_num = 0; pid_bitmap = replicate 128 0; pid_index = λ _. 0; list = null }

abbrev keep_data : DataCallback → ℕ → Bytes → ℕ → Option Bytes → Option (Option Bytes)
keep_data callback pid data' len priv = some priv

abbrev two_packs : List Pack
two_packs =
    record {
      clock_high = 0x44000401;
      clock_low = 0x12345678;
      rate = 3;
      reserved = 31;
      stuffing = 255 ∷ 255 ∷ [];
      system = some (128 ∷ 0 ∷ 1 ∷ 4 ∷ 225 ∷ 127 ∷ 224 ∷ 224 ∷ 231 ∷ []);
    }
    ∷ record {
      clock_high = 0x44000401;
      clock_low = 0x22345678;
      rate = 3;
      reserved = 31;
      stuffing = [];
      system = none;
    }
    ∷ []

-- A packet of video.
abbrev video : Bytes
video = 0 ∷ 0 ∷ 1 ∷ 0xE0 ∷ []

parse_ps-encode_example :
    parse_ps keep_data 3 0x100 (encode two_packs ++ video) 49 no_streams
    ≡ some (0x000001E0 == 0x000001B9, no_streams)
unfolding read32
parse_ps-encode_example =
    parse_ps-encode keep_data 3 0x100 49 0x000001E0 two_packs video no_streams
      (
        record { stuffing_bits = omega arith; system = omega arith },
        (record { stuffing_bits = omega arith; system = tt }, tt),
      )
      refl (omega arith) (record { no_system = refl; no_map = refl }) refl (omega arith)
      (omega arith) (omega arith)

abbrev one_stream : StreamMap Bytes
one_stream = record {
  map_length = 16;
  current = 1;
  reserved = 3;
  version = 5;
  marker = 255;
  info = 0x40 ∷ 0 ∷ [];
  descriptors = record { tag = 0x40; size = 0; body = [] } ∷ [];
  streams = record { type = 0x1B; id = 0xE0; info = []; descriptors = [] } ∷ [];
}

-- What the map holds before the call.
abbrev old_descriptors : List (Descriptor Bytes)
old_descriptors = record { tag = 0x0A; size = 1; body = 7 ∷ [] } ∷ []

parse_program_stream_map-encode_example :
    parse_program_stream_map no_parser true (encode_map one_stream ++ []) old_descriptors
    ≡ some (took (length (encode_map one_stream) + 4), map_of old_descriptors one_stream)
unfolding parse_descriptors
parse_program_stream_map-encode_example =
    parse_program_stream_map-encode no_parser one_stream old_descriptors [] (record {
      current_bit = omega arith;
      reserved_bits = omega arith;
      version_bits = omega arith;
      read = λ rest. refl;
      streams = (λ rest. refl, tt);
    })

abbrev one_access : Access
one_access = record {
  stream_id = 0xE0;
  sign = 1;
  offset1 = 0x1234;
  offset2 = 0x7001;
  offset3 = 0x7002;
  reference_offset = 9;
  reserved = 7;
  pts1 = 5;
  pts2 = 0x7003;
  pts3 = 0x7004;
  bytes1 = 0x7005;
  bytes2 = 8;
  intra = 1;
  coding = 2;
  reserved1 = 15;
}

read_unit-encode_example : read_unit (encode_access one_access ++ []) ≡ some (unit_of one_access)
read_unit-encode_example = read_unit-encode one_access [] (record {
  sign_bit = omega arith;
  offset_bits = omega arith;
  reserved_bits = omega arith;
  pts_bits = omega arith;
  intra_bit = omega arith;
  coding_bits = omega arith;
  reserved1_bits = omega arith;
})
