-- ===== src/Table/Pmt/Tests.antt =====
-- src/table.c: the loop of `parse_pmt` on a stream of sections and a video stream.
use tsanalyze.Base.{
  ℕ, true, false, Option, none, some, List, [], ◌∷◌, ◌++◌, map, Bytes, length, replicate, ◌≡◌, refl,
  arith, memcpy,
}
use tsanalyze.Bitmap.{bitmap64_get, bitmap64_set}
use tsanalyze.Filter.{no_slot, filter_alloc, filter_set}
use tsanalyze.Table.Register.{init_table_filter}
use tsanalyze.Table.Ops.{register_section_ops}
use tsanalyze.Descriptor.{parse_descriptors}
use tsanalyze.Pes.{null, register_pes_ops}
use tsanalyze.Pes.Examples.{zeros}
use tsanalyze.Table.Pat.{parsed}
use tsanalyze.Table.Pmt.{Registries, register_stream, register_data, streams_from}
use tsanalyze.Table.Pmt.Streams.{Stream, encode, node_of, register_all, streams_from-encode}

abbrev no_parser : ℕ → Bytes → ℕ → Option Bytes
no_parser tag ptr n = some []

abbrev two_streams : List (Stream Bytes)
two_streams =
    record { type = 0x05; reserved = 7; pid = 0x101; reserved1 = 15; info = []; descriptors = [] }
    ∷ record { type = 0x1B; reserved = 7; pid = 0x102; reserved1 = 15; info = []; descriptors = [] }
    ∷ []

abbrev nothing : Registries Bytes
nothing = record {
  psi = record {
    pmt_bitmap = replicate 128 0;
    section_bitmap = replicate 128 0;
    filters = λ _. record { cap = 0; slots = []; map = λ _. no_slot; multi = false };
  };
  pes = record { pid_num = 0; pid_bitmap = replicate 128 0; pid_index = λ _. 0; list = null };
  scte = record { pid_num = 0; pid_bitmap = replicate 128 0; pids = replicate 8 0 };
}

abbrev outcome : Option (Registries Bytes) → Registries Bytes
outcome none = nothing
outcome (some r) = r

abbrev registered : Registries Bytes
registered = outcome (register_all no_parser none none zeros true (map node_of two_streams) nothing)

streams_from-encode_example :
    streams_from none none zeros true no_parser true 10
      (encode two_streams ++ [])
      (length (encode two_streams))
      nothing
    ≡ some (parsed, map node_of two_streams, registered)
unfolding parse_descriptors register_stream register_data register_section_ops register_pes_ops
    bitmap64_get bitmap64_set init_table_filter filter_alloc filter_set memcpy
streams_from-encode_example =
    streams_from-encode no_parser none none zeros true two_streams [] 10 nothing registered
      (
        record {
          three_bits = omega arith;
          pid_bits = omega arith;
          four_bits = omega arith;
          info_bits = omega arith;
          read = λ rest. refl;
        },
        (
          record {
            three_bits = omega arith;
            pid_bits = omega arith;
            four_bits = omega arith;
            info_bits = omega arith;
            read = λ rest. refl;
          },
          tt,
        ),
      )
      (omega arith) refl
