-- ===== src/Pes/Tests.antt =====
-- src/pes.c on small packets and registries.
use tsanalyze.Base.{
  ℕ, read16, true, false, Option, some, [], ◌∷◌, Bytes, replicate, ◌≡◌, ◌≢◌, refl, arith,
}
use tsanalyze.Bitmap.{bitmap64_get}
use tsanalyze.Bitmap.Laws.{get-replicate}
use tsanalyze.Filter.{Filters, no_slot}
use tsanalyze.Table.Register.{table_slot, entered_head}
use tsanalyze.Table.Ops.{Callback, pes_proc}
use tsanalyze.Pes.{
  Pes, MpegtsPes, DataCallback, parse_subtitle, block, null, fresh_entry, register_pes_ops,
}
use tsanalyze.Pes.Packet.{find_entry}
use tsanalyze.Pes.Payload.{Delivered, parse_pes_packet-plain, parse_pes_packet-extended}
use tsanalyze.Pes.Entries.{IsPes, register_pes_ops-IsPes}
use tsanalyze.Pes.Examples.{zeros}

-- A stream on PID 3 whose callback keeps the bytes that it is given.
abbrev subtitles : Pes Bytes
subtitles = record (fresh_entry zeros 3 6) { cb = some parse_subtitle }

abbrev one_stream : MpegtsPes Bytes
one_stream = record {
  pid_num = 1;
  pid_bitmap = 8 ∷ replicate 127 0;
  pid_index = λ _. 0;
  list = block (subtitles ∷ []);
}

abbrev keep : DataCallback → ℕ → Bytes → ℕ → Option Bytes → Option (Option Bytes)
keep callback pid data_byte len priv = some (some data_byte)

-- Private stream 1 with a PTS and two bytes of data.
abbrev packet : Bytes
packet = 0 ∷ 0 ∷ 1 ∷ 0xBD ∷ 0 ∷ 10 ∷ 0x80 ∷ 0x80 ∷ 5 ∷ 0x21 ∷ 0 ∷ 1 ∷ 0 ∷ 1 ∷ 0x20 ∷ 0 ∷ []

parse_pes_packet-plain_example :
    Delivered keep 3 packet one_stream subtitles 0xBD 14 2 (some (0x20 ∷ 0 ∷ []))
unfolding find_entry bitmap64_get read16
parse_pes_packet-plain_example =
    parse_pes_packet-plain keep 3 0xBD 0x80 5 10 packet one_stream subtitles parse_subtitle
      (some (0x20 ∷ 0 ∷ [])) refl refl refl refl refl refl refl refl refl refl refl (omega arith)
      refl

-- The same stream with an extension that has a sequence counter.
abbrev counted_packet : Bytes
counted_packet = 0 ∷ 0 ∷ 1 ∷ 0xBD ∷ 0 ∷ 9 ∷ 0x80 ∷ 0x01 ∷ 3 ∷ 0x20 ∷ 0x81 ∷ 0xC0 ∷ 0x20 ∷ 0 ∷ 7 ∷ []

parse_pes_packet-extended_example :
    Delivered keep 3 counted_packet one_stream subtitles 0xBD 14 3 (some (7 ∷ []))
unfolding find_entry bitmap64_get read16
parse_pes_packet-extended_example =
    parse_pes_packet-extended keep 3 0xBD 1 3 0x20 9 counted_packet one_stream subtitles
      parse_subtitle (some (7 ∷ [])) refl refl refl refl refl refl refl refl refl refl refl refl
      (omega arith) refl refl (omega arith) refl

abbrev no_filters : Filters Callback
no_filters pid = record { cap = 0; slots = []; map = λ _. no_slot; multi = false }

abbrev no_streams : MpegtsPes Bytes
no_streams = record { pid_num = 0; pid_bitmap = replicate 128 0; pid_index = λ _. 0; list = null }

nothing_marked : IsPes [] no_streams
nothing_marked = record {
  words = refl;
  held = refl;
  counted = refl;
  placed = λ q small marked. absurd (ground (arith, get-replicate 128 q (omega arith), marked));
}

register_pes_ops-IsPes_example :
    (pes' : MpegtsPes Bytes) × (fs' : Filters Callback) × (register_pes_ops zeros true true 0x101 6
        no_streams no_filters
      ≡ some (pes', fs'))
    × IsPes (fresh_entry zeros 0x101 6 ∷ []) pes'
    × (bitmap64_get pes'.pid_bitmap 0x101 ≡ some true)
    × (fs' 0x101 ≡ entered_head (no_filters 0x101) (table_slot 0x101 0 0 pes_proc))
    × ((q : ℕ) → q ≢ 0x101 → fs' q ≡ no_filters q)
unfolding bitmap64_get
register_pes_ops-IsPes_example =
    register_pes_ops-IsPes zeros [] no_streams no_filters 0x101 6 nothing_marked (omega arith)
      (omega arith) (omega arith) refl
