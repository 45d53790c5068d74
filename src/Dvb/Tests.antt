-- ===== src/Dvb/Tests.antt =====
-- src/dvb_si.c: the parsers on small tables.
use tsanalyze.Base.{
  ℕ, ◌+◌, ◌*◌, ◌≤◌, min, true, Option, none, some, List, [], ◌∷◌, ◌++◌, map, Bytes, length,
  replicate, read16, read32, read64, u64, Heap, ◌≡◌, ◌⊎◌, refl, arith,
}
use tsanalyze.Bitmap.{bitmap64_get}
use tsanalyze.Descriptor.{parse_descriptors}
use tsanalyze.Table.Header.{TableHeader, zero_header}
use tsanalyze.Table.Header.Section.{section_bytes, IsFresh}
use tsanalyze.Table.Pat.{parsed}
use tsanalyze.Dvb.Network.{NetworkTable, parse_nit, parse_bat}
use tsanalyze.Dvb.Network.Whole.{Network, encode_network, network_table, network-encode}
use tsanalyze.Dvb.Service.{Sdt}
use tsanalyze.Dvb.Service.Whole.{Service, service_node, encode_sdt}
use tsanalyze.Dvb.Time.{Tot}
use tsanalyze.Dvb.Procs.{DvbTables, sdt_bat_proc}
use tsanalyze.Dvb.Procs.Services.{sdt_bat_proc-encode}
use tsanalyze.Dvb.Event.{EventNode, Eit, read_event, events_from, parse_eit}
use tsanalyze.Dvb.Event.Rounds.{
  AtEveryTwelve, counted_down, FaultsAfter, events_from-AtEveryTwelve, events_from_bounds,
  events_from_enough,
}
use tsanalyze.Dvb.Event.Short.{parse_eit-none}

abbrev no_parser : ℕ → Bytes → ℕ → Option Bytes
no_parser tag ptr n = some []

abbrev plenty : ℕ → Option Bytes
plenty n = some (replicate n 7)

abbrev empty_heap : Heap
empty_heap = record { next = 0; block = λ _. none }

abbrev checksum : Bytes
checksum = 1 ∷ 2 ∷ 3 ∷ 4 ∷ []

zero-IsFresh : IsFresh zero_header
unfolding bitmap64_get
zero-IsFresh = record { no_data = refl; words = omega arith; unset = refl }

abbrev two_services : List (Service Bytes)
two_services =
    record {
      id = 0x101;
      reserved = 63;
      schedule = 1;
      present_following = 1;
      running_status = 4;
      free_ca_mode = 0;
      info = [];
      descriptors = [];
    }
    ∷ record {
      id = 0x102;
      reserved = 63;
      schedule = 0;
      present_following = 1;
      running_status = 1;
      free_ca_mode = 1;
      info = 0x48 ∷ 0 ∷ [];
      descriptors = record { tag = 0x48; size = 0; body = [] } ∷ [];
    }
    ∷ []

abbrev no_sdt : Sdt Bytes
no_sdt = record { sdt_header = zero_header; original_network_id = 0; services = [] }

abbrev one_stream : Network Bytes
one_stream = record {
  reserved = 15;
  info = 0x40 ∷ 0 ∷ [];
  descriptors = record { tag = 0x40; size = 0; body = [] } ∷ [];
  reserved_loop = 15;
  streams =
      record { id = 1; network = 0x22F1; reserved = 15; info = []; descriptors = [] }
      ∷ record { id = 2; network = 0x22F1; reserved = 15; info = []; descriptors = [] }
      ∷ [];
}

abbrev no_network : NetworkTable Bytes
no_network = record {
  header = zero_header;
  id = 0;
  descriptors_length = 0;
  list = [];
  transport_stream_loop_length = 0;
  streams = [];
}

network-encode_example :
    (h' : TableHeader) × (mem' : Heap) × (h'.table_id ≡ 0x4A)
    × (parse_nit no_parser plenty true
          (some (section_bytes 0x4A 1 0xC1 (encode_network one_stream) checksum))
          (9 + length (encode_network one_stream) + 3)
          no_network
          empty_heap
        ≡ some (parsed, network_table h' 0 one_stream, mem'))
    × (parse_bat no_parser plenty true
          (some (section_bytes 0x4A 1 0xC1 (encode_network one_stream) checksum))
          (9 + length (encode_network one_stream) + 3)
          no_network
          empty_heap
        ≡ some (parsed, network_table h' 0x4A one_stream, mem'))
unfolding parse_descriptors
network-encode_example =
    network-encode no_parser plenty no_network 0x4A 1 0xC1 one_stream checksum (replicate 27 7)
      empty_heap zero-IsFresh
      (record {
        room = omega arith;
        read = λ rest. refl;
        streams = (
          record { info_bits = omega arith; read = λ rest. refl },
          (record { info_bits = omega arith; read = λ rest. refl }, tt),
        );
      })
      refl refl refl

-- An event with twelve bytes of descriptors, whose bytes the loop takes for the second event.
abbrev one_event : Bytes
one_event = 0 ∷ 1 ∷ (replicate 8 0 ++ (0 ∷ 12 ∷ replicate 70 0))

abbrev first_event : EventNode Bytes
first_event = record {
  event_id = 1;
  start_time = 0;
  duration = 0;
  running_status = 0;
  free_ca_mode = 0;
  descriptors_loop_length = 12;
  descriptors = replicate 6 (record { tag = 0; size = 0; body = [] });
}

abbrev second_event : EventNode Bytes
second_event = record {
  event_id = 0;
  start_time = 0;
  duration = 0;
  running_status = 0;
  free_ca_mode = 0;
  descriptors_loop_length = 0;
  descriptors = [];
}

events_from-AtEveryTwelve_example :
    AtEveryTwelve no_parser 60 one_event (first_event ∷ second_event ∷ [])
    × (counted_down no_parser 60 36 (first_event ∷ second_event ∷ []) ≡ 0)
unfolding events_from read_event parse_descriptors read16 read32 read64
events_from-AtEveryTwelve_example =
    events_from-AtEveryTwelve no_parser 60 82 36 one_event parsed (first_event ∷ second_event ∷ [])
      refl

events_from_bounds_example : 12 * 2 + min 45 60 ≤ length one_event
unfolding events_from read_event parse_descriptors read16 read32 read64
events_from_bounds_example =
    events_from_bounds no_parser 60 82 36 one_event parsed first_event (second_event ∷ []) refl

events_from_enough_example :
    ((events : List (EventNode Bytes)) × (events_from no_parser 60 true 100 one_event 36
        ≡ some (parsed, events))
      × AtEveryTwelve no_parser 60 one_event events
      × (counted_down no_parser 60 36 events ≡ 0))
    ⊎ ((events_from no_parser 60 true 100 one_event 36 ≡ none)
        × ((count : ℕ) × FaultsAfter no_parser 60 count one_event 36))
events_from_enough_example = events_from_enough no_parser 60 100 36 one_event (omega arith)

abbrev blank_events : Bytes
blank_events = replicate 18 0

abbrev no_eit : Eit Bytes
no_eit = record {
  eit_header = zero_header;
  transport_stream_id = 0;
  original_network_id = 0;
  segment_last_section_number = 0;
  last_table_id = 0;
  events = [];
}

parse_eit-none_example :
    parse_eit no_parser plenty true
      (some (section_bytes 0x4E 1 0xC1 blank_events checksum))
      (9 + length blank_events + 3)
      no_eit
      empty_heap
    ≡ none
parse_eit-none_example =
    parse_eit-none no_parser plenty no_eit 0x4E 1 0xC1 blank_events checksum (replicate 27 7)
      empty_heap zero-IsFresh (omega arith) (omega arith) refl refl refl

abbrev no_tot : Tot Bytes
no_tot = record { section_length = 0; utc_time = []; descriptors_loop_length = 0; list = [] }

abbrev no_tables : DvbTables Bytes
no_tables = record {
  nit_actual = no_network;
  nit_other = no_network;
  sdt_actual = no_sdt;
  sdt_other = no_sdt;
  bat = no_network;
  eit_actual = no_eit;
  eit_other = no_eit;
  tdt = record { section_length = 0; utc_time = [] };
  tot = no_tot;
  nit_actual_sections = 0;
  nit_other_sections = 0;
  sdt_actual_sections = 0;
  sdt_other_sections = 0;
  bat_sections = 0;
  eit_actual_sections = 0;
  eit_other_sections = 0;
  tdt_sections = 0;
  tot_sections = 0;
}

sdt_bat_proc-encode_example :
    (h' : TableHeader) × (mem' : Heap) × (sdt_bat_proc no_parser plenty true
        (section_bytes 0x42 1 0xC1 (encode_sdt 0x22F1 0xFF two_services) checksum)
        (9 + length (encode_sdt 0x22F1 0xFF two_services) + 3)
        no_tables
        empty_heap
      ≡ some (
        record no_tables {
          sdt_actual = record {
            sdt_header = h';
            original_network_id = 0x22F1;
            services = map service_node two_services;
          };
          sdt_actual_sections = u64 (no_tables.sdt_actual_sections + 1);
        },
        mem',
      ))
unfolding parse_descriptors
sdt_bat_proc-encode_example =
    sdt_bat_proc-encode no_parser plenty no_tables 1 0xC1 0x22F1 0xFF two_services checksum
      (replicate 24 7) empty_heap zero-IsFresh
      (
        record {
          schedule_bit = omega arith;
          present_bit = omega arith;
          status_bits = omega arith;
          ca_bit = omega arith;
          info_bits = omega arith;
          read = λ rest. refl;
        },
        (
          record {
            schedule_bit = omega arith;
            present_bit = omega arith;
            status_bits = omega arith;
            ca_bit = omega arith;
            info_bits = omega arith;
            read = λ rest. refl;
          },
          tt,
        ),
      )
      (omega arith) refl refl refl
