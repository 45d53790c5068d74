-- ===== src/Dvb/Event.antt =====
-- src/dvb_si.c: `parse_eit`, the event information table.
pub mod Rounds
pub mod Short
use tsanalyze.Base.{
  ℕ, zero, suc, ◌+◌, ◌-◌, ◌%◌, ◌^◌, ◌>>>◌, min, leb, if◌then◌else◌, bit, Bool, true, false, Option,
  none, some, ◌>>=◌, List, [], ◌∷◌, ◌++◌, Bytes, read8, read16, read64, u16, sub16, take, drop,
  length, Heap, load,
}
use tsanalyze.Descriptor.{Descriptor, parse_descriptors}
use tsanalyze.Table.Header.{TableHeader, done, parse_section_header}
use tsanalyze.Table.Pat.{PatResult, parsed, out_of_memory, not_done, contents}

-- `struct event_node`
pub record EventNode (D : Type 0) : Type 0 where
  pub event_id : ℕ
  pub start_time : ℕ
  pub duration : ℕ
  pub running_status : ℕ
  pub free_ca_mode : ℕ
  pub descriptors_loop_length : ℕ
  pub descriptors : List (Descriptor D)

-- `eit_t`, without the unused `crc32`.
pub record Eit (D : Type 0) : Type 0 where
  pub eit_header : TableHeader
  pub transport_stream_id : ℕ
  pub original_network_id : ℕ
  pub segment_last_section_number : ℕ
  pub last_table_id : ℕ
  pub events : List (EventNode D)

-- The bytes that a round prints.
abbrev pub printed : ℕ → Bytes → Option Bytes
printed buf_size pdata =
    if leb (min 45 buf_size) (length pdata) then some (take (min 45 buf_size) pdata) else none

module _ {D : Type 0} (parse : ℕ → Bytes → ℕ → Option D) (buf_size : ℕ) where
  -- The node of a round. The bytes that the round prints are read behind the fixed fields.
  unfoldable pub read_event : Bytes → Option (EventNode D)
  read_event pdata = do
    id ← read16 pdata 0
    times ← read64 pdata 2
    field ← read16 pdata 10
    _ ← printed buf_size (drop 12 pdata)
    ds ← parse_descriptors parse (drop 12 pdata) (field % 2 ^ 12)
    some (record {
      event_id = id;
      start_time = (times >>> 24) % 2 ^ 40;
      duration = times % 2 ^ 24;
      running_status = (field >>> 13) % 2 ^ 3;
      free_ca_mode = bit field 12;
      descriptors_loop_length = field % 2 ^ 12;
      descriptors = ds;
    })

  -- The loop with `section_len` to go, on a `uint16_t`: a round takes the fixed fields and the
  -- descriptors from it, but moves the pointer by the fixed fields only.
  unfoldable pub events_from : Bool → ℕ → Bytes → ℕ → Option (PatResult × List (EventNode D))
  unfolding read_event
  events_from memory fuel pdata zero = some (parsed, [])
  events_from memory zero pdata (suc len) = none
  events_from false (suc fuel) pdata (suc len) = some (out_of_memory, [])
  events_from true (suc fuel) pdata (suc len) = do
    pn ← read_event pdata
    (result, later) ←
        events_from true fuel (drop 12 pdata) (sub16 (suc len) (12 + pn.descriptors_loop_length))
    some (result, pn ∷ later)

  -- What follows once the table is whole: the events come behind those that are already there. A
  -- round reads twelve bytes, so as many rounds as there are bytes are enough.
  unfoldable pub read_events :
      Bool → TableHeader → Bytes → List (EventNode D) → Option (PatResult × Eit D)
  unfolding events_from
  read_events node_memory h pdata before = do
    stream_id ← read16 pdata 0
    network_id ← read16 pdata 2
    segment_last ← read8 pdata 4
    last_id ← read8 pdata 5
    let section_len = sub16 (sub16 h.section_length (5 + 4)) 6
    (result, events') ← events_from node_memory (length pdata) (drop 6 pdata) section_len
    let p' : Eit D = record {
      eit_header = h;
      transport_stream_id = stream_id;
      original_network_id = network_id;
      segment_last_section_number = segment_last;
      last_table_id = last_id;
      events = before ++ events';
    }
    some (result, p')

module _ {D : Type 0} (parse : ℕ → Bytes → ℕ → Option D) (malloc : ℕ → Option Bytes) where
  unfoldable pub parse_eit :
      Bool → Option Bytes → ℕ → Eit D → Heap → Option (PatResult × Eit D × Heap)
  unfolding read_events
  parse_eit node_memory pbuf buf_size p mem = do
    (ret, header', mem') ← parse_section_header malloc pbuf buf_size p.eit_header mem
    elim ret [
      | done ↦ (do
        (result, p') ←
            read_events parse buf_size node_memory header'
              (contents (load header'.private_data_byte mem')) p.events
        some (result, p', mem'))
      | other ↦ some (not_done other, record p { eit_header = header' }, mem')
    ]
