-- ===== src/Psip/Event.antt =====
-- src/atsc_psip.c: `parse_atsc_eit` and `parse_ett`, the event information and extended text tables.
use tsanalyze.Base.{
  ℕ, ◌+◌, ◌%◌, ◌^◌, ◌>>>◌, Bool, true, false, Option, some, ◌>>=◌, List, [], ◌∷◌, Bytes, read8,
  read16, read32, drop, Heap,
}
use tsanalyze.Descriptor.{Descriptor, parse_descriptors}
use tsanalyze.Table.Header.{TableHeader}
use tsanalyze.Table.Pat.{PatResult, parsed, out_of_memory}
use tsanalyze.Psip.Parse.{parse_table, entries}
use tsanalyze.Psip.Text.{TextResult, free_multi_string, parse_multi_string}

-- `struct define_event`
pub record DefineEvent (D : Type 0) : Type 0 where
  pub event_id : ℕ
  pub start_time : ℕ
  pub etm_location : ℕ
  pub length_in_seconds : ℕ
  pub title_length : ℕ
  pub title_text : TextResult
  pub descriptors_length : ℕ
  pub list : List (Descriptor D)

-- `atsc_eit_t`
pub record AtscEit (D : Type 0) : Type 0 where
  pub eit_header : TableHeader
  pub protocol_version : ℕ
  pub num_events_in_section : ℕ
  pub events : List (DefineEvent D)

-- `atsc_ett_t`, whose text is there once a section was read.
pub record AtscEtt : Type 0 where
  pub ett_header : TableHeader
  pub protocol_version : ℕ
  pub etm_id : ℕ
  pub extended_text_message : Option TextResult

module _ {D : Type 0} (parse : ℕ → Bytes → ℕ → Option D) where
  -- The event of a round, with the bytes that the pointer moves by: not its descriptors'.
  unfoldable pub read_event : (Bytes → Bool) → Bytes → Option (ℕ × DefineEvent D)
  unfolding parse_multi_string
  read_event memory pdata = do
    id ← read16 pdata 0
    start ← read32 pdata 2
    field ← read32 pdata 6
    title ← parse_multi_string memory (drop 10 pdata)
    let title_len = field % 2 ^ 8
    len ← read16 pdata (10 + title_len)
    ds ← parse_descriptors parse (drop (10 + title_len + 2) pdata) (len % 2 ^ 12)
    let e : DefineEvent D = record {
      event_id = id % 2 ^ 14;
      start_time = start;
      etm_location = (field >>> 28) % 2 ^ 2;
      length_in_seconds = (field >>> 8) % 2 ^ 20;
      title_length = title_len;
      title_text = title;
      descriptors_length = len % 2 ^ 12;
      list = ds;
    }
    some (10 + title_len + 2, e)

  -- The titles of the old events are given back, with their descriptors.
  abbrev pub free_titles : List (DefineEvent D) → Option (Unit {0})
  free_titles [] = some tt
  free_titles (e ∷ es) = do _ ← free_multi_string e.title_text; free_titles es

  -- `memory` says whether `calloc` gives the events, `text_memory` at which bytes it gives what
  -- a text needs.
  unfoldable pub read_eit :
      Bool → (Bytes → Bool) → Bytes → AtscEit D → Option (PatResult × AtscEit D)
  unfolding read_event entries
  read_eit memory text_memory pdata t = do
    _ ← free_titles t.events
    version ← read8 pdata 0
    count ← read8 pdata 1
    let t' : AtscEit D = record t {
      protocol_version = version;
      num_events_in_section = count;
      events = [];
    }
    elim memory [
      | true ↦ (do
        (_, es) ← entries (read_event text_memory) count (drop 2 pdata)
        some (parsed, record t' { events = es }))
      | false ↦ some (out_of_memory, t')
    ]

  unfoldable pub parse_atsc_eit :
      Bool
      → (Bytes → Bool)
      → (ℕ → Option Bytes)
      → Option Bytes
      → ℕ
      → AtscEit D
      → Heap
      → Option (PatResult × AtscEit D × Heap)
  unfolding read_eit
  parse_atsc_eit memory text_memory =
      parse_table (λ t. t.eit_header) (λ h t. record t { eit_header = h })
        (read_eit memory text_memory)

unfoldable pub read_ett : (Bytes → Bool) → Bytes → AtscEtt → Option (PatResult × AtscEtt)
unfolding parse_multi_string
read_ett text_memory pdata t = do
  version ← read8 pdata 0
  id ← read32 pdata 1
  text ← parse_multi_string text_memory (drop 5 pdata)
  let t' : AtscEtt = record t {
    protocol_version = version;
    etm_id = id;
    extended_text_message = some text;
  }
  some (parsed, t')

unfoldable pub parse_ett :
    (Bytes → Bool)
    → (ℕ → Option Bytes)
    → Option Bytes
    → ℕ
    → AtscEtt
    → Heap
    → Option (PatResult × AtscEtt × Heap)
unfolding read_ett
parse_ett text_memory =
    parse_table (λ t. t.ett_header) (λ h t. record t { ett_header = h }) (read_ett text_memory)
