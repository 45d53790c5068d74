-- ===== src/Psip/Channel.antt =====
-- src/atsc_psip.c: `parse_vct`, the virtual channel tables.
pub mod Cable
use tsanalyze.Base.{
  ℕ, ◌+◌, ◌%◌, ◌^◌, ◌>>>◌, bit, if◌then◌else◌, Bool, true, false, Option, none, some, ◌>>=◌, List,
  [], Bytes, read8, read16, read32, replicate, memcpy, drop, Heap,
}
use tsanalyze.Descriptor.{Descriptor, parse_descriptors}
use tsanalyze.Table.Header.{TableHeader}
use tsanalyze.Table.Pat.{PatResult, parsed, out_of_memory}
use tsanalyze.Psip.Parse.{parse_table, entries}

-- `struct define_channel`, with `short_name` as its bytes. The two fields that only a cable table
-- writes are 0 in a block that `calloc` gives.
pub record DefineChannel (D : Type 0) : Type 0 where
  pub short_name : Bytes
  pub major_channel_number : ℕ
  pub minor_channel_number : ℕ
  pub modulation_mode : ℕ
  pub carrier_frequency : ℕ
  pub channel_tsid : ℕ
  pub program_number : ℕ
  pub etm_location : ℕ
  pub access_controlled : ℕ
  pub hidden : ℕ
  pub path_select : ℕ
  pub out_of_band : ℕ
  pub hide_guide : ℕ
  pub service_type : ℕ
  pub source_id : ℕ
  pub descriptors_length : ℕ
  pub list : List (Descriptor D)

-- `atsc_vct_t`
pub record AtscVct (D : Type 0) : Type 0 where
  pub vct_header : TableHeader
  pub protocol_version : ℕ
  pub num_channels_in_section : ℕ
  pub channels : List (DefineChannel D)
  pub additional_descriptors_length : ℕ
  pub list : List (Descriptor D)

-- The bytes of the name that are copied into the fourteen of the field.
abbrev pub name_size : Bool → ℕ
name_size cable = if cable then 112 else 14

abbrev pub name_room : ℕ
name_room = 14

module _ {D : Type 0} (parse : ℕ → Bytes → ℕ → Option D) where
  -- The entry behind its name.
  unfoldable pub read_fields : Bool → Bytes → Bytes → Option (ℕ × DefineChannel D)
  read_fields cable name pdata = do
    numbers ← read32 pdata 0
    frequency ← read32 pdata 4
    tsid ← read16 pdata 8
    program ← read16 pdata 10
    flags ← read16 pdata 12
    source ← read16 pdata 14
    field ← read16 pdata 16
    let len = field % 2 ^ 10
    ds ← parse_descriptors parse (drop 18 pdata) len
    let c : DefineChannel D = record {
      short_name = name;
      major_channel_number = (numbers >>> 18) % 2 ^ 10;
      minor_channel_number = (numbers >>> 8) % 2 ^ 10;
      modulation_mode = numbers % 2 ^ 8;
      carrier_frequency = frequency;
      channel_tsid = tsid;
      program_number = program;
      etm_location = (flags >>> 14) % 2 ^ 2;
      access_controlled = bit flags 13;
      hidden = bit flags 12;
      path_select = if cable then bit flags 11 else 0;
      out_of_band = if cable then bit flags 10 else 0;
      hide_guide = bit flags 9;
      service_type = flags % 2 ^ 6;
      source_id = source;
      descriptors_length = len;
      list = ds;
    }
    some (18 + len, c)

  -- The entry of a round, with its bytes. A copy over the end of the field is a fault.
  unfoldable pub read_channel : Bool → Bytes → Option (ℕ × DefineChannel D)
  unfolding read_fields
  read_channel cable pdata = do
    name ← memcpy (replicate name_room 0) 0 pdata (name_size cable)
    (n, c) ← read_fields cable name (drop (name_size cable) pdata)
    some (name_size cable + n, c)

  unfoldable pub read_vct : Bool → Bool → Bytes → AtscVct D → Option (PatResult × AtscVct D)
  unfolding read_channel entries
  read_vct memory cable pdata v = do
    version ← read8 pdata 0
    count ← read8 pdata 1
    let v' : AtscVct D = record v {
      protocol_version = version;
      num_channels_in_section = count;
      channels = [];
      list = [];
    }
    elim memory [
      | true ↦ (do
        (n, cs) ← entries (read_channel cable) count (drop 2 pdata)
        field ← read16 pdata (2 + n)
        let len = field % 2 ^ 10
        ds ← parse_descriptors parse (drop (2 + n + 2) pdata) len
        some (parsed, record v' { channels = cs; additional_descriptors_length = len; list = ds }))
      | false ↦ some (out_of_memory, v')
    ]

  unfoldable pub parse_vct :
      Bool
      → Bool
      → (ℕ → Option Bytes)
      → Option Bytes
      → ℕ
      → AtscVct D
      → Heap
      → Option (PatResult × AtscVct D × Heap)
  unfolding read_vct
  parse_vct memory cable =
      parse_table (λ v. v.vct_header) (λ h v. record v { vct_header = h }) (read_vct memory cable)
