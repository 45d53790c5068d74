-- ===== src/Psip/Change.antt =====
-- src/atsc_psip.c: `parse_dcct` and `parse_dccsct`, the tables of directed channel changes.
use tsanalyze.Base.{
  ℕ, ◌+◌, ◌%◌, ◌^◌, ◌>>>◌, ◌==◌, if◌then◌else◌, bit, Bool, true, false, Option, some, ◌>>=◌, List,
  [], Bytes, read8, read16, read32, read64, drop, Heap,
}
use tsanalyze.Descriptor.{Descriptor, parse_descriptors}
use tsanalyze.Table.Header.{TableHeader}
use tsanalyze.Table.Pat.{PatResult, parsed, out_of_memory}
use tsanalyze.Psip.Parse.{parse_table, entries}
use tsanalyze.Psip.Text.{TextResult, text_size, parse_multi_string}

-- `struct define_dcc_term`
pub record DefineDccTerm (D : Type 0) : Type 0 where
  pub dcc_selection_type : ℕ
  pub dcc_selection_id : ℕ
  pub dcc_term_descriptors_length : ℕ
  pub list : List (Descriptor D)

-- `struct define_dcc_test`
pub record DefineDccTest (D : Type 0) : Type 0 where
  pub dcc_context : ℕ
  pub from_major_channel_number : ℕ
  pub from_minor_channel_number : ℕ
  pub to_major_channel_number : ℕ
  pub to_minor_channel_number : ℕ
  pub dcc_start_time : ℕ
  pub dcc_start_time1 : ℕ
  pub dcc_end_time : ℕ
  pub dcc_terms : List (DefineDccTerm D)
  pub dcc_test_descriptors_length : ℕ
  pub list : List (Descriptor D)

-- `atsc_dcct_t`
pub record AtscDcct (D : Type 0) : Type 0 where
  pub dcct_header : TableHeader
  pub protocol_version : ℕ
  pub dcc_test_count : ℕ
  pub dcc_tests : List (DefineDccTest D)
  pub dcc_additional_descriptors_length : ℕ
  pub list : List (Descriptor D)

-- The union of `struct define_update`, by the type of the update.
pub data UpdateBody : Type 0 where
  genre : ℕ → TextResult → UpdateBody
  state : ℕ → TextResult → UpdateBody
  county : ℕ → ℕ → TextResult → UpdateBody
  unknown : UpdateBody

-- `struct define_update`
pub record DefineUpdate (D : Type 0) : Type 0 where
  pub update_type : ℕ
  pub update_data_length : ℕ
  pub body : UpdateBody
  pub dccsct_descriptors_length : ℕ
  pub list : List (Descriptor D)

-- `atsc_dccsct_t`
pub record AtscDccsct (D : Type 0) : Type 0 where
  pub dccsct_header : TableHeader
  pub protocol_version : ℕ
  pub updates_defined : ℕ
  pub updates : List (DefineUpdate D)
  pub additional_descriptors_length : ℕ
  pub list : List (Descriptor D)

-- The fields of an update by its type, with their bytes.
unfoldable pub read_update_body : (Bytes → Bool) → ℕ → Bytes → Option (ℕ × UpdateBody)
unfolding parse_multi_string
read_update_body text_memory type pdata =
    if type == 1
    then (do
      code ← read8 pdata 0
      name ← parse_multi_string text_memory (drop 1 pdata)
      some (1 + text_size name, genre code name))
    else if type == 2
    then (do
      code ← read8 pdata 0
      name ← parse_multi_string text_memory (drop 1 pdata)
      some (1 + text_size name, state code name))
    else if type == 3
    then (do
      code ← read8 pdata 0
      location ← read16 pdata 1
      name ← parse_multi_string text_memory (drop 3 pdata)
      some (3 + text_size name, county code (location % 2 ^ 10) name))
    else some (0, unknown)

module _ {D : Type 0} (parse : ℕ → Bytes → ℕ → Option D) where
  -- A length of ten bits with the descriptors behind it: their bytes, the length's own among them.
  unfoldable pub read_tail : Bytes → Option (ℕ × ℕ × List (Descriptor D))
  read_tail pdata = do
    field ← read16 pdata 0
    let len = field % 2 ^ 10
    ds ← parse_descriptors parse (drop 2 pdata) len
    some (2 + len, len, ds)

  unfoldable pub read_term : Bytes → Option (ℕ × DefineDccTerm D)
  unfolding read_tail
  read_term pdata = do
    type ← read8 pdata 0
    id ← read64 pdata 1
    (n, len, ds) ← read_tail (drop 9 pdata)
    let t : DefineDccTerm D = record {
      dcc_selection_type = type;
      dcc_selection_id = id;
      dcc_term_descriptors_length = len;
      list = ds;
    }
    some (9 + n, t)

  unfoldable pub read_test : Bytes → Option (ℕ × DefineDccTest D)
  unfolding read_term entries
  read_test pdata = do
    field ← read64 pdata 0
    start ← read16 pdata 8
    end ← read32 pdata 10
    count ← read8 pdata 14
    (n, ts) ← entries read_term count (drop 15 pdata)
    (m, len, ds) ← read_tail (drop (15 + n) pdata)
    let t : DefineDccTest D = record {
      dcc_context = bit field 63;
      from_major_channel_number = (field >>> 50) % 2 ^ 10;
      from_minor_channel_number = (field >>> 40) % 2 ^ 10;
      to_major_channel_number = (field >>> 26) % 2 ^ 10;
      to_minor_channel_number = (field >>> 16) % 2 ^ 10;
      dcc_start_time = field % 2 ^ 16;
      dcc_start_time1 = start;
      dcc_end_time = end;
      dcc_terms = ts;
      dcc_test_descriptors_length = len;
      list = ds;
    }
    some (15 + n + m, t)

  -- `memory` says whether every `calloc` gives its block, or already the first does not.
  unfoldable pub read_dcct : Bool → Bytes → AtscDcct D → Option (PatResult × AtscDcct D)
  unfolding read_test entries read_tail
  read_dcct memory pdata t = do
    version ← read8 pdata 0
    count ← read8 pdata 1
    let t' : AtscDcct D = record t {
      protocol_version = version;
      dcc_test_count = count;
      dcc_tests = [];
    }
    elim memory [
      | true ↦ (do
        (n, ts) ← entries read_test count (drop 2 pdata)
        (_, len, ds) ← read_tail (drop (2 + n) pdata)
        some (
          parsed,
          record t' { dcc_tests = ts; dcc_additional_descriptors_length = len; list = ds },
        ))
      | false ↦ some (out_of_memory, t')
    ]

  unfoldable pub parse_dcct :
      Bool
      → (ℕ → Option Bytes)
      → Option Bytes
      → ℕ
      → AtscDcct D
      → Heap
      → Option (PatResult × AtscDcct D × Heap)
  unfolding read_dcct
  parse_dcct memory =
      parse_table (λ t. t.dcct_header) (λ h t. record t { dcct_header = h }) (read_dcct memory)

  unfoldable pub read_update : (Bytes → Bool) → Bytes → Option (ℕ × DefineUpdate D)
  unfolding read_update_body read_tail
  read_update text_memory pdata = do
    type ← read8 pdata 0
    data_len ← read8 pdata 1
    (n, body') ← read_update_body text_memory type (drop 2 pdata)
    (m, len, ds) ← read_tail (drop (2 + n) pdata)
    let u : DefineUpdate D = record {
      update_type = type;
      update_data_length = data_len;
      body = body';
      dccsct_descriptors_length = len;
      list = ds;
    }
    some (2 + n + m, u)

  unfoldable pub read_dccsct :
      Bool → (Bytes → Bool) → Bytes → AtscDccsct D → Option (PatResult × AtscDccsct D)
  unfolding read_update entries read_tail
  read_dccsct memory text_memory pdata t = do
    version ← read8 pdata 0
    count ← read8 pdata 1
    let t' : AtscDccsct D = record t {
      protocol_version = version;
      updates_defined = count;
      updates = [];
    }
    elim memory [
      | true ↦ (do
        (n, us) ← entries (read_update text_memory) count (drop 2 pdata)
        (_, len, ds) ← read_tail (drop (2 + n) pdata)
        some (parsed, record t' { updates = us; additional_descriptors_length = len; list = ds }))
      | false ↦ some (out_of_memory, t')
    ]

  unfoldable pub parse_dccsct :
      Bool
      → (Bytes → Bool)
      → (ℕ → Option Bytes)
      → Option Bytes
      → ℕ
      → AtscDccsct D
      → Heap
      → Option (PatResult × AtscDccsct D × Heap)
  unfolding read_dccsct
  parse_dccsct memory text_memory =
      parse_table (λ t. t.dccsct_header) (λ h t. record t { dccsct_header = h })
        (read_dccsct memory text_memory)
