-- ===== src/Psip/Guide.antt =====
-- src/atsc_psip.c: `parse_mgt`, the master guide table.
pub mod Whole
use tsanalyze.Base.{
  ℕ, ◌+◌, ◌%◌, ◌^◌, Bool, true, false, Option, none, some, ◌>>=◌, List, [], Bytes, read8, read16,
  read32, drop, Heap,
}
use tsanalyze.Descriptor.{Descriptor, parse_descriptors}
use tsanalyze.Table.Header.{TableHeader}
use tsanalyze.Table.Pat.{PatResult, parsed, out_of_memory}
use tsanalyze.Psip.Parse.{parse_table, entries}

-- `struct define_table`
pub record DefineTable (D : Type 0) : Type 0 where
  pub table_type : ℕ
  pub table_type_pid : ℕ
  pub table_type_version_number : ℕ
  pub number_bytes : ℕ
  pub table_type_descriptors_length : ℕ
  pub list : List (Descriptor D)

-- `atsc_mgt_t`, without the unused `crc`.
pub record AtscMgt (D : Type 0) : Type 0 where
  pub mgt_header : TableHeader
  pub protocol_version : ℕ
  pub tables_defined : ℕ
  pub tables : List (DefineTable D)
  pub descriptors_length : ℕ
  pub list : List (Descriptor D)

module _ {D : Type 0} (parse : ℕ → Bytes → ℕ → Option D) where
  -- The entry of a round, with its bytes.
  unfoldable pub read_table : Bytes → Option (ℕ × DefineTable D)
  read_table pdata = do
    type ← read16 pdata 0
    pid ← read16 pdata 2
    version ← read8 pdata 4
    bytes ← read32 pdata 5
    len ← read16 pdata 9
    ds ← parse_descriptors parse (drop 11 pdata) (len % 2 ^ 12)
    let t : DefineTable D = record {
      table_type = type;
      table_type_pid = pid % 2 ^ 13;
      table_type_version_number = version % 2 ^ 5;
      number_bytes = bytes;
      table_type_descriptors_length = len % 2 ^ 12;
      list = ds;
    }
    some (11 + len % 2 ^ 12, t)

  -- `memory` says whether `calloc` gives the tables. What the old ones and their descriptors held is
  -- given back, which nothing here observes.
  unfoldable pub read_mgt : Bool → Bytes → AtscMgt D → Option (PatResult × AtscMgt D)
  unfolding read_table entries
  read_mgt memory pdata m = do
    version ← read8 pdata 0
    count ← read16 pdata 1
    let m' : AtscMgt D = record m {
      protocol_version = version;
      tables_defined = count;
      tables = [];
      list = [];
    }
    elim memory [
      | true ↦ (do
        (n, ts) ← entries read_table count (drop 3 pdata)
        len ← read16 pdata (3 + n)
        ds ← parse_descriptors parse (drop (3 + n + 2) pdata) (len % 2 ^ 12)
        some (parsed, record m' { tables = ts; descriptors_length = len % 2 ^ 12; list = ds }))
      | false ↦ some (out_of_memory, m')
    ]

  unfoldable pub parse_mgt :
      Bool
      → (ℕ → Option Bytes)
      → Option Bytes
      → ℕ
      → AtscMgt D
      → Heap
      → Option (PatResult × AtscMgt D × Heap)
  unfolding read_mgt
  parse_mgt memory =
      parse_table (λ m. m.mgt_header) (λ h m. record m { mgt_header = h }) (read_mgt memory)
