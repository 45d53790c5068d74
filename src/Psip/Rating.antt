-- ===== src/Psip/Rating.antt =====
-- src/atsc_psip.c: `parse_rrt`, the rating region table.
use tsanalyze.Base.{
  ℕ, zero, suc, ◌+◌, ◌%◌, ◌^◌, Option, none, some, ◌>>=◌, List, Bool, Bytes, read8, read16, drop,
  Heap,
}
use tsanalyze.Descriptor.{Descriptor, parse_descriptors}
use tsanalyze.Table.Header.{TableHeader}
use tsanalyze.Table.Pat.{PatResult, parsed}
use tsanalyze.Psip.Parse.{parse_table}
use tsanalyze.Psip.Text.{TextResult, free_multi_string, parse_multi_string}

-- `atsc_rrt_t`, without `dimensions`, a pointer that is always null.
pub record AtscRrt (D : Type 0) : Type 0 where
  pub rrt_header : TableHeader
  pub protocol_version : ℕ
  pub rating_region_name_length : ℕ
  pub rating_region_name_text : TextResult
  pub dimensions_defined : ℕ
  pub descriptors_length : ℕ
  pub list : List (Descriptor D)

-- The loop over the dimensions: its first round writes through the null pointer.
abbrev pub read_dimensions : ℕ → Option (Unit {0})
read_dimensions zero = some tt
read_dimensions (suc count) = none

module _ {D : Type 0} (parse : ℕ → Bytes → ℕ → Option D) where
  unfoldable pub read_rrt : (Bytes → Bool) → Bytes → AtscRrt D → Option (PatResult × AtscRrt D)
  unfolding parse_multi_string
  read_rrt text_memory pdata t = do
    _ ← free_multi_string t.rating_region_name_text
    version ← read8 pdata 0
    name_len ← read8 pdata 1
    name ← parse_multi_string text_memory (drop 2 pdata)
    count ← read8 pdata (2 + name_len)
    _ ← read_dimensions count
    field ← read16 pdata (2 + name_len + 1)
    let len = field % 2 ^ 10
    ds ← parse_descriptors parse (drop (2 + name_len + 3) pdata) len
    let t' : AtscRrt D = record t {
      protocol_version = version;
      rating_region_name_length = name_len;
      rating_region_name_text = name;
      dimensions_defined = count;
      descriptors_length = len;
      list = ds;
    }
    some (parsed, t')

  unfoldable pub parse_rrt :
      (Bytes → Bool)
      → (ℕ → Option Bytes)
      → Option Bytes
      → ℕ
      → AtscRrt D
      → Heap
      → Option (PatResult × AtscRrt D × Heap)
  unfolding read_rrt
  parse_rrt text_memory =
      parse_table (λ t. t.rrt_header) (λ h t. record t { rrt_header = h }) (read_rrt text_memory)
