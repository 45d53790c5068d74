-- ===== src/Table/Header.antt =====
-- src/table.c and include/table.h: the header of a table and the sections that came for it.
pub mod Several
pub mod Single
pub mod Section
mod Tests
use tsanalyze.Base.{
  ℕ, zero, suc, ◌+◌, ◌-◌, ◌==◌, ◌!=◌, ltb, if◌then◌else◌, bit_and, ◌^◌, true, false, bit, bits8,
  ◌&&◌, ◌||◌, Bool, Option, none, some, ◌>>=◌, List, [], ◌∷◌, Bytes, read8, read16, drop, u16,
  sub_ℕ, size_of, update, replicate, Pointer, Heap, allocate, malloc_size, calloc_size, load, free,
  copy_to, min,
}
use tsanalyze.Bitmap.{Bitmap, bitmap64_get, bitmap64_set, bitmap64_full}

-- `struct section_node`
pub record SectionNode : Type 0 where
  pub len : ℕ
  pub ptr : Pointer

abbrev pub max_section_num : ℕ
max_section_num = 256

-- `struct table_header`; `section_number` and `crc32` are never used.
pub record TableHeader : Type 0 where
  pub table_id : ℕ
  pub section_syntax_indicator : ℕ
  pub private_bit : ℕ
  pub section_length : ℕ
  pub table_id_ext : ℕ
  pub version_number : ℕ
  pub current_next_indicator : ℕ
  pub last_section_number : ℕ
  pub section_bitmap : Bitmap
  pub sections : ℕ → SectionNode
  pub private_data_byte : Pointer

-- A header of a block that `calloc` gives.
abbrev pub zero_header : TableHeader
zero_header = record {
  table_id = 0;
  section_syntax_indicator = 0;
  private_bit = 0;
  section_length = 0;
  table_id_ext = 0;
  version_number = 0;
  current_next_indicator = 0;
  last_section_number = 0;
  section_bitmap = replicate 4 0;
  sections = λ _. record { len = 0; ptr = none };
  private_data_byte = none;
}

-- The results 0, 1, `NULL_PTR`, `INVALID_SEC_LEN`, `DUPLICATE_DATA` and `ENOMEM`.
pub data HeaderResult : Type 0 where
  done buffering null_pointer invalid_sec_len duplicate_data no_memory : HeaderResult

abbrev pub is_null : Pointer → Bool
is_null none = true
is_null (some _) = false

-- The loop of `clear_sections` from index `i`, with `left` rounds to go.
unfoldable pub clear_from : ℕ → ℕ → (ℕ → SectionNode) → Heap → Option ((ℕ → SectionNode) × Heap)
clear_from zero i nodes mem = some (nodes, mem)
clear_from (suc left) i nodes mem = do
  let node = nodes i
  mem' ← (if node.len != 0 then free node.ptr mem else some mem)
  clear_from left (i + 1) (update nodes i (record node { len = 0 })) mem'

unfoldable pub clear_sections : (ℕ → SectionNode) → ℕ → Heap → Option ((ℕ → SectionNode) × Heap)
unfolding clear_from
clear_sections nodes num mem = clear_from (min num max_section_num) 0 nodes mem

unfoldable pub free_table_header : TableHeader → Heap → Option (TableHeader × Heap)
unfolding clear_sections
free_table_header h mem = do
  mem' ← free h.private_data_byte mem
  (nodes', mem'') ← clear_sections h.sections (h.last_section_number + 1) mem'
  some (record h { sections = nodes' }, mem'')

-- The loop of `concat_sections` from index `i` with `len` bytes copied, and `left` rounds to go.
unfoldable pub copy_from : ℕ → ℕ → ℕ → (ℕ → SectionNode) → Pointer → ℕ → Heap → Option (ℕ × Heap)
copy_from zero i len nodes ret total mem = some (len, mem)
copy_from (suc left) i len nodes ret total mem =
    if ltb len total
    then (do
      src ← load (nodes i).ptr mem
      mem' ← copy_to ret len src (nodes i).len mem
      copy_from left (i + 1) (len + (nodes i).len) nodes ret total mem')
    else some (len, mem)

-- The two tests on the section's length.
abbrev pub too_long : ℕ → ℕ → Bool
too_long syntax section_len =
    (syntax == 1 && ltb 0x3FD section_len) || (syntax == 0 && ltb 0xFFD section_len)

module _ (malloc : ℕ → Option Bytes) where
  unfoldable pub concat_sections :
      (ℕ → SectionNode) → ℕ → ℕ → Heap → Option (Pointer × (ℕ → SectionNode) × Heap)
  unfolding copy_from clear_sections
  concat_sections nodes total num mem =
      let (ret, mem₁) = allocate (calloc_size malloc total) mem in
      if is_null ret then some (none, nodes, mem₁) else do
        (len, mem₂) ← copy_from num 0 0 nodes ret total mem₁
        if len != total
            then (do mem₃ ← free ret mem₂; some (none, nodes, mem₃))
            else (do (nodes', mem₃) ← clear_sections nodes num mem₂; some (ret, nodes', mem₃))

  -- The branch for a section without the long syntax.
  unfoldable pub short_section :
      TableHeader → Bytes → ℕ → Heap → Option (HeaderResult × TableHeader × Heap)
  short_section h pbuf buf_size mem = do
    mem₁ ← free (h.sections 0).ptr mem
    let (p, mem₂) = allocate (malloc_size malloc (sub_ℕ buf_size 3)) mem₁
    let h' : TableHeader = record h {
      sections = update h.sections 0 (record { len = u16 (buf_size + 2 ^ 16 - 3); ptr = p });
    }
    if is_null p then some (no_memory, h', mem₂) else (do
      n ← size_of (sub_ℕ buf_size 3)
      mem₃ ← copy_to p 0 (drop 3 pbuf) n mem₂
      some (done, record h' { private_data_byte = p }, mem₃))

  -- What follows once a section of the long syntax is not a duplicate.
  unfoldable pub store_section :
      TableHeader → ℕ → Bytes → ℕ → Heap → Option (HeaderResult × TableHeader × Heap)
  store_section h cur_sec pbuf buf_size mem = do
    bitmap' ← bitmap64_set h.section_bitmap cur_sec
    let (p, mem₁) = allocate (malloc_size malloc (sub_ℕ buf_size 3)) mem
    let h' : TableHeader = record h {
      section_bitmap = bitmap';
      sections = update h.sections cur_sec (record { len = u16 (buf_size + 2 ^ 16 - 3); ptr = p });
    }
    if is_null p then some (no_memory, h', mem₁) else (do
      n ← size_of (sub_ℕ buf_size 8)
      mem₂ ← copy_to p 0 (drop 8 pbuf) n mem₁
      full ← bitmap64_full bitmap' h.last_section_number
      if full
          then (do
            mem₃ ← free h.private_data_byte mem₂
            (q, nodes', mem₄) ←
                concat_sections h'.sections h.section_length (h.last_section_number + 1) mem₃
            some (done, record h' { sections = nodes'; private_data_byte = q }, mem₄))
          else some (buffering, h', mem₂))

  unfoldable pub long_section :
      TableHeader → Bytes → ℕ → Heap → Option (HeaderResult × TableHeader × Heap)
  long_section h pbuf buf_size mem = do
    table_id_ext' ← read16 pbuf 3
    control ← read8 pbuf 5
    cur_sec ← read8 pbuf 6
    last_sec ← read8 pbuf 7
    let h' : TableHeader = record h {
      version_number = bits8 control 5 1;
      last_section_number = last_sec;
      table_id_ext = table_id_ext';
      current_next_indicator = bit control 0;
    }
    seen ← bitmap64_get h.section_bitmap cur_sec
    if seen then some (duplicate_data, h', mem) else store_section h' cur_sec pbuf buf_size mem

  unfoldable pub parse_section_header :
      Option Bytes → ℕ → TableHeader → Heap → Option (HeaderResult × TableHeader × Heap)
  parse_section_header none buf_size h mem = some (null_pointer, h, mem)
  parse_section_header (some pbuf) buf_size h mem = do
    tableid ← read8 pbuf 0
    flags ← read8 pbuf 1
    field ← read16 pbuf 1
    let section_len = bit_and field 0x0FFF
    let h' : TableHeader = record h {
      section_syntax_indicator = bit flags 7;
      table_id = tableid;
      private_bit = bit flags 6;
      section_length = section_len;
    }
    if too_long (bit flags 7) section_len
        then some (invalid_sec_len, h, mem)
        else if bit flags 7 == 0
        then short_section h' pbuf buf_size mem
        else long_section h' pbuf buf_size mem
