-- ===== src/Table/Header/Single.antt =====
-- src/table.c: `parse_section_header` on a table of one section.
use tsanalyze.Base.{
  ℕ, ◌+◌, ◌-◌, ◌%◌, ◌≤◌, ◌<◌, ◌==◌, ◌!=◌, bit_and, bit, bits8, true, false, Option, none, some,
  ◌++◌, Bytes, read8, read16, take, drop, drop_all, length, sub_ℕ, pos, update, replicate, Heap,
  allocate, calloc_size, load, free, copy_to, memcpy, memcpy_lem, length-memcpy, take-length,
  length-drop, lt-length_of_some, length-replicate, ◌≡◌, refl, sym, ◌∙◌, ap, arith, ==_refl, ==_ne,
  lt→ltb,
}
use mathlib.Core.List.{append-nil}
use tsanalyze.Bitmap.{bitmap64_get, bitmap64_full}
use tsanalyze.Bitmap.Laws.{get-set, bitmap64_get-set}
use tsanalyze.Bitmap.Full.{full_zero}
use tsanalyze.Table.Header.{
  TableHeader, SectionNode, done, too_long, parse_section_header, long_section, store_section,
  concat_sections, copy_from, clear_from, clear_sections,
}

-- A block with other contents.
abbrev put_block : ℕ → Option Bytes → Heap → Heap
put_block p b mem = record mem { block = update mem.block p b }

allocate-some :
    (b : Bytes) (mem : Heap)
    → allocate (some b) mem
      ≡ (some mem.next, record { next = mem.next + 1; block = update mem.block mem.next (some b) })
allocate-some b mem = refl

-- To fill a block from its start with as many bytes as it has.
copy_whole :
    (p : ℕ) (b src : Bytes) (mem : Heap)
    → mem.block p ≡ some b
    → length src ≡ length b
    → copy_to (some p) 0 src (length b) mem ≡ some (put_block p (some src) mem)
unfolding copy_to
copy_whole p b src mem at_p same =
    let out : take 0 b ++ take (length b) src ++ drop (0 + length b) b ≡ src =
      ap (λ k. take 0 b ++ take k src ++ drop (0 + length b) b) (sym same)
      ∙ ap (λ l. take 0 b ++ l ++ drop (0 + length b) b) (take-length src)
      ∙ ap (λ l. src ++ l) (drop_all (0 + length b) b (omega arith))
      ∙ append-nil src in
    rw (at_p, memcpy_lem b 0 src (length b) (omega arith) (omega (arith, same)), out) refl

copy_from_one :
    (nodes : ℕ → SectionNode) (mem mem' : Heap) (p ret total : ℕ) (src : Bytes)
    → nodes 0 ≡ record { len = total; ptr = some p }
    → mem.block p ≡ some src
    → 0 < total
    → copy_to (some ret) 0 src total mem ≡ some mem'
    → copy_from 1 0 0 nodes (some ret) total mem ≡ some (total, mem')
unfolding copy_from load
copy_from_one nodes mem mem' p ret total src node at_p some_bytes copied =
    rw (lt→ltb 0 total some_bytes, node, at_p, copied) (ap (λ k. some (k, mem')) (omega arith))

clear_one :
    (nodes : ℕ → SectionNode) (mem : Heap) (p total : ℕ) (src : Bytes)
    → nodes 0 ≡ record { len = total; ptr = some p }
    → mem.block p ≡ some src
    → 0 < total
    → clear_sections nodes 1 mem
      ≡ some (update nodes 0 (record { len = 0; ptr = some p }), put_block p none mem)
unfolding clear_sections clear_from free
clear_one nodes mem p total src node at_p some_bytes =
    let used : (total != 0) ≡ true = ground arith in rw (node, used, at_p) refl

concat_one :
    (malloc : ℕ → Option Bytes) (nodes : ℕ → SectionNode) (mem : Heap) (p total : ℕ)
    (src zeros : Bytes)
    → nodes 0 ≡ record { len = total; ptr = some p }
    → mem.block p ≡ some src
    → length src ≡ total
    → 0 < total
    → p < mem.next
    → calloc_size malloc total ≡ some zeros
    → length zeros ≡ total
    → (nodes' : ℕ → SectionNode) × (mem' : Heap) × (concat_sections malloc nodes total 1 mem
        ≡ some (some mem.next, nodes', mem'))
      × (load (some mem.next) mem' ≡ some src)
unfolding concat_sections load
concat_one malloc nodes mem p total src zeros node at_p sized some_bytes old given zeros_sized =
    let ret = mem.next in
    let mem₁ : Heap = record { next = ret + 1; block = update mem.block ret (some zeros) } in
    let mem₂ = put_block ret (some src) mem₁ in
    let other : (p == ret) ≡ false = ==_ne p ret (λ e. absurd (omega arith)) in
    let at_p₁ : mem₁.block p ≡ some src = rw other at_p in
    let at_p₂ : mem₂.block p ≡ some src = rw other at_p in
    let at_ret : mem₁.block ret ≡ some zeros = rw (==_refl ret) refl in
    let copied : copy_to (some ret) 0 src total mem₁ ≡ some mem₂ =
      ap (λ k. copy_to (some ret) 0 src k mem₁) (sym zeros_sized)
      ∙ copy_whole ret zeros src mem₁ at_ret (sized ∙ sym zeros_sized) in
    let complete : (total != total) ≡ false = ground arith in
    (
      update nodes 0 (record { len = 0; ptr = some p }),
      put_block p none mem₂,
      rw
          (
            given,
            copy_from_one nodes mem₁ mem₂ p ret total src node at_p₁ some_bytes copied,
            complete,
            clear_one nodes mem₂ p total src node at_p₂ some_bytes,
          )
          refl,
      rw (==_ne ret p (λ e. absurd (omega arith)), ==_refl ret) refl,
    )

store_section-single :
    (malloc : ℕ → Option Bytes) (h : TableHeader) (pbuf b : Bytes) (mem : Heap)
    → length pbuf ≡ h.section_length + 3
    → 5 ≤ h.section_length
    → h.section_length ≤ 0x3FD
    → h.last_section_number ≡ 0
    → h.private_data_byte ≡ none
    → 0 < length h.section_bitmap
    → malloc h.section_length ≡ some b
    → length b ≡ h.section_length
    → (h' : TableHeader) × (mem' : Heap) × (store_section malloc h 0 pbuf (h.section_length + 3) mem
        ≡ some (done, h', mem'))
      × (load h'.private_data_byte mem' ≡ some (drop 8 pbuf ++ drop (h.section_length - 5) b))
      × (h'.version_number ≡ h.version_number)
      × (h'.section_length ≡ h.section_length)
      × (h'.table_id ≡ h.table_id)
unfolding store_section copy_to free
store_section-single malloc h pbuf b mem sized long small last no_data words given b_sized =
    let n = h.section_length in
    let (bitmap', marked, same_words, _) = get-set h.section_bitmap 0 0 words words in
    let is_full : bitmap64_full bitmap' 0 ≡ some true =
      full_zero bitmap' (omega (arith, same_words))
      ∙ bitmap64_get-set h.section_bitmap bitmap' 0 0 words words marked in
    let src = drop 8 pbuf in
    let src_sized : length src ≡ n - 5 = omega (arith, length-drop 8 pbuf) in
    let data' = take 0 b ++ take (n - 5) src ++ drop (0 + (n - 5)) b in
    let copied : memcpy b 0 src (n - 5) ≡ some data' =
      memcpy_lem b 0 src (n - 5) (omega arith) (omega arith) in
    let p = mem.next in
    let mem₁ : Heap = record { next = p + 1; block = update mem.block p (some b) } in
    let mem₂ = put_block p (some data') mem₁ in
    let nodes = update h.sections 0 (record { len = n; ptr = some p }) in
    let data_sized : length data' ≡ n = length-memcpy b 0 src (n - 5) data' copied ∙ b_sized in
    let zeroed : calloc_size malloc n ≡ some (replicate n 0) = rw given refl in
    let (nodes', mem₃, joined, kept) =
      concat_one malloc nodes mem₂ p n data' (replicate n 0) refl (rw (==_refl p) refl) data_sized
        (omega arith) (omega arith) zeroed (length-replicate n 0) in
    let room : sub_ℕ (n + 3) 3 ≡ pos n = ground arith in
    let count : sub_ℕ (n + 3) 8 ≡ pos (n - 5) = ground arith in
    let len : (n + 3 + 65536 - 3) % 65536 ≡ n = omega arith in
    (
      record h { section_bitmap = bitmap'; sections = nodes'; private_data_byte = some (p + 1) },
      mem₃,
      rw (marked, room, given, count, ==_refl p, copied, last, is_full, no_data, len, joined) refl,
      kept
          ∙ ap (λ j. some (take 0 b ++ take (n - 5) src ++ drop j b)) (omega arith)
          ∙ ap (λ k. some (take 0 b ++ take k src ++ drop (n - 5) b)) (sym src_sized)
          ∙ ap (λ l. some (l ++ drop (n - 5) b)) (take-length src),
      refl,
      refl,
      refl,
    )

-- Let a table have no data yet and not have section 0, and let `pbuf` be one section of the long
-- syntax, number 0 of 0, of at most 1021 bytes behind its length. If `malloc` gives a block of the
-- size asked for, the section makes the table done at once. The table's data are the bytes behind
-- the eight of the header, and then the last five bytes of that block as `malloc` gave it. The table
-- takes the length and the table id of the section and, as its version, the five bits of the byte
-- of control that follow the first, which are not those of the version.
pub parse_section_header-single :
    (malloc : ℕ → Option Bytes) (h : TableHeader) (pbuf b : Bytes) (mem : Heap)
    (tableid flags field ext control : ℕ)
    → length pbuf ≡ bit_and field 0x0FFF + 3
    → read8 pbuf 0 ≡ some tableid
    → read8 pbuf 1 ≡ some flags
    → read16 pbuf 1 ≡ some field
    → read16 pbuf 3 ≡ some ext
    → read8 pbuf 5 ≡ some control
    → read8 pbuf 6 ≡ some 0
    → read8 pbuf 7 ≡ some 0
    → bit flags 7 ≡ 1
    → bit_and field 0x0FFF ≤ 0x3FD
    → h.private_data_byte ≡ none
    → 0 < length h.section_bitmap
    → bitmap64_get h.section_bitmap 0 ≡ some false
    → malloc (bit_and field 0x0FFF) ≡ some b
    → length b ≡ bit_and field 0x0FFF
    → (h' : TableHeader) × (mem' : Heap) × (parse_section_header malloc
          (some pbuf)
          (bit_and field 0x0FFF + 3)
          h
          mem
        ≡ some (done, h', mem'))
      × (load h'.private_data_byte mem' ≡ some (drop 8 pbuf ++ drop (bit_and field 0x0FFF - 5) b))
      × (h'.version_number ≡ bits8 control 5 1)
      × (h'.section_length ≡ bit_and field 0x0FFF)
      × (h'.table_id ≡ tableid)
unfolding parse_section_header long_section
parse_section_header-single malloc h pbuf b mem tableid flags field ext control sized at0 at1 at1'
      at3 at5 at6 at7 syntax small no_data words unset given b_sized =
    let n = bit_and field 0x0FFF in
    let long : 8 ≤ length pbuf = lt-length_of_some pbuf 7 0 at7 in
    let h₁ : TableHeader = record h {
      section_syntax_indicator = bit flags 7;
      table_id = tableid;
      private_bit = bit flags 6;
      section_length = n;
      version_number = bits8 control 5 1;
      last_section_number = 0;
      table_id_ext = ext;
      current_next_indicator = bit control 0;
    } in
    let (h', mem', stored, kept, version, counted, named) =
      store_section-single malloc h₁ pbuf b mem sized (omega arith) small refl no_data words given
        b_sized in
    let short_enough : too_long (bit flags 7) n ≡ false = ground arith in
    let long_syntax : (bit flags 7 == 0) ≡ false = ground arith in
    (
      h',
      mem',
      rw (at0, at1, at1', short_enough, long_syntax, at3, at5, at6, at7, unset) stored,
      kept,
      version,
      counted,
      named,
    )
