-- ===== src/Table/Header/Several.antt =====
-- src/table.c: `parse_section_header` on a table of several sections.
use tsanalyze.Base.{
  ℕ, ◌+◌, ◌-◌, ◌/◌, ◌^◌, ◌<◌, ◌==◌, bit_and, bit, false, Option, some, Bytes, read8, read16, drop,
  length, u16, sub_ℕ, size_of, update, Heap, allocate, malloc_size, copy_to, get_or, get_elem?, set,
  length-set, get_or-set_ne, bit_or, subst, bind-some, cond-true, cond-false, ◌≡◌, ◌≢◌, sym, ◌∙◌,
  ap, arith, Bool-cases, inl, inr,
}
use tsanalyze.Bitmap.{Bitmap, bit_mask, bitmap64_get, bitmap64_set, bitmap64_full}
use tsanalyze.Bitmap.Full.{full_small}
use tsanalyze.Table.Header.{
  TableHeader, HeaderResult, done, buffering, no_memory, invalid_sec_len, too_long, duplicate_data,
  parse_section_header, long_section, store_section, is_null,
}

-- Word `last` of the bitmap is empty.
pub record IsWaiting (last : ℕ) (h : TableHeader) : Type 0 where
  pub four_words : length h.section_bitmap ≡ 4
  pub word_empty : get_or h.section_bitmap last 0 ≡ 0

set-other_word :
    (bitmap bitmap' : Bitmap) (i k : ℕ)
    → bitmap64_set bitmap i ≡ some bitmap'
    → i / 64 ≢ k
    → (length bitmap' ≡ length bitmap) × (get_or bitmap' k 0 ≡ get_or bitmap k 0)
unfolding bitmap64_set
set-other_word bitmap bitmap' i k ran other =
    let (word, at_i, written) = bind-some (get_elem? bitmap (i / 64)) _ ran in
    let w = bit_or word (bit_mask i) in
    let same : set bitmap (i / 64) w ≡ bitmap' = cc written in
    (
      ap length (sym same) ∙ length-set bitmap (i / 64) w,
      ap (λ b. get_or b k 0) (sym same) ∙ get_or-set_ne bitmap (i / 64) k w 0 other,
    )

returned :
    (last : ℕ) (q r : HeaderResult) (h h' : TableHeader) (mem mem' : Heap)
    → q ≢ done
    → IsWaiting last h
    → ◌≡◌ {A = Option (HeaderResult × TableHeader × Heap)} (some (q, h, mem)) (some (r, h', mem'))
    → (r ≢ done) × IsWaiting last h'
returned last q r h h' mem mem' ne w e =
    let same : q ≡ r = cc e in
    let same_header : h ≡ h' = cc e in
    (λ is_done. ne (same ∙ is_done), subst (λ k. IsWaiting last k) same_header w)

buffering-ne-done : buffering ≢ done
buffering-ne-done e = ground arith

no_memory-ne-done : no_memory ≢ done
no_memory-ne-done e = ground arith

duplicate_data-ne-done : duplicate_data ≢ done
duplicate_data-ne-done e = ground arith

invalid_sec_len-ne-done : invalid_sec_len ≢ done
invalid_sec_len-ne-done e = ground arith

store_section-IsWaiting :
    (malloc : ℕ → Option Bytes) (h h' : TableHeader) (cur_sec buf_size : ℕ) (pbuf : Bytes)
    (mem mem' : Heap) (r : HeaderResult)
    → 0 < h.last_section_number
    → h.last_section_number < 4
    → cur_sec < 64
    → IsWaiting h.last_section_number h
    → store_section malloc h cur_sec pbuf buf_size mem ≡ some (r, h', mem')
    → (r ≢ done) × IsWaiting h.last_section_number h'
unfolding store_section
store_section-IsWaiting malloc h h' cur_sec buf_size pbuf mem mem' r several small first w ran =
    let (bitmap', marked, ran₁) = bind-some (bitmap64_set h.section_bitmap cur_sec) _ ran in
    let (same_length, same_word) =
      set-other_word h.section_bitmap bitmap' cur_sec h.last_section_number marked (omega arith) in
    let empty : get_or bitmap' h.last_section_number 0 ≡ 0 = same_word ∙ w.word_empty in
    let waits : bitmap64_full bitmap' h.last_section_number ≡ some false =
      full_small bitmap' h.last_section_number several (omega arith)
        (omega (arith, same_length, w.four_words)) empty in
    let p = (allocate (malloc_size malloc (sub_ℕ buf_size 3)) mem).0 in
    let still : IsWaiting h.last_section_number (record h {
      section_bitmap = bitmap';
      sections = update h.sections cur_sec (record { len = u16 (buf_size + 2 ^ 16 - 3); ptr = p });
    }) =
      record { four_words = same_length ∙ w.four_words; word_empty = empty } in
    elim (Bool-cases (is_null (allocate (malloc_size malloc (sub_ℕ buf_size 3)) mem).0)) [
      | inl failed ↦
          returned h.last_section_number no_memory r _ h' _ mem' no_memory-ne-done still
            (cond-true _ _ failed ran₁)
      | inr given ↦
          let ran₂ = cond-false _ _ given ran₁ in
          let (n, _, ran₃) = bind-some (size_of (sub_ℕ buf_size 8)) _ ran₂ in
          let (mem₂, _, ran₄) =
            bind-some
              (copy_to (allocate (malloc_size malloc (sub_ℕ buf_size 3)) mem).0 0 (drop 8 pbuf) n
                (allocate (malloc_size malloc (sub_ℕ buf_size 3)) mem).1)
              _ ran₃ in
          let (full, asked, ran₅) =
            bind-some (bitmap64_full bitmap' h.last_section_number) _ ran₄ in
          let not_full : full ≡ false = cc (asked, waits) in
          let ran₆ = cond-false _ _ not_full ran₅ in
          returned h.last_section_number buffering r _ h' _ mem' buffering-ne-done still ran₆
    ]

long_section-IsWaiting :
    (malloc : ℕ → Option Bytes) (h h' : TableHeader) (pbuf : Bytes) (buf_size : ℕ) (mem mem' : Heap)
    (r : HeaderResult) (cur_sec last : ℕ)
    → read8 pbuf 6 ≡ some cur_sec
    → cur_sec < 64
    → read8 pbuf 7 ≡ some last
    → 0 < last
    → last < 4
    → IsWaiting last h
    → long_section malloc h pbuf buf_size mem ≡ some (r, h', mem')
    → (r ≢ done) × IsWaiting last h'
unfolding long_section
long_section-IsWaiting malloc h h' pbuf buf_size mem mem' r cur_sec last at6 first at7 several small
      w ran =
    let (ext, _, ran₁) = bind-some (read16 pbuf 3) _ ran in
    let (control, _, ran₂) = bind-some (read8 pbuf 5) _ ran₁ in
    let (cur', at6', ran₃) = bind-some (read8 pbuf 6) _ ran₂ in
    let (last', at7', ran₄) = bind-some (read8 pbuf 7) _ ran₃ in
    let (seen, _, ran₅) = bind-some (bitmap64_get h.section_bitmap cur') _ ran₄ in
    let same_cur : cur' ≡ cur_sec = cc (at6, at6') in
    let same_last : last' ≡ last = cc (at7, at7') in
    let w' : IsWaiting last' h = subst (λ k. IsWaiting k h) (sym same_last) w in
    elim (Bool-cases seen) [
      | inl duplicate ↦
          returned last duplicate_data r _ h' mem mem' duplicate_data-ne-done
            (record { four_words = w.four_words; word_empty = w.word_empty })
            (cond-true _ _ duplicate ran₅)
      | inr fresh ↦
          subst (λ k. (r ≢ done) × IsWaiting k h') same_last
            (store_section-IsWaiting malloc _ h' cur' buf_size pbuf mem mem' r
              (omega (arith, same_last)) (omega (arith, same_last)) (omega (arith, same_cur))
              (record { four_words = w'.four_words; word_empty = w'.word_empty })
              (cond-false _ _ fresh ran₅))
    ]

-- Let the last section have a number from 1 to 3, and let word `last` of the bitmap be empty. A
-- section of the long syntax with a number below 64 and that last section then is never the one
-- that makes the table done, and the word stays empty, so no sequence of such sections does.
pub parse_section_header-IsWaiting :
    (malloc : ℕ → Option Bytes) (h h' : TableHeader) (pbuf : Bytes) (buf_size : ℕ) (mem mem' : Heap)
    (r : HeaderResult) (flags cur_sec last : ℕ)
    → read8 pbuf 1 ≡ some flags
    → bit flags 7 ≡ 1
    → read8 pbuf 6 ≡ some cur_sec
    → cur_sec < 64
    → read8 pbuf 7 ≡ some last
    → 0 < last
    → last < 4
    → IsWaiting last h
    → parse_section_header malloc (some pbuf) buf_size h mem ≡ some (r, h', mem')
    → (r ≢ done) × IsWaiting last h'
unfolding parse_section_header
parse_section_header-IsWaiting malloc h h' pbuf buf_size mem mem' r flags cur_sec last at1 syntax
      at6 first at7 several small w ran =
    let (tableid, _, ran₁) = bind-some (read8 pbuf 0) _ ran in
    let (flags', at1', ran₂) = bind-some (read8 pbuf 1) _ ran₁ in
    let (field, _, ran₃) = bind-some (read16 pbuf 1) _ ran₂ in
    let same : flags' ≡ flags = cc (at1, at1') in
    let long : (bit flags' 7 == 0) ≡ false = ground (arith, same, syntax) in
    elim (Bool-cases (too_long (bit flags' 7) (bit_and field 0x0FFF))) [
      | inl refused ↦
          returned last invalid_sec_len r h h' mem mem' invalid_sec_len-ne-done w
            (cond-true _ _ refused ran₃)
      | inr accepted ↦
          long_section-IsWaiting malloc
            (record h {
              section_syntax_indicator = bit flags' 7;
              table_id = tableid;
              private_bit = bit flags' 6;
              section_length = bit_and field 0x0FFF;
            })
            h' pbuf buf_size mem mem' r cur_sec last at6 first at7 several small
            (record { four_words = w.four_words; word_empty = w.word_empty })
            (cond-false _ _ long (cond-false _ _ accepted ran₃))
    ]
