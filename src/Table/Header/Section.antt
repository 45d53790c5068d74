-- ===== src/Table/Header/Section.antt =====
-- src/table.c: `parse_section_header` on a section of the long syntax with any body, number 0 of 0.
use tsanalyze.Base.{
  ℕ, ◌+◌, ◌-◌, ◌*◌, ◌/◌, ◌%◌, ◌≤◌, ◌<◌, false, Option, none, some, ◌∷◌, ◌++◌, length, length-append,
  drop, length-drop, Bytes, bit_and, bit_or, ◌<<<◌, read16, Heap, load, ◌≡◌, refl, sym, ap, subst,
  ◌∙◌, arith,
}
use mathlib.Core.List.{append_assoc}
use tsanalyze.Base.Bits.{bit_or_fields, bit_and_mask}
use tsanalyze.Bitmap.{bitmap64_get}
use tsanalyze.Table.Header.{TableHeader, done, parse_section_header}
use tsanalyze.Table.Header.Single.{parse_section_header-single}

-- The section by the standard, with its checksum `crc` of four bytes.
abbrev pub section_bytes : ℕ → ℕ → ℕ → Bytes → Bytes → Bytes
section_bytes tid ext control body crc =
    let n = 9 + length body in
    tid ∷ (0xB0 + n / 256) ∷ (n % 256) ∷ (ext / 256) ∷ (ext % 256) ∷ control ∷ 0 ∷ 0 ∷ (body ++ crc)

-- What a field of two bytes that ends in twelve bits reads as.
pub field12_lem :
    (high n : ℕ) → n < 4096 → bit_and (bit_or ((high * 16 + n / 256) <<< 8) (n % 256)) 0x0FFF ≡ n
field12_lem high n small =
    let field = bit_or ((high * 16 + n / 256) <<< 8) (n % 256) in
    bit_and_mask 12 field
    ∙ omega (arith, bit_or_fields 8 (high * 16 + n / 256) (n % 256) (omega arith))

-- No section of the table came before.
pub record IsFresh (h : TableHeader) : Type 0 where
  pub no_data : h.private_data_byte ≡ none
  pub words : 0 < length h.section_bitmap
  pub unset : bitmap64_get h.section_bitmap 0 ≡ some false

-- The section makes its table done, and the table's data are its body, its checksum and five bytes.
pub parse_section_header-section_bytes :
    (malloc : ℕ → Option Bytes) (h : TableHeader) (tid ext control : ℕ) (body crc b : Bytes)
    (mem : Heap)
    → IsFresh h
    → length body ≤ 1012
    → length crc ≡ 4
    → malloc (9 + length body) ≡ some b
    → length b ≡ 9 + length body
    → (h' : TableHeader) × (mem' : Heap) × (five : Bytes) × (parse_section_header malloc
          (some (section_bytes tid ext control body crc))
          (9 + length body + 3)
          h
          mem
        ≡ some (done, h', mem'))
      × (load h'.private_data_byte mem' ≡ some (body ++ (crc ++ five)))
      × (length five ≡ 5)
      × (h'.section_length ≡ 9 + length body)
      × (h'.table_id ≡ tid)
unfolding read16
parse_section_header-section_bytes malloc h tid ext control body crc b mem fresh few four given
      b_sized =
    let n = 9 + length body in
    let pbuf = section_bytes tid ext control body crc in
    let field = bit_or ((0xB0 + n / 256) <<< 8) (n % 256) in
    let measured : bit_and field 0x0FFF ≡ n = field12_lem 11 n (omega arith) in
    let sized : length pbuf ≡ n + 3 = omega (arith, length-append body crc, four) in
    let (h', mem', ran, kept, _, counted, named) =
      parse_section_header-single malloc h pbuf b mem tid (0xB0 + n / 256) field
        (bit_or ((ext / 256) <<< 8) (ext % 256)) control (omega (arith, sized, measured)) refl refl
        refl refl refl refl refl (omega arith) (omega (arith, measured)) fresh.no_data fresh.words
        fresh.unset (ap malloc measured ∙ given) (b_sized ∙ sym measured) in
    (
      h',
      mem',
      drop (bit_and field 0x0FFF - 5) b,
      subst (λ k. parse_section_header malloc (some pbuf) (k + 3) h mem ≡ some (done, h', mem'))
          measured ran,
      kept ∙ ap some (append_assoc body crc (drop (bit_and field 0x0FFF - 5) b)),
      omega (arith, length-drop (bit_and field 0x0FFF - 5) b, measured, b_sized),
      counted ∙ measured,
      named,
    )
