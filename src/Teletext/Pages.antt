-- ===== src/Teletext/Pages.antt =====
-- src/teletext.c: the address and the data of a teletext packet, and the pages they are put into.
use tsanalyze.Base.{
  ℕ, zero, suc, ◌+◌, ◌*◌, ◌%◌, ◌^◌, ◌<◌, ◌≤◌, ◌==◌, ltb, ◌&&◌, not, if◌then◌else◌, bit, bit_and,
  bit_or, ◌<<<◌, ◌>>>◌, true, Bool-cases, inl, inr, Option, none, some, ◌>>=◌, [], ◌∷◌, get_or,
  length, Bytes, read8, read8-some, u8, ◌≡◌, refl, ap, ◌∙◌, arith,
}
use tsanalyze.Teletext.{popcount, odd_parity8_test, decode_hamming8_code, hamming8_data}

abbrev pub bits4_lookup : Bytes
bits4_lookup =
    0x0 ∷ 0x8 ∷ 0x4 ∷ 0xc ∷ 0x2 ∷ 0xa ∷ 0x6 ∷ 0xe ∷ 0x1 ∷ 0x9 ∷ 0x5 ∷ 0xd ∷ 0x3 ∷ 0xb ∷ 0x7 ∷ 0xf
    ∷ []

-- The nibbles of a byte index the table, which has an entry for each.
abbrev pub reverse_byte : ℕ → ℕ
reverse_byte n =
    bit_or (u8 (get_or bits4_lookup (bit_and n 0xF) 0 <<< 4)) (get_or bits4_lookup (n >>> 4) 0)

-- `none` is the -1.
unfoldable pub decode_odd_parity : ℕ → Option ℕ
unfolding popcount
decode_odd_parity data' =
    if not (odd_parity8_test data') then none else some (bit_and (reverse_byte data') 0x7F)

-- `HAMMING8_DATA` of what `decode_hamming8_code` returns, whose -1 has all bits.
abbrev pub data_of : Option ℕ → ℕ
data_of none = hamming8_data 0xFF
data_of (some code) = hamming8_data code

abbrev pub digit : ℕ → ℕ
digit code = data_of (decode_hamming8_code code)

-- The static page number, and `g_text` by magazine, page, row and column.
pub record Pages : Type 0 where
  pub page : ℕ
  pub text : ℕ → ℕ → ℕ → ℕ → ℕ

-- A write out of `g_text[8][100][32][40]` is a fault.
unfoldable pub composite_teletext_pages : ℕ → ℕ → ℕ → ℕ → Pages → Option Pages
composite_teletext_pages x y z v s =
    if ltb x 8 && ltb s.page 100 && ltb y 32 && ltb z 40
    then some (record s {
      text = λ x' p' y' z'.
          if x' == x && p' == s.page && y' == y && z' == z then v else s.text x' p' y' z';
    })
    else none

-- The loop over the columns from `z`, `left` to go.
unfoldable pub erase_row : ℕ → ℕ → ℕ → ℕ → Pages → Option Pages
unfolding composite_teletext_pages
erase_row zero x y z s = some s
erase_row (suc left) x y z s = do
  s' ← composite_teletext_pages x y z 0x20 s
  erase_row left x y (z + 1) s'

-- The loop over the rows from `y`, `left` to go.
unfoldable pub erase_rows : ℕ → ℕ → ℕ → Pages → Option Pages
unfolding erase_row
erase_rows zero x y s = some s
erase_rows (suc left) x y s = do s' ← erase_row 40 x y 0 s; erase_rows left x (y + 1) s'

-- -1 becomes 0xFF.
abbrev pub shown : Option ℕ → ℕ
shown none = 0xFF
shown (some c) = c

-- The loop over the bytes of a row from column `z`, `left` to go.
unfoldable pub show_row : ℕ → ℕ → ℕ → ℕ → Bytes → Pages → Option Pages
unfolding composite_teletext_pages decode_odd_parity
show_row zero x y z data' s = some s
show_row (suc left) x y z data' s = do
  b ← read8 data' z
  s' ← composite_teletext_pages x y z (shown (decode_odd_parity b)) s
  show_row left x y (z + 1) data' s'

-- The magazine and the row, by the address and what its first byte decodes to.
abbrev pub row_of : ℕ → ℕ → ℕ
row_of code addr = bit_or (bit (hamming8_data code) 3) (digit (addr % 2 ^ 8) <<< 1)

abbrev pub magazine_of : ℕ → ℕ
magazine_of code = hamming8_data code % 8

-- The header of a page. What else it holds is not used.
unfoldable pub page_header : ℕ → Bytes → Pages → Option Pages
unfolding erase_rows
page_header x data' s = do
  units ← read8 data' 0
  tens ← read8 data' 1
  flags ← read8 data' 3
  _ ← read8 data' 7
  let s' : Pages = record s { page = u8 (digit tens) * 10 + u8 (digit units) }
  if bit (digit flags) 3 == 1 then erase_rows 28 x 1 s' else some s'

-- `parse_teletext_data` with the address decoded.
unfoldable pub packet_data : ℕ → ℕ → Bytes → Pages → Option Pages
unfolding page_header show_row
packet_data x y data' s =
    if y == 0
    then page_header x data' s
    else if ltb 25 y
    then (do _ ← read8 data' 0; some s)
    else show_row 40 x y 0 data' s

-- If the address is not decoded, the row is -1 and the magazine is not set: a fault.
unfoldable pub parse_teletext_data : ℕ → Bytes → Pages → Option Pages
unfolding packet_data
parse_teletext_data addr data' s = do
  code ← decode_hamming8_code ((addr >>> 8) % 2 ^ 8)
  packet_data (magazine_of code) (row_of code addr) data' s

composite_inside :
    (x y z v : ℕ) (s : Pages)
    → x < 8
    → s.page < 100
    → y < 32
    → z < 40
    → (s' : Pages) × (composite_teletext_pages x y z v s ≡ some s') × (s'.page ≡ s.page)
unfolding composite_teletext_pages
composite_inside x y z v s x_in p_in y_in z_in =
    let inside : (ltb x 8 && ltb s.page 100 && ltb y 32 && ltb z 40) ≡ true = ground arith in
    (
      record s {
        text = λ x' p' y' z'.
            if x' == x && p' == s.page && y' == y && z' == z then v else s.text x' p' y' z';
      },
      rw inside refl,
      refl,
    )

erase_row_inside :
    (left x y z : ℕ) (s : Pages)
    → x < 8
    → s.page < 100
    → y < 32
    → z + left ≤ 40
    → (s' : Pages) × (erase_row left x y z s ≡ some s') × (s'.page ≡ s.page)
unfolding erase_row
erase_row_inside zero x y z s x_in p_in y_in z_in = (s, refl, refl)
erase_row_inside (suc left) x y z s x_in p_in y_in z_in =
    let (s₁, ran, same) = composite_inside x y z 0x20 s x_in p_in y_in (omega arith) in
    let (s₂, ran', same') =
      erase_row_inside left x y (z + 1) s₁ x_in (omega (arith, same, p_in)) y_in (omega arith) in
    (s₂, rw ran ran', same' ∙ same)

erase_rows_inside :
    (left x y : ℕ) (s : Pages)
    → x < 8
    → s.page < 100
    → y + left ≤ 32
    → (s' : Pages) × (erase_rows left x y s ≡ some s') × (s'.page ≡ s.page)
unfolding erase_rows
erase_rows_inside zero x y s x_in p_in y_in = (s, refl, refl)
erase_rows_inside (suc left) x y s x_in p_in y_in =
    let (s₁, ran, same) = erase_row_inside 40 x y 0 s x_in p_in (omega arith) (omega arith) in
    let (s₂, ran', same') =
      erase_rows_inside left x (y + 1) s₁ x_in (omega (arith, same, p_in)) (omega arith) in
    (s₂, rw ran ran', same' ∙ same)

show_row_inside :
    (left x y z : ℕ) (data' : Bytes) (s : Pages)
    → x < 8
    → s.page < 100
    → y < 32
    → z + left ≤ 40
    → length data' ≡ 40
    → (s' : Pages) × (show_row left x y z data' s ≡ some s') × (s'.page ≡ s.page)
unfolding show_row
show_row_inside zero x y z data' s x_in p_in y_in z_in sized = (s, refl, refl)
show_row_inside (suc left) x y z data' s x_in p_in y_in z_in sized =
    let (b, at) = read8-some data' z (omega (arith, sized)) in
    let (s₁, ran, same) =
      composite_inside x y z (shown (decode_odd_parity b)) s x_in p_in y_in (omega arith) in
    let (s₂, ran', same') =
      show_row_inside left x y (z + 1) data' s₁ x_in (omega (arith, same, p_in)) y_in (omega arith)
        sized in
    (s₂, rw (at, ran) ran', same' ∙ same)

header_inside :
    (x : ℕ) (data' : Bytes) (s : Pages) (units tens : ℕ)
    → x < 8
    → length data' ≡ 40
    → read8 data' 0 ≡ some units
    → read8 data' 1 ≡ some tens
    → u8 (digit tens) * 10 + u8 (digit units) < 100
    → (s' : Pages) × (page_header x data' s ≡ some s') × (s'.page < 100)
unfolding page_header
header_inside x data' s units tens x_in sized at₀ at₁ small =
    let (flags, at₃) = read8-some data' 3 (omega (arith, sized)) in
    let (_, at₇) = read8-some data' 7 (omega (arith, sized)) in
    let s' : Pages = record s { page = u8 (digit tens) * 10 + u8 (digit units) } in
    let (s₂, ran, same) = erase_rows_inside 28 x 1 s' x_in small (omega arith) in
    elim (Bool-cases (bit (digit flags) 3 == 1)) [
      | inl set ↦ (s₂, rw (at₀, at₁, at₃, at₇, set) ran, omega (arith, same, small))
      | inr clear ↦ (s', rw (at₀, at₁, at₃, at₇, clear) refl, small)
    ]

packet_data_inside :
    (x y : ℕ) (data' : Bytes) (s : Pages) (units tens : ℕ)
    → x < 8
    → length data' ≡ 40
    → s.page < 100
    → read8 data' 0 ≡ some units
    → read8 data' 1 ≡ some tens
    → (y ≡ 0 → u8 (digit tens) * 10 + u8 (digit units) < 100)
    → (s' : Pages) × (packet_data x y data' s ≡ some s') × (s'.page < 100)
unfolding packet_data
packet_data_inside x y data' s units tens x_in sized p_in at₀ at₁ small =
    elim (Bool-cases (y == 0)) [
      | inl top ↦
          (let (s', ran, inside) =
              header_inside x data' s units tens x_in sized at₀ at₁ (small (ground (arith, top))) in
            (s', rw top ran, inside))
      | inr other ↦ (elim (Bool-cases (ltb 25 y)) [
        | inl above ↦ (s, rw (other, above, at₀) refl, p_in)
        | inr below ↦
            (let (s', ran, same) =
                show_row_inside 40 x y 0 data' s x_in p_in (ground (arith, below)) (omega arith)
                  sized in
              (s', rw (other, below) ran, omega (arith, same, p_in)))
      ])
    ]

-- A packet of 40 bytes whose address is decoded writes inside the text buffer and leaves a page
-- number below 100, if the number was below 100 and, in a header, the two digits give one.
pub parse_teletext_data-some :
    (addr code : ℕ) (data' : Bytes) (s : Pages) (units tens : ℕ)
    → decode_hamming8_code ((addr >>> 8) % 2 ^ 8) ≡ some code
    → length data' ≡ 40
    → s.page < 100
    → read8 data' 0 ≡ some units
    → read8 data' 1 ≡ some tens
    → (row_of code addr ≡ 0 → u8 (digit tens) * 10 + u8 (digit units) < 100)
    → (s' : Pages) × (parse_teletext_data addr data' s ≡ some s') × (s'.page < 100)
unfolding parse_teletext_data
parse_teletext_data-some addr code data' s units tens decoded sized p_in at₀ at₁ small =
    let (s', ran, inside) =
      packet_data_inside (magazine_of code) (row_of code addr) data' s units tens (omega arith)
        sized p_in at₀ at₁ small in
    (
      s',
      ap (λ o. o >>= λ c. packet_data (magazine_of c) (row_of c addr) data' s) decoded ∙ ran,
      inside,
    )
