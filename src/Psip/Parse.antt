-- ===== src/Psip/Parse.antt =====
-- src/atsc_psip.c: what the parsers share: the call of `parse_section_header` before the fields are
-- read, and the loop over a given number of entries.
use tsanalyze.Base.{
  ℕ, zero, suc, ◌+◌, ◌≤◌, Option, some, ◌>>=◌, List, [], ◌∷◌, ◌++◌, map, length, length-append,
  drop, drop-append_length, Bytes, Heap, load, ◌≡◌, refl, ap, ◌∙◌, arith,
}
use mathlib.Core.List.{append_assoc}
use tsanalyze.Table.Header.{TableHeader, done, parse_section_header}
use tsanalyze.Table.Header.Section.{section_bytes, IsFresh, parse_section_header-section_bytes}
use tsanalyze.Table.Pat.{PatResult, not_done, contents}
use tsanalyze.Scte.Command.Parts.{Reads}

-- A parser of a table: `header_of` and `put_header` are its header's field, and `read` what follows
-- once the table is whole.
module _ {T : Type 0} (header_of : T → TableHeader) (put_header : TableHeader → T → T)
    (read : Bytes → T → Option (PatResult × T)) (malloc : ℕ → Option Bytes) where
  abbrev pub parse_table : Option Bytes → ℕ → T → Heap → Option (PatResult × T × Heap)
  parse_table pbuf buf_size t mem = do
    (ret, header', mem') ← parse_section_header malloc pbuf buf_size (header_of t) mem
    elim ret [
      | done ↦ (do
        (result, t') ← read (contents (load header'.private_data_byte mem')) (put_header header' t)
        some (result, t', mem'))
      | other ↦ some (not_done other, put_header header' t, mem')
    ]

  parse_table_lem :
      (pbuf data' : Bytes) (buf_size : ℕ) (t : T) (h' : TableHeader) (mem mem' : Heap)
      → parse_section_header malloc (some pbuf) buf_size (header_of t) mem ≡ some (done, h', mem')
      → load h'.private_data_byte mem' ≡ some data'
      → parse_table (some pbuf) buf_size t mem
        ≡ (read data' (put_header h' t) >>= λ k. some (k.0, k.1, mem'))
  parse_table_lem pbuf data' buf_size t h' mem mem' ran kept = rw (ran, kept) refl

  -- On a table of one section by the standard the fields are read from its body.
  pub parse_table-section_bytes :
      (t : T) (tid ext control : ℕ) (body crc b : Bytes) (mem : Heap)
      → IsFresh (header_of t)
      → length body ≤ 1012
      → length crc ≡ 4
      → malloc (9 + length body) ≡ some b
      → length b ≡ 9 + length body
      → (h' : TableHeader) × (mem' : Heap) × (five : Bytes) × (h'.section_length ≡ 9 + length body)
        × (parse_table (some (section_bytes tid ext control body crc)) (9 + length body + 3) t mem
            ≡ (read (body ++ (crc ++ five)) (put_header h' t) >>= λ k. some (k.0, k.1, mem')))
  parse_table-section_bytes t tid ext control body crc b mem fresh few four given sized =
      let (h', mem', five, ran, kept, _, counted, _) =
        parse_section_header-section_bytes malloc (header_of t) tid ext control body crc b mem fresh
          few four given sized in
      (
        h',
        mem',
        five,
        counted,
        parse_table_lem (section_bytes tid ext control body crc) (body ++ (crc ++ five))
            (9 + length body + 3) t h' mem mem' ran kept,
      )

-- The loop over `count` entries, with the bytes that they took.
module _ {N : Type 0} (read : Bytes → Option (ℕ × N)) where
  unfoldable pub entries : ℕ → Bytes → Option (ℕ × List N)
  entries zero pdata = some (0, [])
  entries (suc count) pdata = do
    (n, e) ← read pdata
    (m, later) ← entries count (drop n pdata)
    some (n + m, e ∷ later)

  entries-step :
      (count n m : ℕ) (pdata : Bytes) (e : N) (later : List N)
      → read pdata ≡ some (n, e)
      → entries count (drop n pdata) ≡ some (m, later)
      → entries (suc count) pdata ≡ some (n + m, e ∷ later)
  unfolding entries
  entries-step count n m pdata e later at rest = rw (at, rest) refl

  module _ {E : Type 0} (encode_one : E → Bytes) (value : E → N) where
    abbrev pub encode : List E → Bytes
    encode [] = []
    encode (e ∷ es) = encode_one e ++ encode es

    abbrev pub AllRead : List E → Type 0
    AllRead [] = Unit {0}
    AllRead (e ∷ es) = Reads read (encode_one e) (value e) × AllRead es

    pub entries-encode :
        (es : List E) → AllRead es → Reads (entries (length es)) (encode es) (map value es)
    unfolding entries
    entries-encode [] ok rest = refl
    entries-encode (e ∷ es) ok rest =
        let one = encode_one e in
        let joined : (one ++ encode es) ++ rest ≡ one ++ (encode es ++ rest) =
          append_assoc one (encode es) rest in
        let pdata = (one ++ encode es) ++ rest in
        let behind : drop (length one) pdata ≡ encode es ++ rest =
          ap (drop (length one)) joined ∙ drop-append_length one (encode es ++ rest) in
        entries-step (length es) (length one) (length (encode es)) pdata (value e) (map value es)
          (ap read joined ∙ ok.0 (encode es ++ rest))
          (ap (entries (length es)) behind ∙ entries-encode es ok.1 rest)
        ∙ ap (λ k. some (k, map value (e ∷ es))) (omega (arith, length-append one (encode es)))
