-- ===== src/Psip/Guide/Whole.antt =====
-- src/atsc_psip.c: `parse_mgt` on a whole table of one section.
use tsanalyze.Base.{
  ℕ, ◌+◌, ◌*◌, ◌%◌, ◌^◌, ◌≤◌, ◌<◌, true, Option, some, ◌>>=◌, List, [], ◌∷◌, ◌++◌, map, length,
  drop, drop-append_length, drop-add, Bytes, read8, read16, read32, read16-drop, Heap, ◌≡◌, refl,
  ap, ◌∙◌, arith,
}
use mathlib.Core.List.{append_assoc}
use tsanalyze.Descriptor.{Descriptor, parse_descriptors}
use tsanalyze.Table.Header.{TableHeader}
use tsanalyze.Table.Header.Section.{section_bytes, IsFresh}
use tsanalyze.Table.Pat.{parsed}
use tsanalyze.Scte.Command.Parts.{Reads, big_endian32, word_lem}
use tsanalyze.Ps.Map.Whole.{word16, word16_lem}
use tsanalyze.Psip.Parse.{parse_table-section_bytes, entries, encode, AllRead, entries-encode}
use tsanalyze.Psip.Guide.{DefineTable, AtscMgt, read_table, read_mgt, parse_mgt}

-- A table that the guide names, with the bytes of its descriptors and what they stand for.
pub record Named (D : Type 0) : Type 0 where
  pub type : ℕ
  pub reserved : ℕ
  pub pid : ℕ
  pub reserved1 : ℕ
  pub version : ℕ
  pub number_bytes : ℕ
  pub reserved2 : ℕ
  pub info : Bytes
  pub descriptors : List (Descriptor D)

-- The guide, with its own descriptors.
pub record Guide (D : Type 0) : Type 0 where
  pub protocol_version : ℕ
  pub tables : List (Named D)
  pub reserved : ℕ
  pub info : Bytes
  pub descriptors : List (Descriptor D)

module _ {D : Type 0} (parse : ℕ → Bytes → ℕ → Option D) where
  abbrev pub encode_named : Named D → Bytes
  encode_named t =
      word16 t.type
      ++ (word16 (t.reserved * 2 ^ 13 + t.pid)
          ++ ((t.reserved1 * 32 + t.version)
              ∷ (big_endian32 t.number_bytes
                  ++ (word16 (t.reserved2 * 2 ^ 12 + length t.info) ++ t.info))))

  abbrev pub table_of : Named D → DefineTable D
  table_of t = record {
    table_type = t.type;
    table_type_pid = t.pid;
    table_type_version_number = t.version;
    number_bytes = t.number_bytes;
    table_type_descriptors_length = length t.info;
    list = t.descriptors;
  }

  abbrev tables_bytes : List (Named D) → Bytes
  tables_bytes = encode (read_table parse) encode_named table_of

  abbrev pub encode_mgt : Guide D → Bytes
  encode_mgt g =
      g.protocol_version
      ∷ (word16 (length g.tables)
          ++ (tables_bytes g.tables ++ (word16 (g.reserved * 2 ^ 12 + length g.info) ++ g.info)))

  abbrev pub mgt_of : TableHeader → Guide D → AtscMgt D
  mgt_of h g = record {
    mgt_header = h;
    protocol_version = g.protocol_version;
    tables_defined = length g.tables;
    tables = map table_of g.tables;
    descriptors_length = length g.info;
    list = g.descriptors;
  }

  abbrev pub ReadsBack : Bytes → List (Descriptor D) → Type 0
  ReadsBack info ds =
      (rest : Bytes) → parse_descriptors parse (info ++ rest) (length info) ≡ some ds

  pub record IsNamed (t : Named D) : Type 0 where
    pub pid_bits : t.pid < 2 ^ 13
    pub version_bits : t.version < 32
    pub info_bits : length t.info < 2 ^ 12
    pub read : ReadsBack t.info t.descriptors

  abbrev pub AreNamed : List (Named D) → Type 0
  AreNamed [] = Unit {0}
  AreNamed (t ∷ ts) = IsNamed t × AreNamed ts

  pub record IsGuide (g : Guide D) : Type 0 where
    pub tables : AreNamed g.tables
    pub info_bits : length g.info < 2 ^ 12
    pub read : ReadsBack g.info g.descriptors

  named_lem : (t : Named D) → IsNamed t → Reads (read_table parse) (encode_named t) (table_of t)
  unfolding read_table read16 read32
  named_lem t ok rest =
      let n = length t.info in
      let pid_field = t.reserved * 2 ^ 13 + t.pid in
      let field = t.reserved2 * 2 ^ 12 + n in
      let pid_read : pid_field % 2 ^ 13 ≡ t.pid = omega (arith, ok.pid_bits) in
      let version_read : (t.reserved1 * 32 + t.version) % 2 ^ 5 ≡ t.version =
        omega (arith, ok.version_bits) in
      let len_read : field % 2 ^ 12 ≡ n = omega (arith, ok.info_bits) in
      let total : 11 + n ≡ length (encode_named t) = omega arith in
      rw
        (
          word16_lem t.type,
          word16_lem pid_field,
          word_lem t.number_bytes,
          word16_lem field,
          len_read,
          ok.read rest,
          pid_read,
          version_read,
        )
        (ap (λ k. some (k, table_of t)) total)

  named_AllRead :
      (ts : List (Named D)) → AreNamed ts → AllRead (read_table parse) encode_named table_of ts
  named_AllRead [] ok = ok
  named_AllRead (t ∷ ts) ok = (named_lem t ok.0, named_AllRead ts ok.1)

  read_mgt_lem :
      (pdata : Bytes) (m : AtscMgt D) (version count n field k : ℕ) (ts : List (DefineTable D))
      (ds : List (Descriptor D))
      → read8 pdata 0 ≡ some version
      → read16 pdata 1 ≡ some count
      → entries (read_table parse) count (drop 3 pdata) ≡ some (n, ts)
      → read16 pdata (3 + n) ≡ some field
      → field % 2 ^ 12 ≡ k
      → parse_descriptors parse (drop (3 + n + 2) pdata) k ≡ some ds
      → read_mgt parse true pdata m
        ≡ some (
          parsed,
          record m {
            protocol_version = version;
            tables_defined = count;
            tables = ts;
            descriptors_length = k;
            list = ds;
          },
        )
  unfolding read_mgt
  read_mgt_lem pdata m version count n field k ts ds at0 at1 listed at_end measured read =
      rw (at0, at1, listed, at_end, measured, read) refl

  read_mgt-encode :
      (m : AtscMgt D) (g : Guide D) (rest : Bytes)
      → IsGuide g
      → read_mgt parse true (encode_mgt g ++ rest) m ≡ some (parsed, mgt_of m.mgt_header g)
  unfolding read16
  read_mgt-encode m g rest ok =
      let tables = tables_bytes g.tables in
      let n = length tables in
      let field = g.reserved * 2 ^ 12 + length g.info in
      let end = word16 field ++ g.info in
      let pdata = encode_mgt g ++ rest in
      let joined : (tables ++ end) ++ rest ≡ tables ++ (end ++ rest) =
        append_assoc tables end rest in
      let behind : drop (3 + n) pdata ≡ end ++ rest =
        drop-add 3 n pdata ∙ ap (drop n) joined ∙ drop-append_length tables (end ++ rest) in
      read_mgt_lem pdata m g.protocol_version (length g.tables) n field (length g.info)
        (map table_of g.tables) g.descriptors refl (ap some (word16_lem (length g.tables)))
        (ap (entries (read_table parse) (length g.tables)) joined
          ∙ entries-encode (read_table parse) encode_named table_of g.tables
              (named_AllRead g.tables ok.tables) (end ++ rest))
        (read16-drop (3 + n) pdata ∙ ap (λ l. read16 l 0) behind ∙ ap some (word16_lem field))
        (omega (arith, ok.info_bits))
        (ap (λ l. parse_descriptors parse l (length g.info))
            (drop-add (3 + n) 2 pdata ∙ ap (drop 2) behind)
          ∙ ok.read rest)

  -- Let no section of the table have come before, and all descriptors be read back as they are. With
  -- memory, `parse_mgt` reads a section by the standard, of at most 1012 bytes behind its
  -- header, into the tables that the guide names, in order, and its own descriptors.
  pub parse_mgt-encode :
      (malloc : ℕ → Option Bytes) (m : AtscMgt D) (tid ext control : ℕ) (g : Guide D)
      (crc b : Bytes) (mem : Heap)
      → IsFresh m.mgt_header
      → IsGuide g
      → length (encode_mgt g) ≤ 1012
      → length crc ≡ 4
      → malloc (9 + length (encode_mgt g)) ≡ some b
      → length b ≡ 9 + length (encode_mgt g)
      → (h' : TableHeader) × (mem' : Heap) × (parse_mgt parse true malloc
            (some (section_bytes tid ext control (encode_mgt g) crc))
            (9 + length (encode_mgt g) + 3)
            m
            mem
          ≡ some (parsed, mgt_of h' g, mem'))
  unfolding parse_mgt
  parse_mgt-encode malloc m tid ext control g crc b mem fresh ok few four given sized =
      let (h', mem', five, counted, ran) =
        parse_table-section_bytes (λ m. m.mgt_header) (λ h m. record m { mgt_header = h })
          (read_mgt parse true) malloc m tid ext control (encode_mgt g) crc b mem fresh few four
          given sized in
      (
        h',
        mem',
        ran
            ∙ ap (λ o. o >>= λ k. some (k.0, k.1, mem'))
                (read_mgt-encode (record m { mgt_header = h' }) g (crc ++ five) ok),
      )
