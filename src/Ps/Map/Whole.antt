-- ===== src/Ps/Map/Whole.antt =====
-- src/ps.c: `parse_program_stream_map` on a map by the standard.
use tsanalyze.Base.{
  ℕ, ◌+◌, ◌*◌, ◌/◌, ◌%◌, ◌^◌, ◌<◌, ◌>>>◌, bit, true, Option, some, List, [], ◌∷◌, ◌++◌, map, length,
  length-append, drop, drop-append_length, drop-add, Bytes, bit_or, ◌<<<◌, read8, read16, read32,
  read16-drop, ◌≡◌, refl, ap, ◌∙◌, arith,
}
use mathlib.Core.List.{append_assoc}
use tsanalyze.Base.Bits.{bit_or_fields}
use tsanalyze.Descriptor.{Descriptor, parse_descriptors}
use tsanalyze.Table.Pat.{parsed}
use tsanalyze.Dvb.Entries.{encode, AreEntries, nodes_from, nodes_from-encode}
use tsanalyze.Ps.Map.{EsMap, PsMap, MapResult, took, es_size, read_es, parse_program_stream_map}

-- A stream by the standard, with the bytes of its descriptors and what they stand for.
pub record Stream (D : Type 0) : Type 0 where
  pub type : ℕ
  pub id : ℕ
  pub info : Bytes
  pub descriptors : List (Descriptor D)

-- A map by the standard, with what its length field holds.
pub record StreamMap (D : Type 0) : Type 0 where
  pub map_length : ℕ
  pub current : ℕ
  pub reserved : ℕ
  pub version : ℕ
  pub marker : ℕ
  pub info : Bytes
  pub descriptors : List (Descriptor D)
  pub streams : List (Stream D)

abbrev pub word16 : ℕ → Bytes
word16 n = (n / 256) ∷ (n % 256) ∷ []

pub word16_lem : (n : ℕ) → bit_or ((n / 256) <<< 8) (n % 256) ≡ n
word16_lem n = omega (arith, bit_or_fields 8 (n / 256) (n % 256) (omega arith))

module _ {D : Type 0} where
  abbrev pub encode_es : Stream D → Bytes
  encode_es s = s.type ∷ s.id ∷ (word16 (length s.info) ++ s.info)

  abbrev pub es_node : Stream D → EsMap D
  es_node s = record {
    stream_type = s.type;
    elementary_stream_id = s.id;
    elementary_stream_info_length = length s.info;
    descriptors = s.descriptors;
  }

  abbrev pub encode_streams : StreamMap D → Bytes
  encode_streams m = word16 (length (encode encode_es m.streams)) ++ encode encode_es m.streams

  -- The map without its checksum.
  abbrev pub encode_map : StreamMap D → Bytes
  encode_map m =
      0
      ∷ 0
      ∷ 1
      ∷ 0xBC
      ∷ (word16 m.map_length
          ++ ((m.current * 128 + m.reserved * 32 + m.version)
              ∷ m.marker
              ∷ (word16 (length m.info) ++ (m.info ++ encode_streams m))))

  -- The map, with the descriptors that it had before.
  abbrev pub map_of : List (Descriptor D) → StreamMap D → PsMap D
  map_of before m = record {
    packet_start_code_prefix = 1;
    map_stream_id = 0xBC;
    program_stream_map_length = m.map_length;
    current_next_indicator = m.current;
    program_stream_map_version = m.version;
    marker_bit = bit m.marker 0;
    program_stream_info_length = length m.info;
    list = before ++ m.descriptors;
    elementary_stream_map_length = length (encode encode_es m.streams);
    streams = map es_node m.streams;
  }

  abbrev with_flags : List (Descriptor D) → StreamMap D → ℕ → ℕ → ℕ → Option (MapResult × PsMap D)
  with_flags before m n current' version' = some (
    took n,
    record (map_of before m) {
      current_next_indicator = current';
      program_stream_map_version = version';
    },
  )

  module _ (parse : ℕ → Bytes → ℕ → Option D) where
    abbrev pub AreStreams : List (Stream D) → Type 0
    AreStreams [] = Unit {0}
    AreStreams (s ∷ ss) =
        ((rest : Bytes)
          → parse_descriptors parse (s.info ++ rest) (length s.info) ≡ some s.descriptors)
        × AreStreams ss

    pub record IsStreamMap (m : StreamMap D) : Type 0 where
      pub current_bit : m.current < 2
      pub reserved_bits : m.reserved < 4
      pub version_bits : m.version < 32
      pub read :
          (rest : Bytes)
          → parse_descriptors parse (m.info ++ rest) (length m.info) ≡ some m.descriptors
      pub streams : AreStreams m.streams

    read_es-encode :
        (s : Stream D) (rest : Bytes)
        → ((more : Bytes)
            → parse_descriptors parse (s.info ++ more) (length s.info) ≡ some s.descriptors)
        → read_es parse (encode_es s ++ rest) ≡ some (es_node s)
    unfolding read_es read16
    read_es-encode s rest read = rw (word16_lem (length s.info), read rest) refl

    streams_AreEntries :
        (ss : List (Stream D))
        → AreStreams ss
        → AreEntries (read_es parse) es_size encode_es es_node ss
    streams_AreEntries [] ok = ok
    streams_AreEntries (s ∷ ss) ok = (
      record {
        some_bytes = omega arith;
        sized = omega arith;
        read_back = λ rest. read_es-encode s rest ok.0;
      },
      streams_AreEntries ss ok.1,
    )

    parse_map_lem :
        (pkt : Bytes) (start len flags marker n k : ℕ) (before ds : List (Descriptor D))
        (nodes : List (EsMap D))
        → read32 pkt 0 ≡ some start
        → read16 pkt 4 ≡ some len
        → read8 pkt 6 ≡ some flags
        → read8 pkt 7 ≡ some marker
        → read16 pkt 8 ≡ some n
        → parse_descriptors parse (drop 10 pkt) n ≡ some ds
        → read16 pkt (10 + n) ≡ some k
        → nodes_from (read_es parse) es_size true k (drop (10 + n + 2) pkt) k ≡ some (parsed, nodes)
        → parse_program_stream_map parse true pkt before
          ≡ some (
            took (10 + n + 2 + k + 4),
            record {
              packet_start_code_prefix = start >>> 8;
              map_stream_id = start % 2 ^ 8;
              program_stream_map_length = len;
              current_next_indicator = bit flags 7;
              program_stream_map_version = flags % 2 ^ 5;
              marker_bit = bit marker 0;
              program_stream_info_length = n;
              list = before ++ ds;
              elementary_stream_map_length = k;
              streams = nodes;
            },
          )
    unfolding parse_program_stream_map
    parse_map_lem pkt start len flags marker n k before ds nodes at0 at4 at6 at7 at8 read at_loop
          ran =
        rw (at0, at4, at6, at7, at8, read, at_loop, ran) refl

    -- With memory, `parse_program_stream_map` reads a map by the standard, whose descriptors are
    -- read back as they are, into its fields and its streams in order, puts the descriptors of the
    -- program behind those that the map had before, and returns the number of the bytes with those
    -- of the checksum.
    pub parse_program_stream_map-encode :
        (m : StreamMap D) (before : List (Descriptor D)) (rest : Bytes)
        → IsStreamMap m
        → parse_program_stream_map parse true (encode_map m ++ rest) before
          ≡ some (took (length (encode_map m) + 4), map_of before m)
    unfolding read16 read32
    parse_program_stream_map-encode m before rest ok =
        let pkt = encode_map m ++ rest in
        let n = length m.info in
        let es = encode encode_es m.streams in
        let flags = m.current * 128 + m.reserved * 32 + m.version in
        let behind : drop (10 + n) pkt ≡ encode_streams m ++ rest =
          drop-add 10 n pkt
          ∙ ap (drop n) (append_assoc m.info (encode_streams m) rest)
          ∙ drop-append_length m.info (encode_streams m ++ rest) in
        let at_loop : read16 pkt (10 + n) ≡ some (length es) =
          read16-drop (10 + n) pkt
          ∙ ap (λ l. read16 l 0) behind
          ∙ ap some (word16_lem (length es)) in
        let ran =
          ap (λ l. nodes_from (read_es parse) es_size true (length es) l (length es))
            (drop-add (10 + n) 2 pkt ∙ ap (drop 2) behind)
          ∙ nodes_from-encode (read_es parse) es_size encode_es es_node m.streams rest (length es)
              (streams_AreEntries m.streams ok.streams) (omega arith) in
        let current : bit flags 7 ≡ m.current =
          omega (arith, ok.current_bit, ok.reserved_bits, ok.version_bits) in
        let version : flags % 2 ^ 5 ≡ m.version =
          omega (arith, ok.current_bit, ok.reserved_bits, ok.version_bits) in
        let total : 10 + n + 2 + length es + 4 ≡ length (encode_map m) + 4 =
          omega (arith, length-append m.info (encode_streams m)) in
        parse_map_lem pkt 0x000001BC m.map_length flags m.marker n (length es) before m.descriptors
          (map es_node m.streams) refl (ap some (word16_lem m.map_length)) refl refl
          (ap some (word16_lem n))
          (ap (λ l. parse_descriptors parse l n) (append_assoc m.info (encode_streams m) rest)
            ∙ ok.read (encode_streams m ++ rest))
          at_loop ran
        ∙ ap (λ k. with_flags before m k (bit flags 7) (flags % 2 ^ 5)) total
        ∙ ap (λ k. with_flags before m (length (encode_map m) + 4) k (flags % 2 ^ 5)) current
        ∙ ap (λ k. with_flags before m (length (encode_map m) + 4) m.current k) version
