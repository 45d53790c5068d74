-- ===== src/Dvb/Network/Whole.antt =====
-- src/dvb_si.c: `parse_nit` and `parse_bat` on a whole table of one section.
use tsanalyze.Base.{
  ℕ, ◌+◌, ◌-◌, ◌*◌, ◌/◌, ◌%◌, ◌^◌, ◌≤◌, ◌<◌, true, Option, some, List, [], ◌∷◌, ◌++◌, map, length,
  length-append, drop, drop-append_length, drop-add, read16-drop, Bytes, bit_and, bit_or, ◌<<<◌,
  read16, Heap, load, ◌≡◌, refl, sym, ap, ◌∙◌, arith,
}
use mathlib.Core.List.{append_assoc}
use tsanalyze.Base.Bits.{bit_or_fields, bit_and_mask}
use tsanalyze.Descriptor.{Descriptor, parse_descriptors}
use tsanalyze.Table.Header.{TableHeader, done, parse_section_header}
use tsanalyze.Table.Header.Section.{
  section_bytes, field12_lem, IsFresh, parse_section_header-section_bytes,
}
use tsanalyze.Table.Pat.{parsed}
use tsanalyze.Dvb.Entries.{encode, AreEntries, nodes_from, nodes_from-encode}
use tsanalyze.Dvb.Network.{
  TransportStreamNode, NetworkTable, stream_size, nit_low, bat_low, read_transport_stream,
  read_network, parse_nit, parse_bat,
}

-- A transport stream by the standard, with the bytes of its descriptors and what they stand for.
pub record TransportStream (D : Type 0) : Type 0 where
  pub id : ℕ
  pub network : ℕ
  pub reserved : ℕ
  pub info : Bytes
  pub descriptors : List (Descriptor D)

-- A network or a bouquet with its own descriptors and its streams.
pub record Network (D : Type 0) : Type 0 where
  pub reserved : ℕ
  pub info : Bytes
  pub descriptors : List (Descriptor D)
  pub reserved_loop : ℕ
  pub streams : List (TransportStream D)

abbrev pub length_field : ℕ → ℕ → Bytes
length_field reserved n = (reserved * 16 + n / 256) ∷ (n % 256) ∷ []

module _ {D : Type 0} where
  abbrev pub encode_stream : TransportStream D → Bytes
  encode_stream s =
      (s.id / 256)
      ∷ (s.id % 256)
      ∷ (s.network / 256)
      ∷ (s.network % 256)
      ∷ (length_field s.reserved (length s.info) ++ s.info)

  abbrev pub stream_node : TransportStream D → TransportStreamNode D
  stream_node s = record {
    transport_stream_id = s.id;
    original_network_id = s.network;
    transport_descriptors_length = length s.info;
    descriptors = s.descriptors;
  }

  abbrev pub encode_loop : Network D → Bytes
  encode_loop w =
      length_field w.reserved_loop (length (encode encode_stream w.streams))
      ++ encode encode_stream w.streams

  -- The table by the standard, without its header and checksum.
  abbrev pub encode_network : Network D → Bytes
  encode_network w = length_field w.reserved (length w.info) ++ (w.info ++ encode_loop w)

  -- The table that stands for the network.
  abbrev pub network_table : TableHeader → ℕ → Network D → NetworkTable D
  network_table h id' w = record {
    header = h;
    id = id';
    descriptors_length = length w.info;
    list = w.descriptors;
    transport_stream_loop_length = length (encode encode_stream w.streams);
    streams = map stream_node w.streams;
  }

  module _ (parse : ℕ → Bytes → ℕ → Option D) where
    abbrev pub ReadsBack : Bytes → List (Descriptor D) → Type 0
    ReadsBack info ds =
        (rest : Bytes) → parse_descriptors parse (info ++ rest) (length info) ≡ some ds

    pub record IsTransportStream (s : TransportStream D) : Type 0 where
      pub info_bits : length s.info < 4096
      pub read : ReadsBack s.info s.descriptors

    abbrev pub AreTransportStreams : List (TransportStream D) → Type 0
    AreTransportStreams [] = Unit {0}
    AreTransportStreams (s ∷ ss) = IsTransportStream s × AreTransportStreams ss

    pub record IsNetwork (w : Network D) : Type 0 where
      pub room : length (encode_network w) ≤ 1012
      pub read : ReadsBack w.info w.descriptors
      pub streams : AreTransportStreams w.streams

    -- Both ways to keep twelve of sixteen bits.
    module _ (low : ℕ → ℕ) (low_bits : (len : ℕ) → low len ≡ len % 2 ^ 12) where
      read_transport_stream-encode :
          (s : TransportStream D) (rest : Bytes)
          → IsTransportStream s
          → read_transport_stream parse low (encode_stream s ++ rest) ≡ some (stream_node s)
      unfolding read_transport_stream read16
      read_transport_stream-encode s rest ok =
          let n = length s.info in
          let field = bit_or ((s.reserved * 16 + n / 256) <<< 8) (n % 256) in
          let id_read : bit_or ((s.id / 256) <<< 8) (s.id % 256) ≡ s.id =
            omega (arith, bit_or_fields 8 (s.id / 256) (s.id % 256) (omega arith)) in
          let network_read : bit_or ((s.network / 256) <<< 8) (s.network % 256) ≡ s.network =
            omega (arith, bit_or_fields 8 (s.network / 256) (s.network % 256) (omega arith)) in
          let len_read : low field ≡ n =
            low_bits field ∙ sym (bit_and_mask 12 field) ∙ field12_lem s.reserved n ok.info_bits in
          rw (id_read, network_read, len_read, ok.read rest) refl

      streams-AreEntries :
          (ss : List (TransportStream D))
          → AreTransportStreams ss
          → AreEntries (read_transport_stream parse low) stream_size encode_stream stream_node ss
      streams-AreEntries [] ok = ok
      streams-AreEntries (s ∷ ss) ok = (
        record {
          some_bytes = omega arith;
          sized = omega arith;
          read_back = λ rest. read_transport_stream-encode s rest ok.0;
        },
        streams-AreEntries ss ok.1,
      )

      read_network_lem :
          (h : TableHeader) (id' len field loop section_len : ℕ) (pdata : Bytes)
          (ds : List (Descriptor D)) (nodes : List (TransportStreamNode D))
          → read16 pdata 0 ≡ some field
          → bit_and field 0x0FFF ≡ len
          → parse_descriptors parse (drop 2 pdata) len ≡ some ds
          → read16 pdata (2 + len) ≡ some loop
          → h.section_length - (5 + 4) - (4 + len) ≡ section_len
          → nodes_from
              (read_transport_stream parse low)
              stream_size
              true
              section_len
              (drop (2 + len + 2) pdata)
              section_len
            ≡ some (parsed, nodes)
          → read_network parse low true h id' pdata
            ≡ some (
              parsed,
              record {
                header = h;
                id = id';
                descriptors_length = len;
                list = ds;
                transport_stream_loop_length = bit_and loop 0x0FFF;
                streams = nodes;
              },
            )
      unfolding read_network
      read_network_lem h id' len field loop section_len pdata ds nodes at0 kept read at_loop left
            ran =
          rw (at0, kept, read, at_loop, left, ran) refl

      read_network-encode :
          (h : TableHeader) (id' : ℕ) (w : Network D) (rest : Bytes)
          → IsNetwork w
          → h.section_length ≡ 9 + length (encode_network w)
          → read_network parse low true h id' (encode_network w ++ rest)
            ≡ some (parsed, network_table h id' w)
      unfolding read16
      read_network-encode h id' w rest ok counted =
          let es = encode encode_stream w.streams in
          let n = length w.info in
          let behind : drop (2 + n) (encode_network w ++ rest) ≡ encode_loop w ++ rest =
            drop-add 2 n (encode_network w ++ rest)
            ∙ ap (drop n) (append_assoc w.info (encode_loop w) rest)
            ∙ drop-append_length w.info (encode_loop w ++ rest) in
          let sized = length-append w.info (encode_loop w) in
          let small = ok.room in
          let loop = bit_or ((w.reserved_loop * 16 + length es / 256) <<< 8) (length es % 256) in
          let at_loop : read16 (encode_network w ++ rest) (2 + n) ≡ some loop =
            read16-drop (2 + n) (encode_network w ++ rest) ∙ ap (λ l. read16 l 0) behind in
          let left : h.section_length - (5 + 4) - (4 + n) ≡ length es =
            omega (arith, counted, sized) in
          let loop_read : bit_and loop 0x0FFF ≡ length es =
            field12_lem w.reserved_loop (length es) (omega (arith, sized)) in
          read_network_lem h id' n (bit_or ((w.reserved * 16 + n / 256) <<< 8) (n % 256)) loop
            (length es) (encode_network w ++ rest) w.descriptors (map stream_node w.streams) refl
            (field12_lem w.reserved n (omega (arith, sized)))
            (ap (λ l. parse_descriptors parse l n) (append_assoc w.info (encode_loop w) rest)
              ∙ ok.read (encode_loop w ++ rest))
            at_loop left
            (ap
                (λ l.
                  nodes_from (read_transport_stream parse low) stream_size true (length es) l
                    (length es))
                (drop-add (2 + n) 2 (encode_network w ++ rest) ∙ ap (drop 2) behind)
              ∙ nodes_from-encode (read_transport_stream parse low) stream_size encode_stream
                  stream_node w.streams rest (length es) (streams-AreEntries w.streams ok.streams)
                  (omega arith))
          ∙ ap
              (λ k.
                some (parsed, record (network_table h id' w) { transport_stream_loop_length = k }))
              loop_read

    parse_nit_lem :
        (malloc : ℕ → Option Bytes) (pbuf data' : Bytes) (buf_size : ℕ) (p p' : NetworkTable D)
        (h' : TableHeader) (mem mem' : Heap)
        → parse_section_header malloc (some pbuf) buf_size p.header mem ≡ some (done, h', mem')
        → load h'.private_data_byte mem' ≡ some data'
        → read_network parse nit_low true h' p.id data' ≡ some (parsed, p')
        → parse_nit parse malloc true (some pbuf) buf_size p mem ≡ some (parsed, p', mem')
    unfolding parse_nit
    parse_nit_lem malloc pbuf data' buf_size p p' h' mem mem' ran kept read =
        rw (ran, kept, read) refl

    parse_bat_lem :
        (malloc : ℕ → Option Bytes) (pbuf data' : Bytes) (buf_size : ℕ) (p p' : NetworkTable D)
        (h' : TableHeader) (mem mem' : Heap)
        → parse_section_header malloc (some pbuf) buf_size p.header mem ≡ some (done, h', mem')
        → load h'.private_data_byte mem' ≡ some data'
        → read_network parse bat_low true h' h'.table_id data' ≡ some (parsed, p')
        → parse_bat parse malloc true (some pbuf) buf_size p mem ≡ some (parsed, p', mem')
    unfolding parse_bat
    parse_bat_lem malloc pbuf data' buf_size p p' h' mem mem' ran kept read =
        rw (ran, kept, read) refl

    -- Let no section of the table have come before, and all descriptors be read back as they are.
    -- With memory, `parse_nit` and `parse_bat` read a section by the standard into the same
    -- descriptors and the same streams, in order, with the two lengths; but the first keeps the
    -- network id that the table had, and the second has the table id for the bouquet's.
    pub network-encode :
        (malloc : ℕ → Option Bytes) (p : NetworkTable D) (tid ext control : ℕ) (w : Network D)
        (crc b : Bytes) (mem : Heap)
        → IsFresh p.header
        → IsNetwork w
        → length crc ≡ 4
        → malloc (9 + length (encode_network w)) ≡ some b
        → length b ≡ 9 + length (encode_network w)
        → (h' : TableHeader) × (mem' : Heap) × (h'.table_id ≡ tid)
          × (parse_nit parse malloc true
                (some (section_bytes tid ext control (encode_network w) crc))
                (9 + length (encode_network w) + 3)
                p
                mem
              ≡ some (parsed, network_table h' p.id w, mem'))
          × (parse_bat parse malloc true
                (some (section_bytes tid ext control (encode_network w) crc))
                (9 + length (encode_network w) + 3)
                p
                mem
              ≡ some (parsed, network_table h' tid w, mem'))
    network-encode malloc p tid ext control w crc b mem fresh ok four given sized =
        let body = encode_network w in
        let pbuf = section_bytes tid ext control body crc in
        let (h', mem', five, ran, kept, _, counted, named) =
          parse_section_header-section_bytes malloc p.header tid ext control body crc b mem fresh
            ok.room four given sized in
        let nit = read_network-encode nit_low (λ len. refl) in
        let bat = read_network-encode bat_low (λ len. bit_and_mask 12 len) in
        let read_nit = parse_nit_lem malloc pbuf (body ++ (crc ++ five)) (9 + length body + 3) p in
        let read_bat = parse_bat_lem malloc pbuf (body ++ (crc ++ five)) (9 + length body + 3) p in
        (
          h',
          mem',
          named,
          read_nit (network_table h' p.id w) h' mem mem' ran kept
              (nit h' p.id w (crc ++ five) ok counted),
          read_bat (network_table h' tid w) h' mem mem' ran kept (
              bat h' h'.table_id w (crc ++ five) ok counted
              ∙ ap (λ k. some (parsed, network_table h' k w)) named),
        )
