-- ===== src/Dvb/Service/Whole.antt =====
-- src/dvb_si.c: `parse_sdt` on a whole table of one section.
use tsanalyze.Base.{
  ℕ, ◌+◌, ◌-◌, ◌*◌, ◌/◌, ◌%◌, ◌^◌, ◌>>>◌, ◌≤◌, ◌<◌, true, Option, some, List, [], ◌∷◌, ◌++◌, map,
  length, Bytes, bit, bit_and, bit_or, ◌<<<◌, read16, Heap, load, ◌≡◌, refl, ◌∙◌, arith,
}
use tsanalyze.Base.Bits.{bit_or_fields, bit_and_mask}
use tsanalyze.Descriptor.{Descriptor, parse_descriptors}
use tsanalyze.Table.Header.{TableHeader, done, parse_section_header}
use tsanalyze.Table.Header.Section.{section_bytes, IsFresh, parse_section_header-section_bytes}
use tsanalyze.Table.Pat.{parsed}
use tsanalyze.Dvb.Entries.{encode, AreEntries, nodes_from-encode}
use tsanalyze.Dvb.Service.{ServiceNode, Sdt, service_size, read_service, read_services, parse_sdt}

-- A service by the standard, with the bytes of its descriptors and what they stand for.
pub record Service (D : Type 0) : Type 0 where
  pub id : ℕ
  pub reserved : ℕ
  pub schedule : ℕ
  pub present_following : ℕ
  pub running_status : ℕ
  pub free_ca_mode : ℕ
  pub info : Bytes
  pub descriptors : List (Descriptor D)

module _ {D : Type 0} where
  abbrev pub encode_service : Service D → Bytes
  encode_service s =
      (s.id / 256)
      ∷ (s.id % 256)
      ∷ (s.reserved * 4 + s.schedule * 2 + s.present_following)
      ∷ ((s.running_status * 2 + s.free_ca_mode) * 16 + length s.info / 256)
      ∷ (length s.info % 256)
      ∷ s.info

  abbrev pub service_node : Service D → ServiceNode D
  service_node s = record {
    service_id = s.id;
    eit_schedule_flag = s.schedule;
    eit_present_following_flag = s.present_following;
    running_status = s.running_status;
    free_ca_mode = s.free_ca_mode;
    descriptors_loop_length = length s.info;
    descriptors = s.descriptors;
  }

  -- The table by the standard, without its header and checksum.
  abbrev pub encode_sdt : ℕ → ℕ → List (Service D) → Bytes
  encode_sdt network reserved2 ss =
      (network / 256) ∷ (network % 256) ∷ reserved2 ∷ encode encode_service ss

  module _ (parse : ℕ → Bytes → ℕ → Option D) where
    pub record IsService (s : Service D) : Type 0 where
      pub schedule_bit : s.schedule < 2
      pub present_bit : s.present_following < 2
      pub status_bits : s.running_status < 8
      pub ca_bit : s.free_ca_mode < 2
      pub info_bits : length s.info < 4096
      pub read :
          (rest : Bytes)
          → parse_descriptors parse (s.info ++ rest) (length s.info) ≡ some s.descriptors

    abbrev pub AreServices : List (Service D) → Type 0
    AreServices [] = Unit {0}
    AreServices (s ∷ ss) = IsService s × AreServices ss

    read_service-encode :
        (s : Service D) (rest : Bytes)
        → IsService s
        → read_service parse (encode_service s ++ rest) ≡ some (service_node s)
    unfolding read_service read16
    read_service-encode s rest ok =
        let n = length s.info in
        let high = s.running_status * 2 + s.free_ca_mode in
        let flags = s.reserved * 4 + s.schedule * 2 + s.present_following in
        let field = bit_or ((high * 16 + n / 256) <<< 8) (n % 256) in
        let id_read : bit_or ((s.id / 256) <<< 8) (s.id % 256) ≡ s.id =
          omega (arith, bit_or_fields 8 (s.id / 256) (s.id % 256) (omega arith)) in
        let value : field ≡ (high * 16 + n / 256) * 256 + n % 256 =
          bit_or_fields 8 (high * 16 + n / 256) (n % 256) (omega arith) in
        let len_read : bit_and field 0x0FFF ≡ n =
          bit_and_mask 12 field ∙ omega (arith, ok.info_bits, value) in
        let status_read : (field >>> 13) % 2 ^ 3 ≡ s.running_status =
          omega (arith, ok.info_bits, ok.status_bits, ok.ca_bit, value) in
        let ca_read : bit field 12 ≡ s.free_ca_mode =
          omega (arith, ok.info_bits, ok.status_bits, ok.ca_bit, value) in
        let schedule_read : bit flags 1 ≡ s.schedule =
          omega (arith, ok.schedule_bit, ok.present_bit) in
        let present_read : bit flags 0 ≡ s.present_following =
          omega (arith, ok.schedule_bit, ok.present_bit) in
        rw (id_read, len_read, status_read, ca_read, schedule_read, present_read, ok.read rest) refl

    services-AreEntries :
        (ss : List (Service D))
        → AreServices ss
        → AreEntries (read_service parse) service_size encode_service service_node ss
    services-AreEntries [] ok = ok
    services-AreEntries (s ∷ ss) ok = (
      record {
        some_bytes = omega arith;
        sized = omega arith;
        read_back = λ rest. read_service-encode s rest ok.0;
      },
      services-AreEntries ss ok.1,
    )

    read_services-encode :
        (h : TableHeader) (network reserved2 : ℕ) (ss : List (Service D)) (rest : Bytes)
        → AreServices ss
        → h.section_length ≡ 9 + length (encode_sdt network reserved2 ss)
        → read_services parse true h (encode_sdt network reserved2 ss ++ rest)
          ≡ some (
            parsed,
            record {
              sdt_header = h;
              original_network_id = network;
              services = map service_node ss;
            },
          )
    unfolding read_services read16
    read_services-encode h network reserved2 ss rest ok counted =
        let es = encode encode_service ss in
        let left : h.section_length - (5 + 4) - 3 ≡ length es = omega (arith, counted) in
        let id_read : bit_or ((network / 256) <<< 8) (network % 256) ≡ network =
          omega (arith, bit_or_fields 8 (network / 256) (network % 256) (omega arith)) in
        rw
          (
            left,
            id_read,
            nodes_from-encode (read_service parse) service_size encode_service service_node ss rest
                (length es) (services-AreEntries ss ok) (omega arith),
          )
          refl

    parse_sdt_lem :
        (malloc : ℕ → Option Bytes) (pbuf data' : Bytes) (buf_size : ℕ) (p p' : Sdt D)
        (h' : TableHeader) (mem mem' : Heap)
        → parse_section_header malloc (some pbuf) buf_size p.sdt_header mem ≡ some (done, h', mem')
        → load h'.private_data_byte mem' ≡ some data'
        → read_services parse true h' data' ≡ some (parsed, p')
        → parse_sdt parse malloc true (some pbuf) buf_size p mem ≡ some (parsed, p', mem')
    unfolding parse_sdt
    parse_sdt_lem malloc pbuf data' buf_size p p' h' mem mem' ran kept read =
        rw (ran, kept, read) refl

    -- Let no section of the table have come before, and the descriptors of each service be read
    -- back as they are. With memory, `parse_sdt` reads a section by the standard of at most 1012
    -- bytes behind its header into the table it was made of: its network, and its services
    -- in order with their flags, status and descriptors.
    pub parse_sdt-encode :
        (malloc : ℕ → Option Bytes) (p : Sdt D) (tid ext control network reserved2 : ℕ)
        (ss : List (Service D)) (crc b : Bytes) (mem : Heap)
        → IsFresh p.sdt_header
        → AreServices ss
        → length (encode_sdt network reserved2 ss) ≤ 1012
        → length crc ≡ 4
        → malloc (9 + length (encode_sdt network reserved2 ss)) ≡ some b
        → length b ≡ 9 + length (encode_sdt network reserved2 ss)
        → (h' : TableHeader) × (mem' : Heap) × (parse_sdt parse malloc true
              (some (section_bytes tid ext control (encode_sdt network reserved2 ss) crc))
              (9 + length (encode_sdt network reserved2 ss) + 3)
              p
              mem
            ≡ some (
              parsed,
              record {
                sdt_header = h';
                original_network_id = network;
                services = map service_node ss;
              },
              mem',
            ))
    parse_sdt-encode malloc p tid ext control network reserved2 ss crc b mem fresh ok few four given
          sized =
        let body = encode_sdt network reserved2 ss in
        let (h', mem', five, ran, kept, _, counted, _) =
          parse_section_header-section_bytes malloc p.sdt_header tid ext control body crc b mem
            fresh few four given sized in
        (
          h',
          mem',
          parse_sdt_lem malloc (section_bytes tid ext control body crc) (body ++ (crc ++ five))
              (9 + length body + 3) p _ h' mem mem' ran kept
              (read_services-encode h' network reserved2 ss (crc ++ five) ok counted),
        )
