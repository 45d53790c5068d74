-- ===== src/Dvb/Procs/Services.antt =====
-- src/table.c: `sdt_bat_proc` on a service description table.
use tsanalyze.Base.{
  ℕ, ◌+◌, ◌≤◌, true, Option, some, List, map, length, Bytes, read8, u64, Heap, ◌≡◌, refl,
}
use tsanalyze.Table.Header.{TableHeader}
use tsanalyze.Table.Header.Section.{section_bytes, IsFresh}
use tsanalyze.Table.Pat.{PatResult, parsed}
use tsanalyze.Dvb.Service.{Sdt, parse_sdt}
use tsanalyze.Dvb.Service.Whole.{Service, AreServices, service_node, encode_sdt, parse_sdt-encode}
use tsanalyze.Dvb.Procs.{DvbTables, sdt_bat_proc}

module _ {D : Type 0} (parse : ℕ → Bytes → ℕ → Option D) (malloc : ℕ → Option Bytes) where
  actual_lem :
      (pkt : Bytes) (len : ℕ) (t : DvbTables D) (result : PatResult) (p' : Sdt D) (mem mem' : Heap)
      → read8 pkt 0 ≡ some 0x42
      → parse_sdt parse malloc true (some pkt) len t.sdt_actual mem ≡ some (result, p', mem')
      → sdt_bat_proc parse malloc true pkt len t mem
        ≡ some (
          record t { sdt_actual = p'; sdt_actual_sections = u64 (t.sdt_actual_sections + 1) },
          mem',
        )
  unfolding sdt_bat_proc
  actual_lem pkt len t result p' mem mem' at0 ran = rw (at0, ran) refl

  -- Let no section of the services of this stream have come before, and the descriptors of each
  -- service be read back as they are. With memory, `sdt_bat_proc` takes a section by the standard,
  -- of at most 1012 bytes behind its header, into the table of this stream alone: its network and
  -- its services in order with their flags, status and descriptors, and counts it; the other
  -- tables and counters stay.
  pub sdt_bat_proc-encode :
      (t : DvbTables D) (ext control network reserved2 : ℕ) (ss : List (Service D)) (crc b : Bytes)
      (mem : Heap)
      → IsFresh t.sdt_actual.sdt_header
      → AreServices parse ss
      → length (encode_sdt network reserved2 ss) ≤ 1012
      → length crc ≡ 4
      → malloc (9 + length (encode_sdt network reserved2 ss)) ≡ some b
      → length b ≡ 9 + length (encode_sdt network reserved2 ss)
      → (h' : TableHeader) × (mem' : Heap) × (sdt_bat_proc parse malloc true
            (section_bytes 0x42 ext control (encode_sdt network reserved2 ss) crc)
            (9 + length (encode_sdt network reserved2 ss) + 3)
            t
            mem
          ≡ some (
            record t {
              sdt_actual = record {
                sdt_header = h';
                original_network_id = network;
                services = map service_node ss;
              };
              sdt_actual_sections = u64 (t.sdt_actual_sections + 1);
            },
            mem',
          ))
  sdt_bat_proc-encode t ext control network reserved2 ss crc b mem fresh ok few four given sized =
      let body = encode_sdt network reserved2 ss in
      let (h', mem', ran) =
        parse_sdt-encode parse malloc t.sdt_actual 0x42 ext control network reserved2 ss crc b mem
          fresh ok few four given sized in
      (
        h',
        mem',
        actual_lem (section_bytes 0x42 ext control body crc) (9 + length body + 3) t parsed _ mem
            mem' refl ran,
      )
