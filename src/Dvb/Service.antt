-- ===== src/Dvb/Service.antt =====
-- src/dvb_si.c: `parse_sdt`, the service description table.
pub mod Whole
use tsanalyze.Base.{
  ℕ, ◌+◌, ◌-◌, ◌%◌, ◌^◌, ◌>>>◌, bit, Bool, Option, none, some, ◌>>=◌, List, Bytes, read8, read16,
  drop, bit_and, Heap, load,
}
use tsanalyze.Descriptor.{Descriptor, parse_descriptors}
use tsanalyze.Table.Header.{TableHeader, done, parse_section_header}
use tsanalyze.Table.Pat.{PatResult, not_done, contents}
use tsanalyze.Dvb.Entries.{nodes_from}

-- `struct service_node`
pub record ServiceNode (D : Type 0) : Type 0 where
  pub service_id : ℕ
  pub eit_schedule_flag : ℕ
  pub eit_present_following_flag : ℕ
  pub running_status : ℕ
  pub free_ca_mode : ℕ
  pub descriptors_loop_length : ℕ
  pub descriptors : List (Descriptor D)

-- `sdt_t`, without the unused `crc32`.
pub record Sdt (D : Type 0) : Type 0 where
  pub sdt_header : TableHeader
  pub original_network_id : ℕ
  pub services : List (ServiceNode D)

module _ {D : Type 0} where
  abbrev pub service_size : ServiceNode D → ℕ
  service_size pn = 5 + pn.descriptors_loop_length

  module _ (parse : ℕ → Bytes → ℕ → Option D) where
    -- The node of a round.
    unfoldable pub read_service : Bytes → Option (ServiceNode D)
    read_service pdata = do
      id ← read16 pdata 0
      flags ← read8 pdata 2
      field ← read16 pdata 3
      ds ← parse_descriptors parse (drop 5 pdata) (bit_and field 0x0FFF)
      some (record {
        service_id = id;
        eit_schedule_flag = bit flags 1;
        eit_present_following_flag = bit flags 0;
        running_status = (field >>> 13) % 2 ^ 3;
        free_ca_mode = bit field 12;
        descriptors_loop_length = bit_and field 0x0FFF;
        descriptors = ds;
      })

    unfoldable pub read_services : Bool → TableHeader → Bytes → Option (PatResult × Sdt D)
    unfolding read_service nodes_from
    read_services node_memory h pdata = do
      id ← read16 pdata 0
      let section_len = h.section_length - (5 + 4) - 3
      (result, services') ←
          nodes_from read_service service_size node_memory section_len (drop 3 pdata) section_len
      some (result, record { sdt_header = h; original_network_id = id; services = services' })

    -- What the old nodes and their descriptors held is given back, which nothing here observes.
    unfoldable pub parse_sdt :
        (ℕ → Option Bytes)
        → Bool
        → Option Bytes
        → ℕ
        → Sdt D
        → Heap
        → Option (PatResult × Sdt D × Heap)
    unfolding read_services
    parse_sdt malloc node_memory pbuf buf_size p mem = do
      (ret, header', mem') ← parse_section_header malloc pbuf buf_size p.sdt_header mem
      elim ret [
        | done ↦ (do
          (result, p') ←
              read_services node_memory header' (contents (load header'.private_data_byte mem'))
          some (result, p', mem'))
        | other ↦ some (not_done other, record p { sdt_header = header' }, mem')
      ]
