-- ===== src/Dvb/Network.antt =====
-- src/dvb_si.c: `parse_nit` and `parse_bat`, the network information and bouquet association tables.
pub mod Whole
use tsanalyze.Base.{
  ℕ, ◌+◌, ◌-◌, ◌%◌, ◌^◌, Bool, Option, none, some, ◌>>=◌, List, Bytes, read16, drop, bit_and, Heap,
  load,
}
use tsanalyze.Descriptor.{Descriptor, parse_descriptors}
use tsanalyze.Table.Header.{TableHeader, done, parse_section_header}
use tsanalyze.Table.Pat.{PatResult, not_done, contents}
use tsanalyze.Dvb.Entries.{nodes_from}

-- `struct transport_stream_node`
pub record TransportStreamNode (D : Type 0) : Type 0 where
  pub transport_stream_id : ℕ
  pub original_network_id : ℕ
  pub transport_descriptors_length : ℕ
  pub descriptors : List (Descriptor D)

-- `nit_t` and `bat_t`, without the unused `crc32`: `id` is `network_id` or `bouquet_id`, and
-- `descriptors_length` the length of the network's or the bouquet's descriptors.
pub record NetworkTable (D : Type 0) : Type 0 where
  pub header : TableHeader
  pub id : ℕ
  pub descriptors_length : ℕ
  pub list : List (Descriptor D)
  pub transport_stream_loop_length : ℕ
  pub streams : List (TransportStreamNode D)

-- `parse_nit` stores the two bytes in a field of twelve bits, `parse_bat` masks them.
abbrev pub nit_low : ℕ → ℕ
nit_low len = len % 2 ^ 12

abbrev pub bat_low : ℕ → ℕ
bat_low len = bit_and len 0x0FFF

module _ {D : Type 0} where
  abbrev pub stream_size : TransportStreamNode D → ℕ
  stream_size pn = 6 + pn.transport_descriptors_length

  module _ (parse : ℕ → Bytes → ℕ → Option D) where
    -- The node of a round, where `low` is what is kept of the two bytes of its length.
    unfoldable pub read_transport_stream : (ℕ → ℕ) → Bytes → Option (TransportStreamNode D)
    read_transport_stream low pdata = do
      stream_id ← read16 pdata 0
      network_id ← read16 pdata 2
      len ← read16 pdata 4
      ds ← parse_descriptors parse (drop 6 pdata) (low len)
      some (record {
        transport_stream_id = stream_id;
        original_network_id = network_id;
        transport_descriptors_length = low len;
        descriptors = ds;
      })

    -- What follows once the table is whole. What the old nodes and descriptors held is given back,
    -- which nothing here observes.
    unfoldable pub read_network :
        (ℕ → ℕ) → Bool → TableHeader → ℕ → Bytes → Option (PatResult × NetworkTable D)
    unfolding read_transport_stream nodes_from
    read_network low node_memory h id' pdata = do
      field ← read16 pdata 0
      let len = bit_and field 0x0FFF
      ds ← parse_descriptors parse (drop 2 pdata) len
      loop ← read16 pdata (2 + len)
      let section_len = h.section_length - (5 + 4) - (4 + len)
      (result, streams') ←
          nodes_from (read_transport_stream low) stream_size node_memory section_len
            (drop (2 + len + 2) pdata) section_len
      let p' : NetworkTable D = record {
        header = h;
        id = id';
        descriptors_length = len;
        list = ds;
        transport_stream_loop_length = bit_and loop 0x0FFF;
        streams = streams';
      }
      some (result, p')

    module _ (malloc : ℕ → Option Bytes) (node_memory : Bool) where
      -- `network_id` is not written.
      unfoldable pub parse_nit :
          Option Bytes → ℕ → NetworkTable D → Heap → Option (PatResult × NetworkTable D × Heap)
      unfolding read_network
      parse_nit pbuf buf_size p mem = do
        (ret, header', mem') ← parse_section_header malloc pbuf buf_size p.header mem
        elim ret [
          | done ↦ (do
            (result, p') ←
                read_network nit_low node_memory header' p.id
                  (contents (load header'.private_data_byte mem'))
            some (result, p', mem'))
          | other ↦ some (not_done other, record p { header = header' }, mem')
        ]

      unfoldable pub parse_bat :
          Option Bytes → ℕ → NetworkTable D → Heap → Option (PatResult × NetworkTable D × Heap)
      unfolding read_network
      parse_bat pbuf buf_size p mem = do
        (ret, header', mem') ← parse_section_header malloc pbuf buf_size p.header mem
        elim ret [
          | done ↦ (do
            (result, p') ←
                read_network bat_low node_memory header' header'.table_id
                  (contents (load header'.private_data_byte mem'))
            some (result, p', mem'))
          | other ↦ some (not_done other, record p { header = header' }, mem')
        ]
