-- ===== src/Ps/Map.antt =====
-- src/ps.c: `parse_program_stream_map`.
pub mod Whole
use tsanalyze.Base.{
  ℕ, ◌+◌, ◌%◌, ◌^◌, ◌>>>◌, bit, Bool, Option, none, some, ◌>>=◌, List, ◌++◌, Bytes, read8, read16,
  read32, drop,
}
use tsanalyze.Descriptor.{Descriptor, parse_descriptors}
use tsanalyze.Table.Pat.{PatResult, parsed, out_of_memory}
use tsanalyze.Dvb.Entries.{nodes_from}

-- `es_map`
pub record EsMap (D : Type 0) : Type 0 where
  pub stream_type : ℕ
  pub elementary_stream_id : ℕ
  pub elementary_stream_info_length : ℕ
  pub descriptors : List (Descriptor D)

-- `ps_map`, without the unused `crc_32`.
pub record PsMap (D : Type 0) : Type 0 where
  pub packet_start_code_prefix : ℕ
  pub map_stream_id : ℕ
  pub program_stream_map_length : ℕ
  pub current_next_indicator : ℕ
  pub program_stream_map_version : ℕ
  pub marker_bit : ℕ
  pub program_stream_info_length : ℕ
  pub list : List (Descriptor D)
  pub elementary_stream_map_length : ℕ
  pub streams : List (EsMap D)

-- What is returned: the bytes taken, or `ENOMEM`.
pub data MapResult : Type 0 where
  took : ℕ → MapResult
  no_memory : MapResult

abbrev pub map_result : ℕ → PatResult → MapResult
map_result n out_of_memory = no_memory
map_result n other = took n

module _ {D : Type 0} where
  abbrev pub es_size : EsMap D → ℕ
  es_size node = 4 + node.elementary_stream_info_length

  module _ (parse : ℕ → Bytes → ℕ → Option D) where
    -- The node of a round.
    unfoldable pub read_es : Bytes → Option (EsMap D)
    read_es buf = do
      type ← read8 buf 0
      id ← read8 buf 1
      len ← read16 buf 2
      ds ← parse_descriptors parse (drop 4 buf) len
      some (record {
        stream_type = type;
        elementary_stream_id = id;
        elementary_stream_info_length = len;
        descriptors = ds;
      })

    -- `k` counts the bytes of the rounds up to the length of the map. The descriptors come behind
    -- those of `before`, the list of the map, which the caller has set; that of the streams starts anew.
    unfoldable pub parse_program_stream_map :
        Bool → Bytes → List (Descriptor D) → Option (MapResult × PsMap D)
    unfolding read_es nodes_from
    parse_program_stream_map node_memory pkt before = do
      start ← read32 pkt 0
      map_length ← read16 pkt 4
      flags ← read8 pkt 6
      marker ← read8 pkt 7
      info_length ← read16 pkt 8
      ds ← parse_descriptors parse (drop 10 pkt) info_length
      es_length ← read16 pkt (10 + info_length)
      (result, streams') ←
          nodes_from read_es es_size node_memory es_length (drop (10 + info_length + 2) pkt)
            es_length
      let m : PsMap D = record {
        packet_start_code_prefix = start >>> 8;
        map_stream_id = start % 2 ^ 8;
        program_stream_map_length = map_length;
        current_next_indicator = bit flags 7;
        program_stream_map_version = flags % 2 ^ 5;
        marker_bit = bit marker 0;
        program_stream_info_length = info_length;
        list = before ++ ds;
        elementary_stream_map_length = es_length;
        streams = streams';
      }
      some (map_result (10 + info_length + 2 + es_length + 4) result, m)
