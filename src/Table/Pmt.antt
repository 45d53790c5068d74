-- ===== src/Table/Pmt.antt =====
-- src/table.c: `parse_pmt`, which turns a program map into a list of streams and registers each.
pub mod Streams
mod Tests
use tsanalyze.Base.{
  ℕ, zero, suc, ◌+◌, ◌-◌, ◌==◌, leb, ltb, ◌&&◌, ◌||◌, if◌then◌else◌, Bool, true, false, Option,
  none, some, ◌>>=◌, List, [], ◌∷◌, ◌++◌, Bytes, read8, read16, drop, bit_and, update, Heap, load,
  length,
}
use tsanalyze.Descriptor.{Descriptor, parse_descriptors}
use tsanalyze.Pes.{MpegtsPes, DataCallback, parse_subtitle, parse_teletext, register_pes_ops}
use tsanalyze.Pes.Header.{NonPs}
use tsanalyze.Pes.Packet.{register_pes_data_callback}
use tsanalyze.Scte.{MpegtsScte, register_scte_ops}
use tsanalyze.Table.Ops.{Psi, register_section_ops}
use tsanalyze.Table.Header.{TableHeader, HeaderResult, done, parse_section_header}
use tsanalyze.Table.Pat.{PatResult, parsed, out_of_memory, not_done, contents}

-- `struct es_node`
pub record EsNode (D : Type 0) : Type 0 where
  pub stream_type : ℕ
  pub elementary_pid : ℕ
  pub es_info_length : ℕ
  pub descriptors : List (Descriptor D)

-- `pmt_t`; `crc32` is never used.
pub record Pmt (D : Type 0) : Type 0 where
  pub pmt_header : TableHeader
  pub program_number : ℕ
  pub pcr_pid : ℕ
  pub program_info_length : ℕ
  pub descriptors : List (Descriptor D)
  pub streams : List (EsNode D)

-- What registering a stream may change. `Priv` is what the parsers of data keep.
pub record Registries (Priv : Type 0) : Type 0 where
  pub psi : Psi
  pub pes : MpegtsPes Priv
  pub scte : MpegtsScte

module _ {D : Type 0} where
  abbrev pub has_descritpor_tag : List (Descriptor D) → ℕ → Bool
  has_descritpor_tag [] tag = false
  has_descritpor_tag (p ∷ rest) tag = if p.tag == tag then true else has_descritpor_tag rest tag

module _ {D : Type 0} (parse : ℕ → Bytes → ℕ → Option D) where
  -- The node that a round reads.
  unfoldable pub read_stream : Bytes → Option (EsNode D)
  read_stream pdata = do
    stream_type' ← read8 pdata 0
    pid ← read16 pdata 1
    len ← read16 pdata 3
    ds ← parse_descriptors parse (drop 5 pdata) (bit_and len 0x0FFF)
    some (record {
      stream_type = stream_type';
      elementary_pid = bit_and pid 0x1FFF;
      es_info_length = bit_and len 0x0FFF;
      descriptors = ds;
    })

-- `memory` says whether `realloc` gives the memory of the registries, `new_subtitle` and
-- `new_teletext` what `calloc` gives for the data of a stream.
module _ {Priv D : Type 0} (new_subtitle new_teletext : Option Priv) (zero_header : NonPs)
    (memory : Bool) where
  -- The branch for what is neither sections nor SCTE 35.
  unfoldable pub register_data : EsNode D → Registries Priv → Option (Registries Priv)
  register_data pn r = do
    (pes', fs') ←
        register_pes_ops zero_header memory memory pn.elementary_pid pn.stream_type r.pes
          r.psi.filters
    pes'' ←
        (if has_descritpor_tag pn.descriptors 0x59
          then register_pes_data_callback new_subtitle new_teletext pn.elementary_pid pn.stream_type
              parse_subtitle 0x59 pes'
          else if has_descritpor_tag pn.descriptors 0x56
          then register_pes_data_callback new_subtitle new_teletext pn.elementary_pid pn.stream_type
              parse_teletext 0x56 pes'
          else some pes')
    some (record r { pes = pes''; psi = record r.psi { filters = fs' } })

  unfoldable pub register_stream : EsNode D → Registries Priv → Option (Registries Priv)
  unfolding register_data
  register_stream pn r =
      if pn.stream_type == 0x05 || (leb 0x08 pn.stream_type && leb pn.stream_type 0x0D)
      then (do
        psi' ← register_section_ops memory pn.elementary_pid 0 none r.psi
        some (record r { psi = psi' }))
      else if pn.stream_type == 0x86
      then (do
        (scte', psi') ← register_scte_ops memory pn.elementary_pid r.scte r.psi
        some (record r { scte = scte'; psi = psi' }))
      else register_data pn r

  module _ (parse : ℕ → Bytes → ℕ → Option D) where
    -- The loop with `section_len` bytes to go: one below zero ends it as 0 does. `node_memory` says
    -- whether `calloc` gives the nodes. A round takes at least five bytes.
    unfoldable pub streams_from :
        Bool
        → ℕ
        → Bytes
        → ℕ
        → Registries Priv
        → Option (PatResult × List (EsNode D) × Registries Priv)
    unfolding read_stream register_stream
    streams_from node_memory fuel pdata zero r = some (parsed, [], r)
    streams_from node_memory zero pdata (suc len) r = none
    streams_from false (suc fuel) pdata (suc len) r = some (out_of_memory, [], r)
    streams_from true (suc fuel) pdata (suc len) r = do
      pn ← read_stream parse pdata
      r' ← register_stream pn r
      (result, later, r'') ←
          streams_from true fuel (drop (5 + pn.es_info_length) pdata)
            (suc len - (5 + pn.es_info_length)) r'
      some (result, pn ∷ later, r'')

    -- What follows once the table is whole. What the old nodes and descriptors held is given back,
    -- which nothing here observes.
    unfoldable pub read_pmt :
        Bool
        → TableHeader
        → Bytes
        → Pmt D
        → Registries Priv
        → Option (PatResult × Pmt D × Registries Priv)
    unfolding streams_from
    read_pmt node_memory h pdata p r = do
      pcr ← read16 pdata 0
      info ← read16 pdata 2
      let info_length = bit_and info 0x0FFF
      ds ← parse_descriptors parse (drop 4 pdata) info_length
      let section_len = h.section_length - (5 + 4) - 2 - (2 + info_length)
      (result, streams', r') ←
          streams_from node_memory section_len (drop (4 + info_length) pdata) section_len r
      let p' : Pmt D = record {
        pmt_header = h;
        program_number = h.table_id_ext;
        pcr_pid = bit_and pcr 0x1FFF;
        program_info_length = info_length;
        descriptors = ds;
        streams = streams';
      }
      some (result, p', r')

    unfoldable pub parse_pmt :
        (ℕ → Option Bytes)
        → Bool
        → Option Bytes
        → ℕ
        → Pmt D
        → Registries Priv
        → Heap
        → Option (PatResult × Pmt D × Registries Priv × Heap)
    unfolding read_pmt
    parse_pmt malloc node_memory pbuf buf_size p r mem = do
      (ret, header', mem') ← parse_section_header malloc pbuf buf_size p.pmt_header mem
      elim ret [
        | done ↦ (do
          (result, p', r') ←
              read_pmt node_memory header' (contents (load header'.private_data_byte mem')) p r
          some (result, p', r', mem'))
        | other ↦ some (not_done other, record p { pmt_header = header' }, r, mem')
      ]

    -- `psi.pmt` is an array with an entry for each PID.
    unfoldable pub pmt_proc :
        (ℕ → Option Bytes)
        → Bool
        → ℕ
        → Option Bytes
        → ℕ
        → (ℕ → Pmt D)
        → Registries Priv
        → Heap
        → Option ((ℕ → Pmt D) × Registries Priv × Heap)
    unfolding parse_pmt
    pmt_proc malloc node_memory pid pkt len pmts r mem = do
      (_, p', r', mem') ← parse_pmt malloc node_memory pkt len (pmts pid) r mem
      some (update pmts pid p', r', mem')
