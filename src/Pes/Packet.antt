-- ===== src/Pes/Packet.antt =====
-- src/pes.c: `parse_pes_packet`, and the callbacks that take the data of a stream.
use tsanalyze.Base.{
  ℕ, ◌+◌, ◌-◌, ◌==◌, ◌!=◌, ltb, leb, if◌then◌else◌, bit_or, Bool, true, false, Option, none, some,
  ◌>>=◌, Bytes, read8, read16, drop, u16, ◌<<<◌, ◌||◌, not, ◌^◌,
}
use tsanalyze.Bitmap.{bitmap64_get}
use tsanalyze.Pes.{MpegtsPes, Pes, DataCallback, entry, put_entry}
use tsanalyze.Pes.Extension.{header_parts}

-- The eight streams whose packets have no header behind the length.
abbrev pub has_no_header : ℕ → Bool
has_no_header sid =
    sid == 0xBC
    || sid == 0xBE
    || sid == 0xBF
    || sid == 0xF0
    || sid == 0xF1
    || sid == 0xFF
    || sid == 0xF2
    || sid == 0xF8

abbrev pub padding_stream : ℕ
padding_stream = 0xBE

module _ {Priv : Type 0} where
  -- The entry of a PID; the inner `none` is the result -1.
  unfoldable pub find_entry : ℕ → MpegtsPes Priv → Option (Option (Pes Priv))
  find_entry pid pes = do
    registered ← bitmap64_get pes.pid_bitmap pid
    if not registered || ltb pes.pid_num (pes.pid_index pid)
        then some none
        else do pt ← entry pes.list (pes.pid_index pid); some (some pt)

  -- What is behind the length. The pointer may end behind the packet; that is a fault when it is
  -- read through.
  unfoldable pub parse_body : Bytes → Pes Priv → Option (Pes Priv)
  parse_body pkt pt =
      if not (has_no_header pt.stream_id)
      then (do
        r ← header_parts pkt (record { packet_data = pt.packet_data; at = 6; head_len = 6 })
        let head_len = 9 + r.packet_data.pes_header_data_length
        some (record pt {
          packet_data = r.packet_data;
          pes_packet_data_byte = some (drop (r.at + head_len - r.head_len) pkt);
          pes_packet_length = u16 (pt.pes_packet_length + 2 ^ 16 - (head_len - 6));
        }))
      else if pt.stream_id == padding_stream
      then some (record pt { pes_packet_data_byte = none })
      else some (record pt { pes_packet_data_byte = some (drop 6 pkt) })

  -- The data callbacks change what `priv` points at; `none` is one that faults.
  module _ (run_callback : DataCallback → ℕ → Bytes → ℕ → Option Priv → Option (Option Priv)) where
    abbrev pub call_back : Option DataCallback → Option Bytes → ℕ → Pes Priv → Option (Pes Priv)
    call_back none data_byte pid pt = some pt
    call_back (some callback) none pid pt = some pt
    call_back (some callback) (some data') pid pt = do
      priv' ← run_callback callback pid data' pt.pes_packet_length pt.priv
      some (record pt { priv = priv' })

    unfoldable pub give_data : ℕ → Pes Priv → Option (Pes Priv)
    give_data pid pt = call_back pt.cb pt.pes_packet_data_byte pid pt

    -- The result is that of the function, `none` for -1.
    unfoldable pub parse_pes_packet :
        ℕ → Bytes → MpegtsPes Priv → Option (Option ℕ × MpegtsPes Priv)
    unfolding find_entry parse_body give_data
    parse_pes_packet pid pkt pes = do
      found ← find_entry pid pes
      elim found [
        | none ↦ some (none, pes)
        | some pt ↦ (do
          b₀ ← read8 pkt 0
          b₁ ← read8 pkt 1
          b₂ ← read8 pkt 2
          let prefix = bit_or (bit_or (b₀ <<< 16) (b₁ <<< 8)) b₂
          let index = pes.pid_index pid
          if prefix != 1
              then (do
                let pt' : Pes Priv = record pt { packet_start_code_prefix = prefix }
                some (none, record pes { list = put_entry pes.list index pt' }))
              else (do
                sid ← read8 pkt 3
                len ← read16 pkt 4
                pt' ← parse_body pkt (record pt {
                  packet_start_code_prefix = prefix;
                  stream_id = sid;
                  pes_packet_length = len;
                })
                pt'' ← give_data pid pt'
                some (
                  some (pt''.pes_packet_length + 6),
                  record pes { list = put_entry pes.list index pt'' },
                )))
      ]

    -- Whether it is 0, with the new state.
    unfoldable pub pes_proc : ℕ → Bytes → MpegtsPes Priv → Option (Bool × MpegtsPes Priv)
    unfolding parse_pes_packet
    pes_proc pid pkt pes = do
      (ret, pes') ← parse_pes_packet pid pkt pes
      elim ret [ none ↦ some (false, pes') | some _ ↦ some (true, pes') ]

  -- `pes_private_alloc`, with the two blocks that `calloc` may give.
  module _ (new_subtitle new_teletext : Option Priv) where
    unfoldable pub pes_private_alloc : ℕ → Option Priv
    pes_private_alloc tag =
        if tag == 0x59 then new_subtitle else if tag == 0x56 then new_teletext else none

    unfoldable pub register_pes_data_callback :
        ℕ → ℕ → DataCallback → ℕ → MpegtsPes Priv → Option (MpegtsPes Priv)
    unfolding pes_private_alloc
    register_pes_data_callback pid stream_type cb tag pes =
        let index = pes.pid_index pid in
        if leb pes.pid_num index then some pes else do
          pt ← entry pes.list index
          let with_cb : Pes Priv = record pt { cb = some cb }
          let with_priv : Pes Priv = record with_cb { tag = tag; priv = pes_private_alloc tag }
          if not (pt.type == stream_type) then some pes else elim pt.cb [
            | some _ ↦ some pes
            | none ↦ elim pt.priv [
              | some _ ↦ some (record pes { list = put_entry pes.list index with_cb })
              | none ↦ some (record pes { list = put_entry pes.list index with_priv })
            ]
          ]
