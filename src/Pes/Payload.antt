-- ===== src/Pes/Payload.antt =====
-- src/pes.c: where `parse_pes_packet` finds the data of a packet that has a header.
use tsanalyze.Base.{
  ℕ, ◌+◌, ◌-◌, ◌*◌, ◌^◌, ◌≤◌, ◌<◌, bit, false, Option, some, ◌>>=◌, Bytes, read8, read16, length,
  drop, u16, ◌≡◌, refl, ap, subst, ◌∙◌, arith,
}
use tsanalyze.Pes.{Pes, MpegtsPes, DataCallback, put_entry}
use tsanalyze.Pes.Header.{Reading}
use tsanalyze.Pes.Extension.{header_parts}
use tsanalyze.Pes.Packet.{
  has_no_header, find_entry, parse_body, call_back, give_data, parse_pes_packet,
}
use tsanalyze.Pes.Extended.{extension_size}
use tsanalyze.Pes.HeaderEnd.{start, fields_size, header_parts-plain, header_parts-extended}

module _ {Priv : Type 0} where
  parse_body_lem :
      (pkt : Bytes) (pt : Pes Priv) (r : Reading) (hdl extra : ℕ)
      → has_no_header pt.stream_id ≡ false
      → header_parts pkt (start pt.packet_data) ≡ some r
      → r.at ≡ r.head_len + extra
      → r.packet_data.pes_header_data_length ≡ hdl
      → parse_body pkt pt
        ≡ some (record pt {
          packet_data = r.packet_data;
          pes_packet_data_byte = some (drop (9 + hdl + extra) pkt);
          pes_packet_length = u16 (pt.pes_packet_length + 2 ^ 16 - (3 + hdl));
        })
  unfolding parse_body
  parse_body_lem pkt pt r hdl extra headed ran at' len =
      let ends : r.at + (9 + hdl) - r.head_len ≡ 9 + hdl + extra = omega (arith, at') in
      let counted : 9 + hdl - 6 ≡ 3 + hdl = omega arith in rw (headed, ran, len, ends, counted) refl

  module _ (run_callback : DataCallback → ℕ → Bytes → ℕ → Option Priv → Option (Option Priv)) where
    -- What a packet does once its header is read.
    abbrev pub Delivered : ℕ → Bytes → MpegtsPes Priv → Pes Priv → ℕ → ℕ → ℕ → Option Priv → Type 0
    Delivered pid pkt pes pt sid from len priv' =
        (pt' : Pes Priv) × (parse_pes_packet run_callback pid pkt pes
          ≡ some (some (len + 6), record pes { list = put_entry pes.list (pes.pid_index pid) pt' }))
        × (pt'.priv ≡ priv')
        × (pt'.stream_id ≡ sid)
        × (pt'.pes_packet_data_byte ≡ some (drop from pkt))
        × (pt'.pes_packet_length ≡ len)

    give_data_lem :
        (pid : ℕ) (pt : Pes Priv) (callback : DataCallback) (data' : Bytes) (priv' : Option Priv)
        → pt.cb ≡ some callback
        → pt.pes_packet_data_byte ≡ some data'
        → run_callback callback pid data' pt.pes_packet_length pt.priv ≡ some priv'
        → give_data run_callback pid pt ≡ some (record pt { priv = priv' })
    unfolding give_data
    give_data_lem pid pt callback data' priv' has_cb has_data called =
        ap (λ c. call_back run_callback c pt.pes_packet_data_byte pid pt) has_cb
        ∙ ap (λ d. call_back run_callback (some callback) d pid pt) has_data
        ∙ ap (λ o. o >>= λ p. some (record pt { priv = p })) called

    parse_pes_packet-Delivered :
        (pid sid len from : ℕ) (pkt : Bytes) (pes : MpegtsPes Priv) (pt body : Pes Priv)
        (callback : DataCallback) (priv' : Option Priv)
        → find_entry pid pes ≡ some (some pt)
        → read8 pkt 0 ≡ some 0
        → read8 pkt 1 ≡ some 0
        → read8 pkt 2 ≡ some 1
        → read8 pkt 3 ≡ some sid
        → read16 pkt 4 ≡ some len
        → parse_body pkt
            (record pt { packet_start_code_prefix = 1; stream_id = sid; pes_packet_length = len })
          ≡ some body
        → body.cb ≡ some callback
        → body.pes_packet_data_byte ≡ some (drop from pkt)
        → run_callback callback pid (drop from pkt) body.pes_packet_length body.priv ≡ some priv'
        → body.stream_id ≡ sid
        → Delivered pid pkt pes pt sid from body.pes_packet_length priv'
    unfolding parse_pes_packet
    parse_pes_packet-Delivered pid sid len from pkt pes pt body callback priv' found at0 at1 at2 at3
          at4 ran has_cb data' called same =
        (
          record body { priv = priv' },
          rw
              (
                found,
                at0,
                at1,
                at2,
                at3,
                at4,
                ran,
                give_data_lem pid body callback (drop from pkt) priv' has_cb data' called,
              )
              refl,
          refl,
          same,
          data',
          refl,
        )

    -- Let the PID have an entry with a data callback, and let the packet start with 00 00 01, be of
    -- a stream whose packets have a header, have no extension flag, and reach as far as its flags
    -- announce fields. Then the callback is called once, with the bytes behind the 9 + hdl bytes of
    -- the header, where hdl is the header's own length byte, and with the packet's length less
    -- 3 + hdl, modulo 2^16; that and 6 more is the result.
    pub parse_pes_packet-plain :
        (pid sid b hdl len : ℕ) (pkt : Bytes) (pes : MpegtsPes Priv) (pt : Pes Priv)
        (callback : DataCallback) (priv' : Option Priv)
        → find_entry pid pes ≡ some (some pt)
        → pt.cb ≡ some callback
        → read8 pkt 0 ≡ some 0
        → read8 pkt 1 ≡ some 0
        → read8 pkt 2 ≡ some 1
        → read8 pkt 3 ≡ some sid
        → read16 pkt 4 ≡ some len
        → read8 pkt 7 ≡ some b
        → read8 pkt 8 ≡ some hdl
        → has_no_header sid ≡ false
        → bit b 0 ≡ 0
        → 9 + fields_size b ≤ length pkt
        → run_callback callback pid (drop (9 + hdl) pkt) (u16 (len + 2 ^ 16 - (3 + hdl))) pt.priv
          ≡ some priv'
        → Delivered pid pkt pes pt sid (9 + hdl) (u16 (len + 2 ^ 16 - (3 + hdl))) priv'
    parse_pes_packet-plain pid sid b hdl len pkt pes pt callback priv' found has_cb at0 at1 at2 at3
          at4 at7 at8 headed off inside called =
        let (r, ran, at', kept) = header_parts-plain pkt pt.packet_data b hdl at7 at8 off inside in
        let read : Pes Priv = record pt {
          packet_start_code_prefix = 1;
          stream_id = sid;
          pes_packet_length = len;
        } in
        let same_end : 9 + hdl + 0 ≡ 9 + hdl = omega arith in
        parse_pes_packet-Delivered pid sid len (9 + hdl) pkt pes pt
          (record read {
            packet_data = r.packet_data;
            pes_packet_data_byte = some (drop (9 + hdl) pkt);
            pes_packet_length = u16 (len + 2 ^ 16 - (3 + hdl));
          })
          callback priv' found at0 at1 at2 at3 at4
          (subst
            (λ n.
              parse_body pkt read
              ≡ some (record read {
                packet_data = r.packet_data;
                pes_packet_data_byte = some (drop n pkt);
                pes_packet_length = u16 (len + 2 ^ 16 - (3 + hdl));
              }))
            same_end (parse_body_lem pkt read r hdl 0 headed ran at' kept))
          has_cb refl called refl

    -- With the extension flag, and an extension that has neither a pack header nor a second part,
    -- the callback gets the bytes from the same place only when the extension has no sequence
    -- counter; with one it gets them from two bytes further on, and the same length.
    pub parse_pes_packet-extended :
        (pid sid b hdl x len : ℕ) (pkt : Bytes) (pes : MpegtsPes Priv) (pt : Pes Priv)
        (callback : DataCallback) (priv' : Option Priv)
        → find_entry pid pes ≡ some (some pt)
        → pt.cb ≡ some callback
        → read8 pkt 0 ≡ some 0
        → read8 pkt 1 ≡ some 0
        → read8 pkt 2 ≡ some 1
        → read8 pkt 3 ≡ some sid
        → read16 pkt 4 ≡ some len
        → read8 pkt 7 ≡ some b
        → read8 pkt 8 ≡ some hdl
        → has_no_header sid ≡ false
        → bit b 0 ≡ 1
        → read8 pkt (9 + fields_size b) ≡ some x
        → x < 256
        → bit x 6 ≡ 0
        → bit x 0 ≡ 0
        → 9 + fields_size b + extension_size x ≤ length pkt
        → run_callback callback pid
            (drop (9 + hdl + 2 * bit x 5) pkt)
            (u16 (len + 2 ^ 16 - (3 + hdl)))
            pt.priv
          ≡ some priv'
        → Delivered pid pkt pes pt sid
            (9 + hdl + 2 * bit x 5)
            (u16 (len + 2 ^ 16 - (3 + hdl)))
            priv'
    parse_pes_packet-extended pid sid b hdl x len pkt pes pt callback priv' found has_cb at0 at1 at2
          at3 at4 at7 at8 headed on at_x byte no_pack no_second inside called =
        let (r, ran, at', kept) =
          header_parts-extended pkt pt.packet_data b hdl x at7 at8 on at_x byte no_pack no_second
            inside in
        let read : Pes Priv = record pt {
          packet_start_code_prefix = 1;
          stream_id = sid;
          pes_packet_length = len;
        } in
        parse_pes_packet-Delivered pid sid len (9 + hdl + 2 * bit x 5) pkt pes pt
          (record read {
            packet_data = r.packet_data;
            pes_packet_data_byte = some (drop (9 + hdl + 2 * bit x 5) pkt);
            pes_packet_length = u16 (len + 2 ^ 16 - (3 + hdl));
          })
          callback priv' found at0 at1 at2 at3 at4
          (parse_body_lem pkt read r hdl (2 * bit x 5) headed ran at' kept) has_cb refl called refl
