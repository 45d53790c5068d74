-- ===== src/Ps/Pack.antt =====
-- src/ps.c: `parse_pack`, `parse_system_header` and the loop of `parse_ps` over the packs.
pub mod One
pub mod Whole
use tsanalyze.Base.{
  ℕ, zero, suc, ◌+◌, ◌-◌, ◌%◌, ◌^◌, ◌>>>◌, ◌==◌, ◌&&◌, if◌then◌else◌, bit, bits8, leb, Bool, true,
  false, Option, none, some, ◌>>=◌, Bytes, read8, read16, read32, read64, u16, drop, ℤ, pos, negsuc,
  sub_ℕ,
}
use tsanalyze.Pes.{MpegtsPes, DataCallback}
use tsanalyze.Pes.Packet.{parse_pes_packet}

-- `estd`
pub record Estd : Type 0 where
  pub stream_id : ℕ
  pub pstd_buffer_bound_scale : ℕ
  pub pstd_buffer_size_bound : ℕ

-- `system_header`; `es` is written only for a stream that is there.
pub record SystemHeader : Type 0 where
  pub system_header_start_code : ℕ
  pub header_length : ℕ
  pub marker_bit : ℕ
  pub rate_bound : ℕ
  pub marker_bit1 : ℕ
  pub audio_bound : ℕ
  pub fixed_flag : ℕ
  pub csps_flag : ℕ
  pub system_audio_lock_flag : ℕ
  pub system_video_lock_flag : ℕ
  pub marker_bit2 : ℕ
  pub video_bound : ℕ
  pub packet_rate_restriction_flag : ℕ
  pub es : Option Estd

-- `pack_header`, with the 64 bits of its clock as `md`.
pub record PackHeader : Type 0 where
  pub pack_start_code : ℕ
  pub md : ℕ
  pub program_mux_rate_l : ℕ
  pub marker_bit5 : ℕ
  pub marker_bit6 : ℕ
  pub reserved : ℕ
  pub pack_stuffing_length : ℕ

abbrev pub estd_of : ℕ → ℕ → Estd
estd_of id v = record {
  stream_id = id;
  pstd_buffer_bound_scale = bit v 13;
  pstd_buffer_size_bound = v % 2 ^ 13;
}

-- The first stream, if the next bit is a one.
unfoldable pub read_estd : Bytes → Option (Option Estd)
read_estd buf = do
  id ← read8 buf 0
  if bit id 7 == 1 then (do v ← read16 buf 1; some (some (estd_of id v))) else some none

-- The fields, by the words and bytes they are bits of.
abbrev pub system_header_of : ℕ → ℕ → ℕ → ℕ → ℕ → Option Estd → SystemHeader
system_header_of start len bounds locks restriction es' = record {
  system_header_start_code = start;
  header_length = len;
  marker_bit = bit bounds 31;
  rate_bound = (bounds >>> 9) % 2 ^ 22;
  marker_bit1 = bit bounds 8;
  audio_bound = (bounds >>> 2) % 2 ^ 6;
  fixed_flag = bit bounds 1;
  csps_flag = bit bounds 0;
  system_audio_lock_flag = bit locks 7;
  system_video_lock_flag = bit locks 6;
  marker_bit2 = bit locks 5;
  video_bound = bits8 locks 5 3;
  packet_rate_restriction_flag = bit restriction 7;
  es = es';
}

-- The length that is returned, with the header.
unfoldable pub parse_system_header : Bytes → Option (ℕ × SystemHeader)
unfolding read_estd
parse_system_header pkt = do
  start ← read32 pkt 0
  len ← read16 pkt 4
  bounds ← read32 pkt 6
  locks ← read8 pkt 10
  restriction ← read8 pkt 11
  es' ← read_estd (drop 12 pkt)
  some (len + 6, system_header_of start len bounds locks restriction es')

abbrev pub pack_header_of : ℕ → ℕ → ℕ → ℕ → PackHeader
pack_header_of start clock rate stuffing = record {
  pack_start_code = start;
  md = clock;
  program_mux_rate_l = bits8 rate 6 0;
  marker_bit5 = bit rate 1;
  marker_bit6 = bit rate 0;
  reserved = bits8 stuffing 3 0;
  pack_stuffing_length = stuffing % 2 ^ 5;
}

-- `l -= n` on a `uint16_t`, for `n` below 2 ^ 17.
abbrev pub step_left : ℕ → ℕ → ℕ
step_left l n = u16 (l + 2 ^ 17 - n)

-- Where a packet ends, by the length that `parse_pes_packet` returns, and what is left.
abbrev pub after_packet : Option ℕ → ℕ → ℕ
after_packet none at = at - 1
after_packet (some n) at = at + n

abbrev pub left_after : Option ℕ → ℕ → ℕ
left_after none l = u16 (l + 1)
left_after (some n) l = step_left l n

-- A packet of the program stream map starts here.
abbrev pub is_map : ℕ → Bool
is_map next_head = next_head >>> 8 == 1 && next_head % 2 ^ 8 == 0xBC

-- The test for a system header at a position, with the word read there: where it ends, and the
-- word there.
unfoldable pub skip_system : Bytes → ℕ → ℕ → Option (ℕ × ℕ)
unfolding parse_system_header
skip_system pkt at next_head =
    if next_head == 0x000001BB
    then (do
      (ret, _) ← parse_system_header (drop at pkt)
      next ← read32 pkt (at + ret)
      some (at + ret, next))
    else some (at, next_head)

module _ {Priv : Type 0}
    (run_callback : DataCallback → ℕ → Bytes → ℕ → Option Priv → Option (Option Priv)) where
  -- A position in the packet is that of `buf`, with the bytes left, `l`, as a `uint16_t` counts
  -- them. A packet of an unknown stream gives the length -1, which is one step back; the position
  -- is then behind the fourteen bytes of the header. A round of the loop moves on by six bytes at
  -- least, and after a step back the test fails; `none` is a read outside the packet or a loop
  -- that takes more rounds than `fuel`.
  unfoldable pub maps_from :
      ℕ → ℕ → Bytes → ℕ → ℕ → ℕ → MpegtsPes Priv → Option (ℕ × ℕ × MpegtsPes Priv)
  unfolding parse_pes_packet
  maps_from zero pid pkt at l next_head pes = none
  maps_from (suc fuel) pid pkt at l next_head pes =
      if is_map next_head
      then (do
        (ret, pes') ← parse_pes_packet run_callback pid (drop at pkt) pes
        let at' = after_packet ret at
        next ← read32 pkt at'
        maps_from fuel pid pkt at' (left_after ret l) next pes')
      else some (at, l, pes)

  -- What is returned is `len - l`, an `int`.
  unfoldable pub parse_pack :
      ℕ → ℕ → Bytes → ℕ → MpegtsPes Priv → Option (ℤ × PackHeader × MpegtsPes Priv)
  unfolding skip_system maps_from
  parse_pack fuel pid pkt len pes = do
    start ← read32 pkt 0
    clock ← read64 pkt 4
    rate ← read8 pkt 12
    stuffing ← read8 pkt 13
    let ph = pack_header_of start clock rate stuffing
    let at = 14 + ph.pack_stuffing_length
    next_head ← read32 pkt at
    (at', next) ← skip_system pkt at next_head
    (_, l, pes') ← maps_from fuel pid pkt at' (step_left len at') next pes
    some (sub_ℕ len l, ph, pes')

  -- The loop of `parse_ps`, at the position `at` with `l` bytes left; a position before the packet
  -- is a fault. `fuel` bounds the rounds.
  unfoldable pub packs_from :
      ℕ → ℕ → Bytes → ℕ → ℕ → MpegtsPes Priv → Option (Bool × MpegtsPes Priv)
  unfolding parse_pack
  packs_from zero pid pkt at l pes = none
  packs_from (suc fuel) pid pkt at l pes = do
    head ← read32 pkt at
    if head == 0x000001BA
        then (do
          (ret, _, pes') ← parse_pack (suc fuel) pid (drop at pkt) l pes
          elim ret [
            | pos n ↦ packs_from fuel pid pkt (at + n) (step_left l n) pes'
            | negsuc n ↦
                if leb (suc n) at
                then packs_from fuel pid pkt (at - suc n) (u16 (l + suc n)) pes'
                else none
          ])
        else some (head == 0x000001B9, pes)

  unfoldable pub parse_ps : ℕ → ℕ → Bytes → ℕ → MpegtsPes Priv → Option (Bool × MpegtsPes Priv)
  unfolding packs_from
  parse_ps fuel pid pkt len pes = packs_from fuel pid pkt 0 len pes
