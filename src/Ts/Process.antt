-- ===== src/Ts/Process.antt =====
-- src/ts.c: `ts_process` on a file. `S` is the state behind `ts_proc`, and `proc` what `ts_proc`
-- does to it; its result is not looked at.
pub mod Blocks
pub mod Reads
pub mod Files
pub mod Whole
pub mod Packets
mod Tests
use tsanalyze.Base.{
  ℕ, zero, suc, ◌+◌, ◌-◌, ◌*◌, ◌/◌, ◌^◌, ◌%◌, ◌==◌, ◌!=◌, leb, if◌then◌else◌, u64, Bool, true,
  false, Option, none, some, ◌>>=◌, Bytes, take, drop, length, memcpy, replicate,
}
use tsanalyze.Input.{FileOps, fileio_open, fileio_read, at_end}
use tsanalyze.Ts.Probe.{
  PacketFormat, ts, dvhs, fec, ts_packet_size, ts_dvhs_packet_size, ts_fec_packet_size,
  mpegts_probe, analyze,
}

abbrev pub packet_length : PacketFormat → ℕ
packet_length ts = ts_packet_size
packet_length dvhs = ts_dvhs_packet_size
packet_length fec = ts_fec_packet_size

-- The variables of the loop, with the input and the state behind `ts_proc`.
pub record Loop (S : Type 0) : Type 0 where
  pub ptr : Bytes
  pub len : ℕ
  pub pkt_con : Bytes
  pub pkt_con_len : ℕ
  pub ops : FileOps
  pub state : S

-- `PL_STEP` on a `size_t`.
abbrev pub step_len : ℕ → ℕ → ℕ
step_len len v = u64 (len + 2 ^ 64 - v)

module _ {S : Type 0} (proc : Bytes → ℕ → S → Option S) (ts_pktlen : ℕ) where
  -- The inner loop. A round takes a packet, so `len` rounds are enough.
  unfoldable pub take_packets : ℕ → Bytes → ℕ → S → Option (Bytes × ℕ × S)
  take_packets zero ptr len s = if leb ts_pktlen len then none else some (ptr, len, s)
  take_packets (suc fuel) ptr len s =
      let rest : S → Option (Bytes × ℕ × S) =
        take_packets fuel (drop ts_pktlen ptr) (len - ts_pktlen) in
      if leb ts_pktlen len then proc ptr ts_pktlen s >>= rest else some (ptr, len, s)

  -- The packet that two blocks share is completed.
  unfoldable pub refill : Loop S → Option (Loop S)
  refill l =
      if l.pkt_con_len != 0
      then (do
        let missing = step_len ts_pktlen l.pkt_con_len
        con ← memcpy l.pkt_con l.pkt_con_len l.ptr missing
        some (record l {
          pkt_con = con;
          ptr = drop missing l.ptr;
          len = step_len l.len missing;
          pkt_con_len = ts_pktlen;
        }))
      else some l

  -- The first test of the loop's body.
  unfoldable pub finish_packet : Loop S → Option (Loop S)
  finish_packet l =
      if l.pkt_con_len == ts_pktlen
      then (do
        s' ← proc l.pkt_con ts_pktlen l.state
        some (record l { pkt_con_len = 0; state = s' }))
      else some l

  -- The packets of a block, and what is left of it.
  unfoldable pub use_block : Loop S → Option (Loop S)
  unfolding take_packets
  use_block l = do
    (ptr', len', s') ← take_packets l.len l.ptr l.len l.state
    let l' : Loop S = record l { ptr = ptr'; len = len'; state = s' }
    if len' != 0
        then (do
          con ← memcpy l.pkt_con 0 ptr' len'
          some (record l' { pkt_con = con; pkt_con_len = len' }))
        else some l'

  module _ (mmap : ℕ → Bool) (file : Bytes) where
    -- What follows a read: whether the loop ends, with its state.
    abbrev pub after_read : Option (Bytes × ℕ × FileOps) → Loop S → Option (Bool × Loop S)
    after_read none l = some (true, l)
    after_read (some block) l = do
      l' ← refill (record l { ptr = block.0; len = block.1; ops = block.2 })
      some (at_end l'.ops, l')

    unfoldable pub next_block : Loop S → Option (Bool × Loop S)
    unfolding refill
    next_block l = after_read (fileio_read mmap file l.ops) l

    -- The loop; `none` is also too few rounds.
    unfoldable pub process_from : ℕ → Loop S → Option S
    unfolding finish_packet use_block next_block
    process_from zero l = none
    process_from (suc fuel) l = do
      l₁ ← finish_packet l
      l₂ ← use_block l₁
      (stop, l₃) ← next_block l₂
      if stop then some l₃.state else process_from fuel l₃

-- The inner `none` is the result -1. A read that fails at the start leaves nothing to probe.
module _ {S : Type 0} (proc : Bytes → ℕ → S → Option S) (mmap : ℕ → Bool) (file : Bytes) where
  abbrev pub process_format : ℕ → S → Bytes × ℕ × FileOps → Option PacketFormat → Option (Option S)
  process_format fuel s block none = some none
  process_format fuel s block (some format) = do
    let ts_pktlen = packet_length format
    a ← analyze block.0 ts_pktlen (ts_pktlen * 2) 0
    s' ← process_from proc ts_pktlen mmap file fuel (record {
      ptr = drop a.index block.0;
      len = step_len block.1 a.index;
      pkt_con = replicate ts_fec_packet_size 0;
      pkt_con_len = 0;
      ops = block.2;
      state = s;
    })
    some (some s')

  abbrev pub process_read : ℕ → S → Option (Bytes × ℕ × FileOps) → Option (Option S)
  process_read fuel s none = some none
  process_read fuel s (some block) = do
    typ ← mpegts_probe block.0 block.1
    process_format fuel s block typ

  unfoldable pub ts_process : ℕ → S → Option (Option S)
  unfolding process_from
  ts_process fuel s = process_read fuel s (fileio_read mmap file (fileio_open file))
