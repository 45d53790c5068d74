-- ===== src/Ts/Packet.antt =====
-- src/ts.c: `ts_proc`, the way of one packet. `R` is the state of the tables and streams behind
-- the packets, and `Demux` what `ts_proc` asks of them.
pub mod Header
pub mod Counters
use tsanalyze.Base.{
  ℕ, ◌+◌, ◌-◌, ◌*◌, ◌/◌, ◌%◌, ◌^◌, ◌==◌, ltb, if◌then◌else◌, bit_and, ◌&&◌, ◌||◌, not,
}
use tsanalyze.Base.{
  Bool, true, false, Option, none, some, ◌>>=◌, Bytes, read8, read16, drop, u64, sub8, ◌>>>◌,
  update,
}
use tsanalyze.Filter.{Status, ok, failed}
use tsanalyze.Ts.Section.{SectionParser, Preproc, section_preproc, minus_one}
use tsanalyze.Ts.Adaptation.{PidOps, Cursor, step, ts_adaptation_field_proc}

-- The fields of `ts_header` that are read.
pub record TsHeader : Type 0 where
  pub transport_error_indicator : ℕ
  pub payload_unit_start_indicator : ℕ
  pub pid : ℕ
  pub adaptation_field_control : ℕ
  pub continuity_counter : ℕ

abbrev pub ts_sync_byte : ℕ
ts_sync_byte = 0x47

abbrev pub null_pid : ℕ
null_pid = 0x1FFF

abbrev pub adapt_reserved : ℕ
adapt_reserved = 0

abbrev pub adapt_only : ℕ
adapt_only = 2

abbrev pub adapt_both : ℕ
adapt_both = 3

-- The four bytes of the header, with the cursor behind them. The counter is cut to two bits, and
-- the unit start to the one bit of its field.
unfoldable pub read_header : Cursor → Option (TsHeader × Cursor)
read_header c = do
  word ← read16 (drop 1 c.ptr) 0
  flags ← read8 (drop 1 c.ptr) 0
  control ← read8 (drop 2 (drop 1 c.ptr)) 0
  some (
    record {
      transport_error_indicator = flags >>> 7;
      payload_unit_start_indicator = (flags >>> 6) % 2;
      pid = bit_and word 0x1FFF;
      adaptation_field_control = bit_and (control >>> 4) 0x3;
      continuity_counter = bit_and control 0x3;
    },
    step (step (step c 1) 2) 1,
  )

pub record Demux (R : Type 0) : Type 0 where
  pub check_pmt_pid : ℕ → R → Option Bool
  pub check_section_pid : ℕ → R → Option Bool
  pub check_es_pid : ℕ → R → Option Bool
  pub filter_proc : ℕ → Bytes → ℕ → R → Option (Status × R)

pub record TsState (R : Type 0) : Type 0 where
  pub sec : ℕ → SectionParser
  pub pid_dev : ℕ → PidOps
  pub behind : R

abbrev pub has_adaptation : TsHeader → Bool
has_adaptation h =
    h.adaptation_field_control == adapt_only || h.adaptation_field_control == adapt_both

abbrev pub has_no_payload : TsHeader → Bool
has_no_payload h =
    h.adaptation_field_control == adapt_only || h.adaptation_field_control == adapt_reserved

module _ {R : Type 0} where
  abbrev pub put_dev : ℕ → PidOps → TsState R → TsState R
  put_dev pid dev s = record s { pid_dev = update s.pid_dev pid dev }

  abbrev pub count_packet : ℕ → TsState R → TsState R
  count_packet pid s =
      put_dev pid (record (s.pid_dev pid) { pkts_in = u64 ((s.pid_dev pid).pkts_in + 1) }) s

  abbrev pub count_error : TsHeader → TsState R → TsState R
  count_error h s =
      if h.transport_error_indicator == 1
      then put_dev h.pid
          (record (s.pid_dev h.pid) { error_in = u64 ((s.pid_dev h.pid).error_in + 1) }) s
      else s

  abbrev pub count_section : ℕ → TsState R → TsState R
  count_section pid s =
      put_dev pid (record (s.pid_dev pid) { sections_in = u64 ((s.pid_dev pid).sections_in + 1) }) s

  -- The adaptation field, if there is one.
  unfoldable pub adaptation_part : TsHeader → ℕ → Cursor → TsState R → Option (Cursor × TsState R)
  adaptation_part h pkt_len c s =
      if has_adaptation h
      then (do
        size ← read8 c.ptr 0
        let c' = step c 1
        (whole, dev) ← ts_adaptation_field_proc pkt_len c'.ptr size (s.pid_dev h.pid)
        some (step c' size, put_dev h.pid dev s))
      else some (c, s)

  module _ (malloc : Option Bytes) (demux : Demux R) where
    -- A section or PES packet that is whole goes to the filters.
    unfoldable pub hand_over : ℕ → Preproc → TsState R → Option (Status × TsState R)
    hand_over pid r s =
        if r.ret == minus_one || r.ret == 0 then some (ok, s) else elim r.buffering [
          | none ↦ none
          | some buf ↦ (do
            let s' = count_section pid s
            (status, behind') ← demux.filter_proc pid buf r.ret s'.behind
            some (ok, record s' { behind = behind' }))
        ]

    -- `psi_or_pes`
    unfoldable pub is_pes_pid : ℕ → R → Option Bool
    is_pes_pid pid r = if ltb pid 0x20 then some false else do
      pmt ← demux.check_pmt_pid pid r
      section ← (if pmt then some true else demux.check_section_pid pid r)
      some (not section)

    unfoldable pub payload_part : TsHeader → Cursor → TsState R → Option (Status × TsState R)
    unfolding hand_over is_pes_pid
    payload_part h c s = do
      is_pes ← is_pes_pid h.pid s.behind
      known ← (if is_pes then demux.check_es_pid h.pid s.behind else some true)
      if known
          then (do
            r ←
                section_preproc malloc (s.sec h.pid) c.ptr c.left h.payload_unit_start_indicator
                  h.continuity_counter is_pes
            hand_over h.pid r (record s { sec = update s.sec h.pid r.parser }))
          else some (failed, s)

    -- `none` for the data is the null pointer.
    unfoldable pub ts_proc : Option Bytes → ℕ → TsState R → Option (Status × TsState R)
    unfolding payload_part adaptation_part read_header
    ts_proc none len s = some (failed, s)
    ts_proc (some ptr) len s = do
      sync ← read8 ptr 0
      if sync == ts_sync_byte
          then (do
            (h, c) ← read_header (record { ptr = ptr; left = len })
            (c', s') ← adaptation_part h len c (count_packet h.pid s)
            if has_no_payload h
                then some (ok, s')
                else if h.pid == null_pid
                then some (ok, count_error h s')
                else payload_part h c' (count_error h s'))
          else some (failed, s)
