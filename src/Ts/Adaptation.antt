-- ===== src/Ts/Adaptation.antt =====
-- src/ts.c: the adaptation field, its clock reference and the bit rate of a PID.
-- A bit-field of 33 bits is taken at its declared type, `uint64_t`.
pub mod Rate
use tsanalyze.Base.{
  ℕ, ◌+◌, ◌-◌, ◌*◌, ◌/◌, ◌%◌, ◌^◌, ◌==◌, if◌then◌else◌, bit_and, bit_or, bit, Bool,
}
use tsanalyze.Base.{
  Option, none, some, ◌>>=◌, Bytes, read8, read16, read32, drop, u64, sub8, sub64, ◌<<<◌, ◌>>>◌,
}

-- `struct pid_ops`
pub record PidOps : Type 0 where
  pub pkts_in : ℕ
  pub sections_in : ℕ
  pub error_in : ℕ
  pub bits_in : ℕ
  pub pcr : ℕ
  pub bitrate : ℕ

abbrev pub init_pid : PidOps
init_pid = record { pkts_in = 0; sections_in = 0; error_in = 0; bits_in = 0; pcr = 0; bitrate = 0 }

-- `pcr_clock`
pub record PcrClock : Type 0 where
  pub base : ℕ
  pub extension : ℕ

abbrev pub base_clk : ℕ
base_clk = 27000000

unfoldable pub calc_pcr_clock : PcrClock → ℕ
calc_pcr_clock c = u64 (u64 (c.base * 300) + c.extension)

-- `none` is the division by a difference of zero.
unfoldable pub calc_bitrate : ℕ → PcrClock → PidOps → Option PidOps
unfolding calc_pcr_clock
calc_bitrate pkt_len clock dev =
    let pcr' = calc_pcr_clock clock in
    let bits = u64 (u64 (dev.pkts_in * pkt_len) * 8) in
    let elapsed = sub64 pcr' dev.pcr in
    if elapsed == 0
    then none
    else some (record dev {
      pcr = pcr';
      bits_in = bits;
      bitrate = u64 (sub64 bits dev.bits_in * base_clk) / elapsed;
    })

-- A pointer with the length that is left: `PL_STEP` moves both.
pub record Cursor : Type 0 where
  pub ptr : Bytes
  pub left : ℕ

abbrev pub step : Cursor → ℕ → Cursor
step c n = record { ptr = drop n c.ptr; left = sub8 c.left n }

-- The 33 and 9 bits of a clock reference.
unfoldable pub read_pcr : Cursor → Option (PcrClock × Cursor)
read_pcr c = do
  high ← read32 c.ptr 0
  low ← read8 c.ptr 4
  ext ← read16 (drop 4 c.ptr) 0
  some (
    record { base = bit_or (high <<< 1) (low >>> 7); extension = bit_and ext 0x1FF },
    step (step c 4) 2,
  )

-- A part with its own length byte is stepped over.
unfoldable pub skip_sized : Cursor → Option Cursor
skip_sized c = do size ← read8 c.ptr 0; some (step (step c 1) size)

unfoldable pub pcr_part : ℕ → ℕ → Cursor → PidOps → Option (PidOps × Cursor)
unfolding read_pcr calc_bitrate
pcr_part flag pkt_len c dev =
    if flag == 1
    then (do (clock, c') ← read_pcr c; dev' ← calc_bitrate pkt_len clock dev; some (dev', c'))
    else some (dev, c)

unfoldable pub opcr_part : ℕ → Cursor → Option Cursor
unfolding read_pcr
opcr_part flag c = if flag == 1 then (do (clock, c') ← read_pcr c; some c') else some c

abbrev pub sized_part : ℕ → Cursor → Option Cursor
sized_part flag c = if flag == 1 then skip_sized c else some c

-- The value says whether the flags account for the whole length; the caller ignores it.
unfoldable pub ts_adaptation_field_proc : ℕ → Bytes → ℕ → PidOps → Option (Bool × PidOps)
unfolding pcr_part opcr_part skip_sized
ts_adaptation_field_proc pkt_len ptr len dev = do
  flags ← read8 ptr 0
  let c₁ = step (record { ptr = ptr; left = len }) 1
  (dev', c₂) ← pcr_part (bit flags 4) pkt_len c₁ dev
  c₃ ← opcr_part (bit flags 3) c₂
  let c₄ = if bit flags 2 == 1 then step c₃ 1 else c₃
  c₅ ← sized_part (bit flags 1) c₄
  c₆ ← sized_part (bit flags 0) c₅
  some (c₆.left == 0, dev')
