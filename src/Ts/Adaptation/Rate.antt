-- ===== src/Ts/Adaptation/Rate.antt =====
-- src/ts.c: what `calc_bitrate` finds, and when it divides by zero.
use tsanalyze.Base.{ℕ, ◌+◌, ◌-◌, ◌*◌, ◌/◌, ◌^◌, ◌≤◌, ◌<◌, ◌==◌, none, some, false, u64, sub64}
use tsanalyze.Base.{◌≡◌, arith, ◌↔◌, ==_ne}
use tsanalyze.Ts.Adaptation.{PidOps, PcrClock, calc_pcr_clock, calc_bitrate, base_clk}

-- A clock reference of 33 and 9 bits does not wrap.
pub calc_pcr_clock_lem :
    (c : PcrClock)
    → c.base < 2 ^ 33
    → c.extension < 2 ^ 9
    → calc_pcr_clock c ≡ c.base * 300 + c.extension
unfolding calc_pcr_clock
calc_pcr_clock_lem c narrow short = omega arith

-- With a clock reference of 33 and 9 bits, `calc_bitrate` divides by zero exactly when the PID
-- repeats the reference it keeps: the first one counts against zero.
pub calc_bitrate-none :
    (pkt_len : ℕ) (clock : PcrClock) (dev : PidOps)
    → clock.base < 2 ^ 33
    → clock.extension < 2 ^ 9
    → dev.pcr < 2 ^ 64
    → (calc_bitrate pkt_len clock dev ≡ none) ↔ (dev.pcr ≡ clock.base * 300 + clock.extension)
unfolding calc_bitrate
calc_bitrate-none pkt_len clock dev narrow short word = (
  (λ e. ground (arith, calc_pcr_clock_lem clock narrow short)),
  (λ e. ground (arith, calc_pcr_clock_lem clock narrow short)),
)

-- While the clock goes forward and no count passes 64 bits, the bit rate is the number of bits
-- since the last reference over the time since then, in ticks of the 27 MHz clock, rounded down.
pub calc_bitrate_lem :
    (pkt_len : ℕ) (clock : PcrClock) (dev : PidOps)
    → clock.base < 2 ^ 33
    → clock.extension < 2 ^ 9
    → dev.pcr < clock.base * 300 + clock.extension
    → dev.bits_in ≤ dev.pkts_in * pkt_len * 8
    → dev.pkts_in * pkt_len * 8 * base_clk < 2 ^ 64
    → calc_bitrate pkt_len clock dev
      ≡ some (record dev {
        pcr = clock.base * 300 + clock.extension;
        bits_in = dev.pkts_in * pkt_len * 8;
        bitrate =
            (dev.pkts_in * pkt_len * 8 - dev.bits_in)
            * base_clk
            / (clock.base * 300 + clock.extension - dev.pcr);
      })
unfolding calc_bitrate
calc_bitrate_lem pkt_len clock dev narrow short forward counted fits =
    let n = dev.pkts_in * pkt_len in
    let clock' = clock.base * 300 + clock.extension in
    let now : calc_pcr_clock clock ≡ clock' = calc_pcr_clock_lem clock narrow short in
    let bits : u64 (u64 n * 8) ≡ n * 8 = omega arith in
    let elapsed : sub64 clock' dev.pcr ≡ clock' - dev.pcr = omega arith in
    let goes_on : ((clock' - dev.pcr) == 0) ≡ false = ==_ne (clock' - dev.pcr) 0 (omega arith) in
    let rate : u64 (sub64 (n * 8) dev.bits_in * base_clk) ≡ (n * 8 - dev.bits_in) * base_clk =
      omega arith in
    rw (now, bits, elapsed, goes_on, rate)
