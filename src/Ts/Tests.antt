-- ===== src/Ts/Tests.antt =====
-- src/ts.c: packets and sections on which the operations run and the theorems apply.
use tsanalyze.Base.{ℕ, ◌+◌, ◌<◌, ◌≤◌, ◌==◌, if◌then◌else◌, true, false, none, some, [], ◌∷◌}
use tsanalyze.Base.{
  Option, Bytes, length, read8, read16, replicate, length-replicate, ◌≡◌, ◌≢◌, ◌⊎◌, ◌↔◌, refl, inr,
  arith, pos,
}
use tsanalyze.Filter.{ok, failed}
use tsanalyze.Ts.Section.{SectionParser, Preproc, init_parser, section_preproc, waits, minus_one}
use tsanalyze.Ts.Reassembly.{feed, delivered}
use tsanalyze.Ts.Start.{section_in_packet, section_across_packets}
use tsanalyze.Ts.Overrun.{pes_continue_overrun}
use tsanalyze.Ts.Probe.{PacketFormat, mpegts_probe, analyze, Analysis}
use tsanalyze.Ts.Probe.Score.{hits, IsScore, IsVerdict, analyze_lem, mpegts_probe_lem}
use tsanalyze.Ts.Adaptation.{PidOps, init_pid, PcrClock, Cursor}
use tsanalyze.Ts.Packet.{TsHeader, TsState, Demux, read_header, ts_proc}
use tsanalyze.Ts.Packet.Header.{Layout, IsLayout, encode, read_header-encode}
use tsanalyze.Ts.Packet.Counters.{OnlyPid, ts_proc-OnlyPid}

-- A section of nine bytes behind a pointer field of 0.
abbrev nine : Bytes
nine = 0 ∷ 0x42 ∷ 0x00 ∷ 6 ∷ 1 ∷ 2 ∷ 3 ∷ 4 ∷ 5 ∷ 6 ∷ 0xFF ∷ []

abbrev block : Bytes
block = replicate 65535 0

section_in_packet_example :
    (r : Preproc) × (section_preproc none init_parser nine 11 1 0 false ≡ some r)
    × (delivered r ≡ (0x42 ∷ 0x00 ∷ 6 ∷ 1 ∷ 2 ∷ 3 ∷ 4 ∷ 5 ∷ 6 ∷ []) ∷ [])
unfolding read16
section_in_packet_example =
    section_in_packet none init_parser nine 11 0 0 6 refl refl (omega arith) (omega arith)
      (omega arith)

section_across_packets_example :
    (p' p'' : SectionParser) × (section_preproc (some block) init_parser nine 5 1 0 false
      ≡ some (waits minus_one p'))
    × (feed (some block) p' ((nine, 2) ∷ (nine, 11) ∷ [])
        ≡ some ((0x42 ∷ 0x00 ∷ 6 ∷ 1 ∷ 0 ∷ 0x42 ∷ 0 ∷ 0x42 ∷ 0x00 ∷ []) ∷ [], p''))
    × (p''.total_len ≡ pos 0)
unfolding read16
section_across_packets_example =
    section_across_packets (some block) init_parser nine 5 0 0 6 refl refl (omega arith)
      (omega arith) block ((nine, 2) ∷ []) nine 11
      (inr (refl, refl), length-replicate {A = ℕ} 65535 0) (omega arith, tt) (omega arith)
      (omega arith) (omega arith) (omega arith)

-- Two packets of five bytes, each with a sync byte first.
abbrev short_packets : Bytes
short_packets = 0x47 ∷ 0 ∷ 0 ∷ 0x10 ∷ 0 ∷ 0x47 ∷ 0 ∷ 0 ∷ 0x10 ∷ 0 ∷ []

analyze_example :
    (a : Analysis) × (analyze short_packets 5 10 0 ≡ some a)
    × ((r : ℕ) → hits short_packets 5 r 7 ≤ a.best_score)
    × ((a.best_score ≡ 0) ⊎ ((hits short_packets 5 a.index 7 ≡ a.best_score) × (a.index < 5)))
analyze_example = analyze_lem short_packets 5 (omega arith) 10 0 (omega arith) (omega arith)

-- Ten packets of 204 bytes.
abbrev ten_fec_packets : Bytes
ten_fec_packets = replicate 2040 0x47

mpegts_probe_example :
    ((2040 < 2040) × (mpegts_probe ten_fec_packets 2040 ≡ some none))
    ⊎ ((2040 ≤ 2040)
        × ((score dvhs_score fec_score : ℕ) × (verdict : Option PacketFormat) × IsScore
              ten_fec_packets 188 10 score
            × IsScore ten_fec_packets 192 10 dvhs_score
            × IsScore ten_fec_packets 204 10 fec_score
            × (mpegts_probe ten_fec_packets 2040 ≡ some verdict)
            × IsVerdict score dvhs_score fec_score verdict))
mpegts_probe_example =
    mpegts_probe_lem ten_fec_packets 2040 (omega (arith, length-replicate {A = ℕ} 2040 0x47))

abbrev pmt_layout : Layout
pmt_layout = record {
  error = 0;
  start = 1;
  priority = 0;
  pid = 0x0100;
  scrambling = 0;
  control = 1;
  counter = 13;
}

pmt_layout-IsLayout : IsLayout pmt_layout
pmt_layout-IsLayout = record {
  error_bit = omega arith;
  start_bit = omega arith;
  priority_bit = omega arith;
  pid_bits = omega arith;
  scrambling_bits = omega arith;
  control_bits = omega arith;
  counter_bits = omega arith;
}

read_header-encode_example :
    read_header (record { ptr = encode pmt_layout nine; left = 188 })
    ≡ some (
      record {
        transport_error_indicator = 0;
        payload_unit_start_indicator = 1;
        pid = 0x0100;
        adaptation_field_control = 1;
        continuity_counter = 1;
      },
      record { ptr = nine; left = 184 },
    )
read_header-encode_example =
    read_header-encode pmt_layout pmt_layout-IsLayout nine 188 (omega arith) (omega arith)

abbrev one_second : PcrClock
one_second = record { base = 90000; extension = 0 }

abbrev ten_packets : PidOps
ten_packets = record init_pid { pkts_in = 10 }

-- No program is known, and a filter takes every section.
abbrev bare : Demux ℕ
bare = record {
  check_pmt_pid = λ pid r. some false;
  check_section_pid = λ pid r. some false;
  check_es_pid = λ pid r. some false;
  filter_proc = λ pid buf len r. some (ok, r + 1);
}

abbrev start : TsState ℕ
start = record { sec = λ _. init_parser; pid_dev = λ _. init_pid; behind = 0 }

-- A packet on PID 0x100, which no program names.
abbrev stray : Bytes
stray = encode pmt_layout nine

abbrev counted : TsState ℕ
counted = record start {
  pid_dev = λ q. if q == 0x100 then record init_pid { pkts_in = 1 } else init_pid;
}

stray_run : ts_proc none bare (some stray) 188 start ≡ some (failed, counted)
unfolding ts_proc read16
stray_run = refl

ts_proc-OnlyPid_example :
    ((read8 stray 0 ≡ some 0x47)
      × ((hc : TsHeader × Cursor) × (read_header (record { ptr = stray; left = 188 }) ≡ some hc)
          × OnlyPid hc.0.pid start counted))
    ⊎ ((sync : ℕ) × (read8 stray 0 ≡ some sync)
        × (sync ≢ 0x47)
        × (failed ≡ failed)
        × (counted ≡ start))
ts_proc-OnlyPid_example = ts_proc-OnlyPid none bare stray 188 start counted failed stray_run

-- A parser that has 65530 bytes of a PES packet.
abbrev nearly_full : SectionParser
nearly_full = record init_parser { total_len = pos 65530; limit_len = 65541; buffer = some block }

pes_continue_overrun_example :
    (section_preproc none nearly_full nine 11 0 0 true ≡ none) ↔ (length block < 65530 + 11)
pes_continue_overrun_example =
    pes_continue_overrun none nearly_full block nine 65530 11 refl refl (λ e. absurd (omega arith))
      (omega arith)
