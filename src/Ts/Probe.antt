-- ===== src/Ts/Probe.antt =====
-- src/ts.c: `analyze` and `mpegts_probe`, which find the length of the packets.
pub mod Score
use tsanalyze.Base.{ℕ, zero, suc, ◌+◌, ◌-◌, ◌*◌, ◌/◌, ◌==◌, ◌!=◌, ltb, if◌then◌else◌, bit_and, ◌&&◌}
use tsanalyze.Base.{Bool, true, false, Option, none, some, ◌>>=◌, Bytes, read8, update}

abbrev pub ts_packet_size : ℕ
ts_packet_size = 188

abbrev pub ts_dvhs_packet_size : ℕ
ts_dvhs_packet_size = 192

abbrev pub ts_fec_packet_size : ℕ
ts_fec_packet_size = 204

-- The test of the loop at byte `i`: each read is made only if the tests before it passed.
unfoldable pub is_sync : Bytes → ℕ → Option Bool
is_sync buf i = do
  sync ← read8 buf i
  if sync == 0x47
      then (do
        flags ← read8 buf (i + 1)
        if bit_and flags 0x80 == 0
            then (do control ← read8 buf (i + 3); some (bit_and control 0x30 != 0))
            else some false)
      else some false

-- The variables of the loop.
pub record Analysis : Type 0 where
  pub stat : ℕ → ℕ
  pub x : ℕ
  pub best_score : ℕ
  pub index : ℕ

module _ (buf : Bytes) (packet_size : ℕ) where
  abbrev pub count_sync : Analysis → Analysis
  count_sync a =
      let hits = a.stat a.x + 1 in
      record a {
        stat = update a.stat a.x hits;
        best_score = if ltb a.best_score hits then hits else a.best_score;
        index = if ltb a.best_score hits then a.x else a.index;
      }

  abbrev pub next_x : Analysis → Analysis
  next_x a = record a { x = if a.x + 1 == packet_size then 0 else a.x + 1 }

  unfoldable pub analyze_at : ℕ → Analysis → Option Analysis
  analyze_at i a = do sync ← is_sync buf i; some (next_x (if sync then count_sync a else a))

  -- The loop from byte `i`, with `left` rounds to go.
  unfoldable pub analyze_from : ℕ → ℕ → Analysis → Option Analysis
  analyze_from zero i a = some a
  analyze_from (suc left) i a = do a' ← analyze_at i a; analyze_from left (i + 1) a'

  -- `index` is the start value of the caller's `*index`.
  unfoldable pub analyze : ℕ → ℕ → Option Analysis
  unfolding analyze_from analyze_at is_sync
  analyze size index =
      analyze_from (size - 3) 0 (record { stat = λ _. 0; x = 0; best_score = 0; index = index })

-- The three formats; `none` is the -1.
pub data PacketFormat : Type 0 where
  ts dvhs fec : PacketFormat

abbrev pub check_count_min : ℕ
check_count_min = 10

-- `analyze(...) * CHECK_COUNT / check_count`
unfoldable pub score_of : Bytes → ℕ → ℕ → Option ℕ
score_of buf packet_size check_count = do
  a ← analyze buf packet_size (packet_size * check_count) 0
  some (a.best_score * check_count_min / check_count)

unfoldable pub best_format : ℕ → ℕ → ℕ → Option PacketFormat
best_format score dvhs_score fec_score =
    if ltb fec_score score && (ltb dvhs_score score && ltb 6 score)
    then some ts
    else if ltb score dvhs_score && (ltb fec_score dvhs_score && ltb 6 dvhs_score)
    then some dvhs
    else if ltb 6 fec_score
    then some fec
    else none

-- The outer option is a read out of range.
unfoldable pub mpegts_probe : Bytes → ℕ → Option (Option PacketFormat)
unfolding score_of best_format
mpegts_probe buf size =
    let check_count = size / ts_fec_packet_size in
    if ltb check_count check_count_min then some none else do
      score ← score_of buf ts_packet_size check_count
      dvhs_score ← score_of buf ts_dvhs_packet_size check_count
      fec_score ← score_of buf ts_fec_packet_size check_count
      some (best_format score dvhs_score fec_score)
