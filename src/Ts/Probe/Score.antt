-- ===== src/Ts/Probe/Score.antt =====
-- src/ts.c: `analyze` counts the sync bytes at each offset, and `mpegts_probe` stays in the buffer.
use tsanalyze.Base.{ℕ, zero, suc, ◌+◌, ◌-◌, ◌*◌, ◌/◌, ◌%◌, ◌≤◌, ◌<◌, ◌==◌, ltb, if◌then◌else◌, ◌&&◌}
use tsanalyze.Base.{Bool, true, false, Option, none, some, Bytes, length, get_elem?-eq-get_or}
use tsanalyze.Base.{
  ◌≡◌, refl, sym, ◌∙◌, ap, arith, subst, ◌⊎◌, inl, inr, Option-cases, Bool-cases, ==_refl,
}
use native.Mathlib.Nat.{mod-add-mod, mod-lt, mod_self, mod-eq_of_lt}
use native.Mathlib.Numerals.{add-one}
use native.Mathlib.Decide.{ℕ_discrete}
use tsanalyze.Ts.Probe.{is_sync, Analysis, count_sync, next_x, analyze_at, analyze_from, analyze}
use tsanalyze.Ts.Probe.{PacketFormat, ts, dvhs, fec, best_format, mpegts_probe, score_of}

-- A read that stays in the buffer gives an answer.
sync_at : (buf : Bytes) (i : ℕ) → i + 3 < length buf → (b : Bool) × (is_sync buf i ≡ some b)
unfolding is_sync
sync_at buf i inside = elim (Option-cases (is_sync buf i)) [
  | inl fault ↦ absurd (
      ground (
        arith,
        fault,
        get_elem?-eq-get_or buf i 0,
        get_elem?-eq-get_or buf (i + 1) 0,
        get_elem?-eq-get_or buf (i + 3) 0,
      ))
  | inr found ↦ found
]

mod_next : (i p : ℕ) → 0 < p → suc i % p ≡ (if i % p + 1 == p then 0 else i % p + 1)
mod_next i p sized =
    let wrap : (i % p + 1) % p ≡ suc i % p = mod-add-mod i p 1 ∙ ap (λ k. k % p) (add-one i) in
    elim (ℕ_discrete (i % p + 1) p) [
      | yes e ↦ sym wrap ∙ ap (λ k. k % p) e ∙ mod_self p ∙ ground arith
      | no ne ↦
          let small : i % p + 1 < p = omega (arith, mod-lt i sized) in
          sym wrap ∙ mod-eq_of_lt small ∙ ground arith
    ]

module _ (buf : Bytes) (packet_size : ℕ) where
  -- The packet starts among the first `n` bytes that lie at offset `r` of their packet.
  abbrev pub hits : ℕ → ℕ → ℕ
  hits r zero = 0
  hits r (suc n) =
      hits r n
      + (elim (is_sync buf n) [ none ↦ 0 | some b ↦ if b && (n % packet_size == r) then 1 else 0 ])

  module _ (sized : 0 < packet_size) where
    pub record Counts (i : ℕ) (a : Analysis) : Type 0 where
      pub at_offset : a.x ≡ i % packet_size
      pub counted : (r : ℕ) → a.stat r ≡ hits r i
      pub top : (r : ℕ) → a.stat r ≤ a.best_score
      pub reached : (a.best_score ≡ 0) ⊎ ((a.stat a.index ≡ a.best_score) × (a.index < packet_size))

    analyze_at-Counts :
        (i : ℕ) (a : Analysis)
        → Counts i a
        → i + 3 < length buf
        → (a' : Analysis) × (analyze_at buf packet_size i a ≡ some a') × Counts (suc i) a'
    unfolding analyze_at
    analyze_at-Counts i a c inside =
        let (b, e) = sync_at buf i inside in
        (next_x buf packet_size (if b then count_sync buf packet_size a else a), rw e, counts b e)
      where
        counts :
            (b : Bool)
            → is_sync buf i ≡ some b
            → Counts
                (suc i)
                (next_x buf packet_size (if b then count_sync buf packet_size a else a))
        counts true e = record {
          at_offset = ground (arith, c.at_offset, mod_next i packet_size sized);
          counted = λ r. rw e (ground (arith, c.counted r, c.counted a.x, c.at_offset));
          top = λ r. ground (arith, c.top r, c.top a.x);
          reached = elim (Bool-cases (ltb a.best_score (a.stat a.x + 1))) [
            | inl better ↦
                rw better (inr (rw (==_refl a.x) refl, omega (arith, mod-lt i sized, c.at_offset)))
            | inr worse ↦ rw worse (ground (arith, c.reached))
          ];
        }
        counts false e = record {
          at_offset = ground (arith, c.at_offset, mod_next i packet_size sized);
          counted = λ r. rw e (ground (arith, c.counted r));
          top = c.top;
          reached = c.reached;
        }

    analyze_from-Counts :
        (left i : ℕ) (a : Analysis)
        → Counts i a
        → i + left + 3 ≤ length buf
        → (a' : Analysis) × (analyze_from buf packet_size left i a ≡ some a') × Counts (i + left) a'
    unfolding analyze_from
    analyze_from-Counts zero i a c inside = (a, refl, subst (λ k. Counts k a) (omega arith) c)
    analyze_from-Counts (suc left) i a c inside =
        let (a', e, c') = analyze_at-Counts i a c (omega arith) in
        let (a'', e', c'') =
          analyze_from-Counts left (i + 1) a' (subst (λ k. Counts k a') (omega arith) c')
            (omega arith) in
        (a'', rw e e', subst (λ k. Counts k a'') (omega arith) c'')

    -- `analyze` reads nothing past `size`. Its score is the number of packet starts at the offset
    -- that has the most of them, and with a score above 0 `*index` is such an offset.
    pub analyze_lem :
        (size index : ℕ)
        → 3 ≤ size
        → size ≤ length buf
        → (a : Analysis) × (analyze buf packet_size size index ≡ some a)
          × ((r : ℕ) → hits r (size - 3) ≤ a.best_score)
          × ((a.best_score ≡ 0)
              ⊎ ((hits a.index (size - 3) ≡ a.best_score) × (a.index < packet_size)))
    unfolding analyze
    analyze_lem size index long inside =
        let fresh : Analysis = record { stat = λ _. 0; x = 0; best_score = 0; index = index } in
        let start : Counts 0 fresh = record {
          at_offset = omega (arith, mod-lt 0 sized);
          counted = λ r. refl;
          top = λ r. omega arith;
          reached = inl refl;
        } in
        let (a, e, c) = analyze_from-Counts (size - 3) 0 fresh start (omega arith) in
        let c' : Counts (size - 3) a = subst (λ k. Counts k a) (omega arith) c in
        (
          a,
          e,
          λ r. subst (λ n. n ≤ a.best_score) (c'.counted r) (c'.top r),
          subst (λ n. (a.best_score ≡ 0) ⊎ ((n ≡ a.best_score) × (a.index < packet_size)))
              (c'.counted a.index) c'.reached,
        )

-- `best` is above 6 and above both others.
abbrev Leads : ℕ → ℕ → ℕ → Type 0
Leads best other another = (other < best) × (another < best) × (6 < best)

-- The format that three scores stand for: 188 or 192 bytes if its score leads, else 204 bytes if
-- their score is above 6.
abbrev pub IsVerdict : ℕ → ℕ → ℕ → Option PacketFormat → Type 0
IsVerdict score dvhs_score fec_score (some ts) = Leads score dvhs_score fec_score
IsVerdict score dvhs_score fec_score (some dvhs) = Leads dvhs_score score fec_score
IsVerdict score dvhs_score fec_score (some fec) =
    (6 < fec_score) × (¬ Leads score dvhs_score fec_score) × (¬ Leads dvhs_score score fec_score)
IsVerdict score dvhs_score fec_score none =
    (fec_score ≤ 6) × (¬ Leads score dvhs_score fec_score) × (¬ Leads dvhs_score score fec_score)

best_format-IsVerdict :
    (s d f : ℕ)
    → (verdict : Option PacketFormat) × (best_format s d f ≡ verdict) × IsVerdict s d f verdict
unfolding best_format
best_format-IsVerdict s d f = elim (Bool-cases (ltb f s && (ltb d s && ltb 6 s))) [
  | inl first ↦ (some ts, rw first refl, ground (arith, first))
  | inr not_first ↦ (elim (Bool-cases (ltb s d && (ltb f d && ltb 6 d))) [
    | inl second ↦ (some dvhs, rw (not_first, second) refl, ground (arith, second))
    | inr not_second ↦ (elim (Bool-cases (ltb 6 f)) [
      | inl third ↦ (
        some fec,
        rw (not_first, not_second, third) refl,
        (
          ground (arith, third),
          λ l. ground (arith, not_first, l.0, l.1, l.2),
          λ l. ground (arith, not_second, l.0, l.1, l.2),
        ),
      )
      | inr not_third ↦ (
        none,
        rw (not_first, not_second, not_third) refl,
        (
          ground (arith, not_third),
          λ l. ground (arith, not_first, l.0, l.1, l.2),
          λ l. ground (arith, not_second, l.0, l.1, l.2),
        ),
      )
    ])
  ])
]

-- Ten times the most packet starts at one offset of packets of `packet_size` bytes, for each of
-- `count` packets.
pub record IsScore (buf : Bytes) (packet_size count score : ℕ) : Type 0 where
  pub most : ℕ
  pub above : (r : ℕ) → hits buf packet_size r (packet_size * count - 3) ≤ most
  pub reached :
      (most ≡ 0)
      ⊎ ((r : ℕ) × (r < packet_size) × (hits buf packet_size r (packet_size * count - 3) ≡ most))
  pub scaled : score ≡ most * 10 / count

score_of_lem :
    (buf : Bytes) (packet_size check_count : ℕ) (sized : 0 < packet_size)
    → 3 ≤ packet_size * check_count
    → packet_size * check_count ≤ length buf
    → (score : ℕ) × (score_of buf packet_size check_count ≡ some score)
      × IsScore buf packet_size check_count score
unfolding score_of
score_of_lem buf packet_size check_count sized long inside =
    let (a, e, above', reached') =
      analyze_lem buf packet_size sized (packet_size * check_count) 0 long inside in
    (
      a.best_score * 10 / check_count,
      rw e refl,
      record {
        most = a.best_score;
        above = above';
        reached = elim reached' [ inl z ↦ inl z | inr at ↦ inr (a.index, at.1, at.0) ];
        scaled = refl;
      },
    )

-- Over a buffer of at least `size` bytes, `mpegts_probe` reads nothing out of range. With fewer than
-- ten packets of 204 bytes the answer is -1. Otherwise each format has as its score ten times the
-- most packet starts at one offset over the number of those packets, and the answer is 188 or 192
-- bytes if its score is above 6 and above both others, else 204 bytes if their score is above 6, and
-- -1 if it is not.
pub mpegts_probe_lem :
    (buf : Bytes) (size : ℕ)
    → size ≤ length buf
    → ((size < 2040) × (mpegts_probe buf size ≡ some none))
      ⊎ ((2040 ≤ size)
          × ((score dvhs_score fec_score : ℕ) × (verdict : Option PacketFormat) × IsScore buf 188
                (size / 204)
                score
              × IsScore buf 192 (size / 204) dvhs_score
              × IsScore buf 204 (size / 204) fec_score
              × (mpegts_probe buf size ≡ some verdict)
              × IsVerdict score dvhs_score fec_score verdict))
unfolding mpegts_probe
mpegts_probe_lem buf size inside = elim (Bool-cases (ltb (size / 204) 10)) [
  | inl few ↦ inl (ground arith, rw few refl)
  | inr enough ↦
      let ten : 10 ≤ size / 204 = ground arith in
      let (s, e, s_is) =
        score_of_lem buf 188 (size / 204) (omega arith) (omega arith) (omega arith) in
      let (d, e', d_is) =
        score_of_lem buf 192 (size / 204) (omega arith) (omega arith) (omega arith) in
      let (f, e'', f_is) =
        score_of_lem buf 204 (size / 204) (omega arith) (omega arith) (omega arith) in
      let (verdict, best, is) = best_format-IsVerdict s d f in
      inr (
        omega arith,
        (s, d, f, verdict, s_is, d_is, f_is, rw (enough, e, e', e'') (ap some best), is),
      )
]
