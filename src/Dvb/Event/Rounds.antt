-- ===== src/Dvb/Event/Rounds.antt =====
-- src/dvb_si.c: which bytes the rounds of `parse_eit` read.
use tsanalyze.Base.{
  ℕ, zero, suc, ◌+◌, ◌*◌, ◌≤◌, ◌<◌, min, true, Option, none, some, bind-some, Option-cases, ◌⊎◌,
  inl, inr, List, [], ◌∷◌, length, subst, length-drop, lt-length_of_some, drop, Bytes, read8,
  read16, read64, sub16, ◌≡◌, refl, ap, arith,
}
use tsanalyze.Table.Pat.{PatResult, parsed}
use tsanalyze.Dvb.Event.{EventNode, printed, read_event, events_from}

module _ {D : Type 0} (parse : ℕ → Bytes → ℕ → Option D) (buf_size : ℕ) where
  printed-some :
      (pdata out : Bytes) → printed buf_size pdata ≡ some out → min 45 buf_size ≤ length pdata
  printed-some pdata out ran = ground arith

  -- A round needs its twelve bytes, and those that it prints behind them.
  read_event-some :
      (pdata : Bytes) (pn : EventNode D)
      → read_event parse buf_size pdata ≡ some pn
      → 12 + min 45 buf_size ≤ length pdata
  unfolding read_event read16
  read_event-some pdata pn ran =
      let (_, _, ran₁) = bind-some (read16 pdata 0) _ ran in
      let (_, _, ran₂) = bind-some (read64 pdata 2) _ ran₁ in
      let (_, at10, ran₃) = bind-some (read16 pdata 10) _ ran₂ in
      let (out, shown, _) = bind-some (printed buf_size (drop 12 pdata)) _ ran₃ in
      let (_, _, at11) = bind-some (read8 pdata 10) _ at10 in
      let (low, last, _) = bind-some (read8 pdata 11) _ at11 in
      omega (
        arith,
        printed-some (drop 12 pdata) out shown,
        length-drop 12 pdata,
        lt-length_of_some pdata 11 low last,
      )

  -- The events that are read every twelve bytes, as many as there are.
  abbrev pub AtEveryTwelve : Bytes → List (EventNode D) → Type 0
  AtEveryTwelve pdata [] = Unit {0}
  AtEveryTwelve pdata (pn ∷ later) =
      (read_event parse buf_size pdata ≡ some pn) × AtEveryTwelve (drop 12 pdata) later

  -- What the rounds leave of `section_len`.
  abbrev pub counted_down : ℕ → List (EventNode D) → ℕ
  counted_down len [] = len
  counted_down len (pn ∷ later) = counted_down (sub16 len (12 + pn.descriptors_loop_length)) later

  abbrev made : Option (PatResult × List (EventNode D)) → List (EventNode D)
  made none = []
  made (some k) = k.1

  abbrev AsCounted : Bytes → ℕ → List (EventNode D) → Type 0
  AsCounted pdata len events = AtEveryTwelve pdata events × (counted_down len events ≡ 0)

  -- If the loop ends, it has read an event every twelve bytes, however long the descriptors of the
  -- events before are, and what the events count as bytes has taken `section_len` to 0.
  pub events_from-AtEveryTwelve :
      (fuel len : ℕ) (pdata : Bytes) (result : PatResult) (events : List (EventNode D))
      → events_from parse buf_size true fuel pdata len ≡ some (result, events)
      → AtEveryTwelve pdata events × (counted_down len events ≡ 0)
  unfolding events_from
  events_from-AtEveryTwelve zero zero pdata result events ran =
      subst (AsCounted pdata 0) (ap made ran) (tt, refl)
  events_from-AtEveryTwelve (suc fuel) zero pdata result events ran =
      subst (AsCounted pdata 0) (ap made ran) (tt, refl)
  events_from-AtEveryTwelve zero (suc len) pdata result events ran = ground arith
  events_from-AtEveryTwelve (suc fuel) (suc len) pdata result events ran =
      let (pn, at, ran₁) = bind-some (read_event parse buf_size pdata) _ ran in
      let left = sub16 (suc len) (12 + pn.descriptors_loop_length) in
      let (k, rest, ended) =
        bind-some (events_from parse buf_size true fuel (drop 12 pdata) left) _ ran₁ in
      let (every, counted) = events_from-AtEveryTwelve fuel left (drop 12 pdata) k.0 k.1 rest in
      subst (AsCounted pdata (suc len)) (ap made ended) ((at, every), counted)

  every-length :
      (pdata : Bytes) (pn : EventNode D) (later : List (EventNode D))
      → AtEveryTwelve pdata (pn ∷ later)
      → 12 * length (pn ∷ later) + min 45 buf_size ≤ length pdata
  every-length pdata pn [] every = omega (arith, read_event-some pdata pn every.0)
  every-length pdata pn (next ∷ later) every =
      omega (arith, every-length (drop 12 pdata) next later every.1, length-drop 12 pdata)

  -- If the loop ends and made an event, its bytes reach twelve for each event, and as many behind
  -- the last as it prints, up to 45.
  pub events_from_bounds :
      (fuel len : ℕ) (pdata : Bytes) (result : PatResult) (pn : EventNode D)
      (later : List (EventNode D))
      → events_from parse buf_size true fuel pdata len ≡ some (result, pn ∷ later)
      → 12 * length (pn ∷ later) + min 45 buf_size ≤ length pdata
  events_from_bounds fuel len pdata result pn later ran =
      every-length pdata pn later
        (events_from-AtEveryTwelve fuel len pdata result (pn ∷ later) ran).0

  -- After `count` rounds, each twelve bytes behind the one before, a read leaves the buffer while
  -- `section_len` has not come to 0.
  abbrev pub FaultsAfter : ℕ → Bytes → ℕ → Type 0
  FaultsAfter zero pdata len = (0 < len) × (read_event parse buf_size pdata ≡ none)
  FaultsAfter (suc count) pdata len =
      (0 < len)
      × ((pn : EventNode D) × (read_event parse buf_size pdata ≡ some pn)
          × FaultsAfter count (drop 12 pdata) (sub16 len (12 + pn.descriptors_loop_length)))

  -- The two ways the rounds go.
  abbrev pub Outcome : ℕ → Bytes → ℕ → Type 0
  Outcome fuel pdata len =
      ((events : List (EventNode D)) × (events_from parse buf_size true fuel pdata len
          ≡ some (parsed, events))
        × AtEveryTwelve pdata events
        × (counted_down len events ≡ 0))
      ⊎ ((events_from parse buf_size true fuel pdata len ≡ none)
          × ((count : ℕ) × FaultsAfter count pdata len))

  after_round :
      (fuel len : ℕ) (pdata : Bytes) (pn : EventNode D)
      → read_event parse buf_size pdata ≡ some pn
      → Outcome fuel (drop 12 pdata) (sub16 (suc len) (12 + pn.descriptors_loop_length))
      → Outcome (suc fuel) pdata (suc len)
  unfolding events_from
  after_round fuel len pdata pn at (inl (events, ran, every, counted)) =
      inl (pn ∷ events, rw (at, ran) refl, (at, every), counted)
  after_round fuel len pdata pn at (inr (fault, (count, there))) =
      inr (rw (at, fault) refl, (suc count, (omega arith, (pn, at, there))))

  -- Within as many rounds as there are bytes the loop is over. Either its events lie at every twelve
  -- bytes and take `section_len` to 0, or after some such rounds, with `section_len` above 0, a read
  -- leaves the buffer: `none` is never a lack of rounds.
  pub events_from_enough :
      (fuel len : ℕ) (pdata : Bytes) → length pdata ≤ fuel → Outcome fuel pdata len
  unfolding events_from read_event read16
  events_from_enough zero zero pdata enough = inl ([], refl, tt, refl)
  events_from_enough (suc fuel) zero pdata enough = inl ([], refl, tt, refl)
  events_from_enough zero (suc len) [] enough = inr (refl, (0, (omega arith, refl)))
  events_from_enough zero (suc len) (x ∷ xs) enough = absurd (omega arith)
  events_from_enough (suc fuel) (suc len) pdata enough =
      elim (Option-cases (read_event parse buf_size pdata)) [
        | inl fault ↦ inr (rw fault refl, (0, (omega arith, fault)))
        | inr at ↦ after_round fuel len pdata at.0 at.1 (
            events_from_enough fuel (sub16 (suc len) (12 + at.0.descriptors_loop_length))
              (drop 12 pdata)
              (omega (arith, read_event-some pdata at.0 at.1, length-drop 12 pdata)))
      ]

  -- With bytes to go but fewer than a round needs, the loop does not end.
  pub events_from-none :
      (fuel len : ℕ) (pdata : Bytes)
      → 0 < len
      → length pdata < 12 + min 45 buf_size
      → events_from parse buf_size true fuel pdata len ≡ none
  unfolding events_from
  events_from-none fuel zero pdata some_bytes short = absurd (omega arith)
  events_from-none zero (suc len) pdata some_bytes short = refl
  events_from-none (suc fuel) (suc len) pdata some_bytes short =
      elim (Option-cases (read_event parse buf_size pdata)) [
        | inl fault ↦ rw fault refl
        | inr at ↦ absurd (omega (arith, read_event-some pdata at.0 at.1))
      ]
