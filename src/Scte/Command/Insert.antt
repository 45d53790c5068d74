-- ===== src/Scte/Command/Insert.antt =====
-- src/scte.c: `parse_splice_insert` on an insertion by the standard.
use tsanalyze.Base.{
  ℕ, ◌+◌, ◌<◌, ◌==◌, ◌&&◌, not, bit, true, false, Option, none, some, List, [], ◌∷◌, ◌++◌, length,
  length-append, drop, drop-append_length, drop-add, Bytes, read32, ◌≡◌, refl, ap, ◌∙◌, arith,
}
use mathlib.Core.List.{append_assoc}
use tsanalyze.Scte.Command.{
  SpliceTime, EventComponent, EventDetails, taken, part_if, parse_splice_time, read_components,
  components_part, read_event_end, read_event_rest, insert_time, read_insert_details,
  read_splice_event, parse_splice_insert,
}
use tsanalyze.Scte.Command.Parts.{
  big_endian32, word_lem, Time, encode_time, time_lem, Break, encode_components, AllRead,
  read_components_lem, IsEnd, end_lem,
}
use tsanalyze.Scte.Command.Insertion.{
  Mode, Insertion, program_bit, immediate_bit, duration_bit, flags_of, at_once, no_time, given_time,
  encode_mode, mode_time, mode_components, AreTimes, IsMode, IsDuration, IsInsertion, tail_of,
  encode_insertion, insertion_details, program_at, program_now, components_at, components_now,
}

-- The two parts, of `n` and `m` bytes, by the bits of the flags that they look at, and the end.
parts_lem :
    (n m k flags program immediate : ℕ) (body end : Bytes) (at : Option SpliceTime)
    (cs : Option (List (EventComponent (Option SpliceTime))))
    (d : EventDetails SpliceTime (Option SpliceTime))
    → bit flags 6 ≡ program
    → bit flags 4 ≡ immediate
    → part_if (program == 1 && not (immediate == 1)) (parse_splice_time body) ≡ some (n, at)
    → components_part
        (program == 0)
        (read_components (insert_time (immediate == 1)) true (drop n body))
      ≡ some (taken m cs)
    → drop m (drop n body) ≡ end
    → read_event_end flags (some immediate) at cs end ≡ some (k, d)
    → read_insert_details true (flags ∷ body) ≡ some (taken (1 + n + m + k) d)
unfolding read_insert_details read_event_rest
parts_lem n m k flags program immediate body end at cs d bit6 bit4 timed listed behind ended =
    rw (bit6, bit4, timed, drop-add 1 n (flags ∷ body), listed, behind, ended) refl

abbrev time_bytes : Mode → ℕ
time_bytes (program_at t) = length (encode_time t)
time_bytes program_now = 0
time_bytes (components_at cs) = 0
time_bytes (components_now cs) = 0

abbrev component_bytes : Mode → ℕ
component_bytes (program_at t) = 0
component_bytes program_now = 0
component_bytes (components_at cs) =
    1 + length (encode_components (insert_time false) encode_time given_time cs)
component_bytes (components_now cs) =
    1 + length (encode_components (insert_time true) at_once no_time cs)

-- What the two parts read of a mode, with the tests as they come out for it.
abbrev ModeRead : Mode → Bytes → Type 0
ModeRead m rest =
    (part_if (program_bit m == 1 && not (immediate_bit m == 1))
        (parse_splice_time (encode_mode m ++ rest))
      ≡ some (time_bytes m, mode_time m))
    × (components_part (program_bit m == 0) (
          read_components (insert_time (immediate_bit m == 1)) true
            (drop (time_bytes m) (encode_mode m ++ rest)))
        ≡ some (taken (component_bytes m) (mode_components m)))
    × (drop (component_bytes m) (drop (time_bytes m) (encode_mode m ++ rest)) ≡ rest)
    × (time_bytes m + component_bytes m ≡ length (encode_mode m))

times_AllRead :
    (cs : List (ℕ × Time)) → AreTimes cs → AllRead (insert_time false) encode_time given_time cs
times_AllRead [] ok = ok
times_AllRead (c ∷ cs) ok =
    (λ rest. ap (λ o. part_if true o) (time_lem c.1 ok.0 rest), times_AllRead cs ok.1)

now_AllRead : (cs : List (ℕ × Unit {0})) → AllRead (insert_time true) at_once no_time cs
now_AllRead [] = tt
now_AllRead (c ∷ cs) = (λ rest. refl, now_AllRead cs)

mode_lem : (m : Mode) (rest : Bytes) → IsMode m → ModeRead m rest
mode_lem (program_at t) rest ok = (
  ap (λ o. part_if true o) (time_lem t ok rest),
  refl,
  drop-append_length (encode_time t) rest,
  omega arith,
)
mode_lem program_now rest ok = (refl, refl, refl, refl)
mode_lem (components_at cs) rest ok =
    let bytes = encode_components (insert_time false) encode_time given_time cs in
    (
      refl,
      ap (components_part true) (
          read_components_lem (insert_time false) encode_time given_time cs rest
            (times_AllRead cs ok)),
      drop-add 1 (length bytes) (length cs ∷ (bytes ++ rest)) ∙ drop-append_length bytes rest,
      omega arith,
    )
mode_lem (components_now cs) rest ok =
    let bytes = encode_components (insert_time true) at_once no_time cs in
    (
      refl,
      ap (components_part true)
          (read_components_lem (insert_time true) at_once no_time cs rest (now_AllRead cs)),
      drop-add 1 (length bytes) (length cs ∷ (bytes ++ rest)) ∙ drop-append_length bytes rest,
      omega arith,
    )

bits_lt : (m : Mode) → (program_bit m < 2) × (immediate_bit m < 2)
bits_lt (program_at t) = (omega arith, omega arith)
bits_lt program_now = (omega arith, omega arith)
bits_lt (components_at cs) = (omega arith, omega arith)
bits_lt (components_now cs) = (omega arith, omega arith)

duration_lt : (d : Option Break) → duration_bit d < 2
duration_lt none = omega arith
duration_lt (some d) = omega arith

duration_IsEnd :
    (flags : ℕ) (d : Option Break) → bit flags 5 ≡ duration_bit d → IsDuration d → IsEnd flags d
duration_IsEnd flags none set ok = set
duration_IsEnd flags (some d) set ok = (set, ok)

flags_lem :
    (i : Insertion)
    → IsInsertion i
    → (bit (flags_of i) 7 ≡ i.out)
      × (bit (flags_of i) 6 ≡ program_bit i.mode)
      × (bit (flags_of i) 5 ≡ duration_bit i.duration)
      × (bit (flags_of i) 4 ≡ immediate_bit i.mode)
flags_lem i ok =
    let small = bits_lt i.mode in
    let small' = duration_lt i.duration in
    (
      omega (arith, ok.out_bit, ok.four_bits),
      omega (arith, ok.out_bit, ok.four_bits),
      omega (arith, ok.out_bit, ok.four_bits),
      omega (arith, ok.out_bit, ok.four_bits),
    )

abbrev with_bits : Insertion → ℕ → ℕ → ℕ → ℕ → EventDetails SpliceTime (Option SpliceTime)
with_bits i out program duration' immediate = record (insertion_details i) {
  out_of_network_indicator = out;
  program_splice_flag = program;
  duration_flag = duration';
  splice_immediate_flag = some immediate;
}

insertion_lem :
    (i : Insertion) (rest : Bytes)
    → IsInsertion i
    → read_insert_details true (encode_insertion i ++ rest)
      ≡ some (taken (length (encode_insertion i)) (insertion_details i))
insertion_lem i rest ok =
    let (out, program, timed, immediate) = flags_lem i ok in
    let flags = flags_of i in
    let m = i.mode in
    let n = time_bytes m in
    let k = component_bytes m in
    let end = tail_of i in
    let body = encode_mode m ++ (end ++ rest) in
    let (at, listed, behind, counted) = mode_lem m (end ++ rest) ok.mode in
    let joined : (encode_mode m ++ end) ++ rest ≡ body = append_assoc (encode_mode m) end rest in
    let ended =
      end_lem flags (some (immediate_bit m)) (mode_time m) (mode_components m) i.duration
        i.unique_program_id i.avail_num i.avails_expected
        (duration_IsEnd flags i.duration timed ok.duration) rest in
    let total : 1 + n + k + length end ≡ length (encode_insertion i) =
      omega (arith, length-append (encode_mode m) end, counted) in
    ap (λ l. read_insert_details true (flags ∷ l)) joined
    ∙ parts_lem n k (length end) flags (program_bit m) (immediate_bit m) body (end ++ rest)
        (mode_time m) (mode_components m) _ program immediate at listed behind ended
    ∙ ap
        (λ c.
          some (taken c (with_bits i (bit flags 7) (bit flags 6) (bit flags 5) (immediate_bit m))))
        total
    ∙ ap
        (λ c. some (
          taken (length (encode_insertion i))
            (with_bits i c (bit flags 6) (bit flags 5) (immediate_bit m))))
        out
    ∙ ap
        (λ c. some (
          taken (length (encode_insertion i))
            (with_bits i i.out c (bit flags 5) (immediate_bit m))))
        program
    ∙ ap
        (λ c. some (
          taken (length (encode_insertion i))
            (with_bits i i.out (program_bit m) c (immediate_bit m))))
        timed

event_lem :
    (id n : ℕ) (body : Bytes) (d : EventDetails SpliceTime (Option SpliceTime))
    → read_insert_details true body ≡ some (taken n d)
    → parse_splice_insert true (big_endian32 id ++ (127 ∷ body))
      ≡ some (
          taken
            (5 + n)
            (record { splice_event_id = id; splice_event_cancel_indicator = 0; details = some d }))
unfolding parse_splice_insert read_splice_event read32
event_lem id n body d ran = rw (word_lem id, ran) refl

-- `parse_splice_insert` with memory reads an insertion by the standard, of the program or of
-- components, at once or at times, with or without a duration, into its fields,
-- and returns the number of its bytes.
pub parse_splice_insert-encode :
    (id : ℕ) (i : Insertion) (rest : Bytes)
    → IsInsertion i
    → parse_splice_insert true (big_endian32 id ++ (127 ∷ (encode_insertion i ++ rest)))
      ≡ some (
          taken (5 + length (encode_insertion i)) (record {
            splice_event_id = id;
            splice_event_cancel_indicator = 0;
            details = some (insertion_details i);
          }))
parse_splice_insert-encode id i rest ok =
    event_lem id (length (encode_insertion i)) (encode_insertion i ++ rest) (insertion_details i)
      (insertion_lem i rest ok)
