-- ===== src/Scte/Command/Insertion.antt =====
-- src/scte.c: an insertion by the standard, its bytes and what `parse_splice_insert` makes of it.
use tsanalyze.Base.{
  ℕ, ◌+◌, ◌*◌, ◌<◌, true, false, Option, none, some, List, [], ◌∷◌, ◌++◌, map, length, Bytes,
}
use tsanalyze.Scte.Command.{SpliceTime, EventComponent, EventDetails, insert_time}
use tsanalyze.Scte.Command.Parts.{
  Time, encode_time, time_of, IsTime, Break, break_or_none, IsBreak, encode_components,
  component_of, encode_end,
}

-- What is spliced and when: the program, at a time or at once, or its components.
pub data Mode : Type 0 where
  program_at : Time → Mode
  program_now : Mode
  components_at : List (ℕ × Time) → Mode
  components_now : List (ℕ × Unit {0}) → Mode

-- An insertion that is not cancelled.
pub record Insertion : Type 0 where
  pub out : ℕ
  pub mode : Mode
  pub reserved : ℕ
  pub duration : Option Break
  pub unique_program_id : ℕ
  pub avail_num : ℕ
  pub avails_expected : ℕ

abbrev pub program_bit : Mode → ℕ
program_bit (program_at t) = 1
program_bit program_now = 1
program_bit (components_at cs) = 0
program_bit (components_now cs) = 0

abbrev pub immediate_bit : Mode → ℕ
immediate_bit (program_at t) = 0
immediate_bit program_now = 1
immediate_bit (components_at cs) = 0
immediate_bit (components_now cs) = 1

abbrev pub duration_bit : Option Break → ℕ
duration_bit none = 0
duration_bit (some d) = 1

abbrev pub flags_of : Insertion → ℕ
flags_of i =
    i.out * 128
    + program_bit i.mode * 64
    + duration_bit i.duration * 32
    + immediate_bit i.mode * 16
    + i.reserved

abbrev pub at_once : Unit {0} → Bytes
at_once u = []

abbrev pub no_time : Unit {0} → Option SpliceTime
no_time u = none

abbrev pub given_time : Time → Option SpliceTime
given_time t = some (time_of t)

abbrev pub encode_mode : Mode → Bytes
encode_mode (program_at t) = encode_time t
encode_mode program_now = []
encode_mode (components_at cs) =
    length cs ∷ encode_components (insert_time false) encode_time given_time cs
encode_mode (components_now cs) =
    length cs ∷ encode_components (insert_time true) at_once no_time cs

abbrev pub mode_time : Mode → Option SpliceTime
mode_time (program_at t) = some (time_of t)
mode_time program_now = none
mode_time (components_at cs) = none
mode_time (components_now cs) = none

abbrev pub mode_components : Mode → Option (List (EventComponent (Option SpliceTime)))
mode_components (program_at t) = none
mode_components program_now = none
mode_components (components_at cs) =
    some (map (component_of (insert_time false) encode_time given_time) cs)
mode_components (components_now cs) =
    some (map (component_of (insert_time true) at_once no_time) cs)

abbrev pub AreTimes : List (ℕ × Time) → Type 0
AreTimes [] = Unit {0}
AreTimes (c ∷ cs) = IsTime c.1 × AreTimes cs

abbrev pub IsMode : Mode → Type 0
IsMode (program_at t) = IsTime t
IsMode program_now = Unit {0}
IsMode (components_at cs) = AreTimes cs
IsMode (components_now cs) = Unit {0}

abbrev pub IsDuration : Option Break → Type 0
IsDuration none = Unit {0}
IsDuration (some d) = IsBreak d

pub record IsInsertion (i : Insertion) : Type 0 where
  pub out_bit : i.out < 2
  pub four_bits : i.reserved < 16
  pub mode : IsMode i.mode
  pub duration : IsDuration i.duration

abbrev pub tail_of : Insertion → Bytes
tail_of i =
    encode_end (flags_of i) (some (immediate_bit i.mode)) (mode_time i.mode)
      (mode_components i.mode) i.duration i.unique_program_id i.avail_num i.avails_expected

abbrev pub encode_insertion : Insertion → Bytes
encode_insertion i = flags_of i ∷ (encode_mode i.mode ++ tail_of i)

-- What `parse_splice_insert` makes of it.
abbrev pub insertion_details : Insertion → EventDetails SpliceTime (Option SpliceTime)
insertion_details i = record {
  out_of_network_indicator = i.out;
  program_splice_flag = program_bit i.mode;
  duration_flag = duration_bit i.duration;
  splice_immediate_flag = some (immediate_bit i.mode);
  time = mode_time i.mode;
  components = mode_components i.mode;
  duration = break_or_none i.duration;
  unique_program_id = i.unique_program_id;
  avail_num = i.avail_num;
  avails_expected = i.avails_expected;
}
