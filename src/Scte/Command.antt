-- ===== src/Scte/Command.antt =====
-- src/scte.c: the commands of a splice section. A record has what a command writes; what it leaves
-- alone in the union that the commands share is not kept.
pub mod Parts
pub mod Insertion
pub mod Insert
use tsanalyze.Base.{
  ℕ, zero, suc, ◌+◌, ◌==◌, ◌&&◌, not, if◌then◌else◌, bit, Bool, true, false, Option, none, some,
  ◌>>=◌, List, [], ◌∷◌, Bytes, read8, read16, read32, u16, drop,
}

-- `struct splice_time`
pub record SpliceTime : Type 0 where
  pub time_specified_flag : ℕ
  pub pts_time_h : ℕ
  pub pts_time : Option ℕ

-- `struct break_duration`
pub record BreakDuration : Type 0 where
  pub auto_return : ℕ
  pub duration_h : ℕ
  pub duration : ℕ

-- `struct event_component`, with the time that a schedule (32 bits) or an insertion gives it.
pub record EventComponent (T : Type 0) : Type 0 where
  pub component_tag : ℕ
  pub time : T

-- What `struct splice_event` has of an event that is not cancelled, with the time of its program
-- or the components of its own.
pub record EventDetails (T C : Type 0) : Type 0 where
  pub out_of_network_indicator : ℕ
  pub program_splice_flag : ℕ
  pub duration_flag : ℕ
  pub splice_immediate_flag : Option ℕ
  pub time : Option T
  pub components : Option (List (EventComponent C))
  pub duration : Option BreakDuration
  pub unique_program_id : ℕ
  pub avail_num : ℕ
  pub avails_expected : ℕ

-- `struct splice_event`
pub record SpliceEvent (T C : Type 0) : Type 0 where
  pub splice_event_id : ℕ
  pub splice_event_cancel_indicator : ℕ
  pub details : Option (EventDetails T C)

abbrev pub InsertEvent : Type 0
InsertEvent = SpliceEvent SpliceTime (Option SpliceTime)

abbrev pub ScheduleEvent : Type 0
ScheduleEvent = SpliceEvent ℕ ℕ

-- What a parser took and the bytes it took, or a failed call of `calloc`.
pub data Outcome (A : Type 0) : Type 0 where
  taken : ℕ → A → Outcome A
  no_memory : Outcome A

-- A part that is there only if a flag says so.
abbrev pub part_if : {A : Type 0} → Bool → Option (ℕ × A) → Option (ℕ × Option A)
part_if false p = some (0, none)
part_if true p = do (n, a) ← p; some (n, some a)

unfoldable pub parse_splice_time : Bytes → Option (ℕ × SpliceTime)
parse_splice_time pbuf = do
  flags ← read8 pbuf 0
  (n, pts) ← part_if (bit flags 7 == 1) (do v ← read32 pbuf 1; some (4, v))
  some (
    1 + n,
    record { time_specified_flag = bit flags 7; pts_time_h = bit flags 0; pts_time = pts },
  )

unfoldable pub read_duration : Bytes → Option (ℕ × BreakDuration)
read_duration pdata = do
  flags ← read8 pdata 0
  v ← read32 pdata 1
  some (5, record { auto_return = bit flags 7; duration_h = bit flags 0; duration = v })

module _ {C : Type 0} (read_time : Bytes → Option (ℕ × C)) where
  -- The loop over the components, with `count` to go.
  unfoldable pub components_from : ℕ → Bytes → Option (ℕ × List (EventComponent C))
  components_from zero pdata = some (0, [])
  components_from (suc count) pdata = do
    tag ← read8 pdata 0
    (n, at) ← read_time (drop 1 pdata)
    (m, later) ← components_from count (drop (1 + n) pdata)
    some (1 + n + m, record { component_tag = tag; time = at } ∷ later)

  -- The count of the components, the call of `calloc`, which `memory` says the result of, and the
  -- loop.
  unfoldable pub read_components : Bool → Bytes → Option (Outcome (List (EventComponent C)))
  unfolding components_from
  read_components memory pdata = do
    count ← read8 pdata 0
    if memory
        then (do (n, cs) ← components_from count (drop 1 pdata); some (taken (1 + n) cs))
        else some no_memory

-- The components, if the splice is not one of the whole program.
abbrev pub components_part :
    {C : Type 0}
    → Bool
    → Option (Outcome (List (EventComponent C)))
    → Option (Outcome (Option (List (EventComponent C))))
components_part false p = some (taken 0 none)
components_part true none = none
components_part true (some no_memory) = some no_memory
components_part true (some (taken n cs)) = some (taken n (some cs))

-- What follows the time and the components, with `flags` the byte of the event's flags.
module _ {T C : Type 0} (flags : ℕ) (immediate : Option ℕ) (time : Option T) where
  unfoldable pub read_event_end :
      Option (List (EventComponent C)) → Bytes → Option (ℕ × EventDetails T C)
  unfolding read_duration
  read_event_end components pdata = do
    (n, duration') ← part_if (bit flags 5 == 1) (read_duration pdata)
    id ← read16 pdata n
    num ← read8 pdata (n + 2)
    expected ← read8 pdata (n + 3)
    let details : EventDetails T C = record {
      out_of_network_indicator = bit flags 7;
      program_splice_flag = bit flags 6;
      duration_flag = bit flags 5;
      splice_immediate_flag = immediate;
      time = time;
      components = components;
      duration = duration';
      unique_program_id = id;
      avail_num = num;
      avails_expected = expected;
    }
    some (n + 4, details)

  -- The components and the rest, behind `before` bytes.
  unfoldable pub read_event_rest :
      ℕ → Outcome (Option (List (EventComponent C))) → Bytes → Option (Outcome (EventDetails T C))
  unfolding read_event_end
  read_event_rest before no_memory pdata = some no_memory
  read_event_rest before (taken n cs) pdata = do
    (m, details) ← read_event_end cs (drop n pdata)
    some (taken (before + n + m) details)

-- The time of a component, if the splice is not an immediate one.
abbrev pub insert_time : Bool → Bytes → Option (ℕ × Option SpliceTime)
insert_time immediate pdata = part_if (not immediate) (parse_splice_time pdata)

abbrev pub schedule_time : Bytes → Option (ℕ × ℕ)
schedule_time pdata = do v ← read32 pdata 0; some (4, v)

-- The fields of an event that is not cancelled, from the byte of its flags on.
unfoldable pub read_insert_details :
    Bool → Bytes → Option (Outcome (EventDetails SpliceTime (Option SpliceTime)))
unfolding read_event_rest parse_splice_time read_components
read_insert_details memory pdata = do
  flags ← read8 pdata 0
  let immediate = bit flags 4 == 1
  (n, at) ← part_if (bit flags 6 == 1 && not immediate) (parse_splice_time (drop 1 pdata))
  cs ←
      components_part (bit flags 6 == 0)
        (read_components (insert_time immediate) memory (drop (1 + n) pdata))
  read_event_rest flags (some (bit flags 4)) at (1 + n) cs (drop (1 + n) pdata)

unfoldable pub read_schedule_details : Bool → Bytes → Option (Outcome (EventDetails ℕ ℕ))
unfolding read_event_rest read_components
read_schedule_details memory pdata = do
  flags ← read8 pdata 0
  (n, at) ← part_if (bit flags 6 == 1) (schedule_time (drop 1 pdata))
  cs ←
      components_part (bit flags 6 == 0) (read_components schedule_time memory (drop (1 + n) pdata))
  read_event_rest flags none at (1 + n) cs (drop (1 + n) pdata)

-- An event, whose fields `details` reads if it is not cancelled.
module _ {T C : Type 0} (details : Bytes → Option (Outcome (EventDetails T C))) where
  abbrev pub event_with : ℕ → ℕ → Outcome (EventDetails T C) → Outcome (SpliceEvent T C)
  event_with id cancel no_memory = no_memory
  event_with id cancel (taken n d) =
      taken (5 + n)
        (record { splice_event_id = id; splice_event_cancel_indicator = cancel; details = some d })

  unfoldable pub read_splice_event : Bytes → Option (Outcome (SpliceEvent T C))
  read_splice_event pdata = do
    id ← read32 pdata 0
    flags ← read8 pdata 4
    if bit flags 7 == 0
        then (do d ← details (drop 5 pdata); some (event_with id (bit flags 7) d))
        else (do
          let cancelled : SpliceEvent T C = record {
            splice_event_id = id;
            splice_event_cancel_indicator = bit flags 7;
            details = none;
          }
          some (taken 5 cancelled))

unfoldable pub parse_splice_insert : Bool → Bytes → Option (Outcome InsertEvent)
unfolding read_splice_event read_insert_details
parse_splice_insert memory pbuf = read_splice_event (read_insert_details memory) pbuf

-- The loop over the events of a schedule, with `count` to go.
module _ (memory : Bool) where
  unfoldable pub events_from : ℕ → Bytes → Option (Outcome (List ScheduleEvent))
  unfolding read_splice_event read_schedule_details
  events_from zero pdata = some (taken 0 [])
  events_from (suc count) pdata = do
    e ← read_splice_event (read_schedule_details memory) pdata
    elim e [
      | no_memory ↦ some no_memory
      | taken n evt ↦ (do
        later ← events_from count (drop n pdata)
        elim later [
          | no_memory ↦ some no_memory
          | taken m evts ↦ some (taken (n + m) (evt ∷ evts))
        ])
    ]

  -- The length that is returned is a `uint16_t`.
  unfoldable pub parse_splice_schedule : Bytes → Option (Outcome (List ScheduleEvent))
  unfolding events_from
  parse_splice_schedule pbuf = do
    count ← read8 pbuf 0
    if memory
        then (do
          out ← events_from count (drop 1 pbuf)
          elim out [ no_memory ↦ some no_memory | taken n evts ↦ some (taken (u16 (1 + n)) evts) ])
        else some no_memory

-- What follows the identifier is not looked at.
unfoldable pub parse_splice_private : Bytes → Option ℕ
parse_splice_private pbuf = do _ ← read32 pbuf 0; some 4
