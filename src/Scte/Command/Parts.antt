-- ===== src/Scte/Command/Parts.antt =====
-- src/scte.c: the parts of a splice command on what the standard lays out.
use tsanalyze.Base.{
  ℕ, suc, ◌+◌, ◌*◌, ◌/◌, ◌%◌, ◌^◌, ◌<◌, ◌==◌, bit, true, false, Option, none, some, List, [], ◌∷◌,
  ◌++◌, map, length, length-append, drop, drop-append_length, drop-add, Bytes, bit_or, ◌<<<◌, read8,
  read16, read32, ◌≡◌, refl, ap, ◌∙◌, arith,
}
use mathlib.Core.List.{append_assoc}
use tsanalyze.Base.Bits.{bit_or_fields}
use tsanalyze.Scte.Command.{
  SpliceTime, BreakDuration, EventComponent, EventDetails, taken, parse_splice_time, read_duration,
  components_from, read_components, read_event_end,
}

-- The parser takes exactly these bytes, whatever follows them.
abbrev pub Reads : {A : Type 0} → (Bytes → Option (ℕ × A)) → Bytes → A → Type 0
Reads p bytes a = (rest : Bytes) → p (bytes ++ rest) ≡ some (length bytes, a)

abbrev pub big_endian32 : ℕ → Bytes
big_endian32 v = (v / 2 ^ 24) ∷ (v / 2 ^ 16 % 256) ∷ (v / 2 ^ 8 % 256) ∷ (v % 256) ∷ []

pub word_lem :
    (v : ℕ)
    → bit_or
        (bit_or
          (bit_or ((v / 2 ^ 24) <<< 24) ((v / 2 ^ 16 % 256) <<< 16))
          ((v / 2 ^ 8 % 256) <<< 8))
        (v % 256)
      ≡ v
word_lem v =
    let a = v / 2 ^ 24 in
    let b = v / 2 ^ 16 % 256 in
    let c = v / 2 ^ 8 % 256 in
    let d = v % 256 in
    let two : bit_or (a <<< 24) (b <<< 16) ≡ (a * 256 + b) <<< 16 =
      bit_or_fields 24 a (b <<< 16) (omega arith) ∙ omega arith in
    let three : bit_or ((a * 256 + b) <<< 16) (c <<< 8) ≡ ((a * 256 + b) * 256 + c) <<< 8 =
      bit_or_fields 16 (a * 256 + b) (c <<< 8) (omega arith) ∙ omega arith in
    let four : bit_or (((a * 256 + b) * 256 + c) <<< 8) d ≡ v =
      bit_or_fields 8 ((a * 256 + b) * 256 + c) d (omega arith) ∙ omega arith in
    ap (λ k. bit_or (bit_or k (c <<< 8)) d) two ∙ ap (λ k. bit_or k d) three ∙ four

-- `splice_time()`: the bits of a time that is not specified, or the reserved six and the 33 of PTS.
pub data Time : Type 0 where
  unspecified : ℕ → Time
  specified : ℕ → ℕ → Time

abbrev pub encode_time : Time → Bytes
encode_time (unspecified bits) = bits ∷ []
encode_time (specified reserved pts) =
    (128 + reserved * 2 + pts / 2 ^ 32) ∷ big_endian32 (pts % 2 ^ 32)

abbrev pub time_of : Time → SpliceTime
time_of (unspecified bits) = record {
  time_specified_flag = 0;
  pts_time_h = bits % 2;
  pts_time = none;
}
time_of (specified reserved pts) = record {
  time_specified_flag = 1;
  pts_time_h = pts / 2 ^ 32;
  pts_time = some (pts % 2 ^ 32);
}

abbrev pub IsTime : Time → Type 0
IsTime (unspecified bits) = bits < 128
IsTime (specified reserved pts) = (reserved < 64) × (pts < 2 ^ 33)

pub time_lem : (t : Time) → IsTime t → Reads parse_splice_time (encode_time t) (time_of t)
unfolding parse_splice_time read32
time_lem (unspecified bits) ok rest =
    let flag : bit bits 7 ≡ 0 = omega arith in
    let low : bit bits 0 ≡ bits % 2 = omega arith in rw (flag, low) refl
time_lem (specified reserved pts) ok rest =
    let flags = 128 + reserved * 2 + pts / 2 ^ 32 in
    let flag : bit flags 7 ≡ 1 = omega (arith, ok.0, ok.1) in
    let low : bit flags 0 ≡ pts / 2 ^ 32 = omega (arith, ok.0, ok.1) in
    rw (flag, low, word_lem (pts % 2 ^ 32)) refl

-- `break_duration()`
pub record Break : Type 0 where
  pub auto_return : ℕ
  pub reserved : ℕ
  pub duration : ℕ

pub record IsBreak (d : Break) : Type 0 where
  pub return_bit : d.auto_return < 2
  pub six_bits : d.reserved < 64
  pub duration_bits : d.duration < 2 ^ 33

abbrev pub encode_break : Option Break → Bytes
encode_break none = []
encode_break (some d) =
    (d.auto_return * 128 + d.reserved * 2 + d.duration / 2 ^ 32)
    ∷ big_endian32 (d.duration % 2 ^ 32)

abbrev pub break_of : Break → BreakDuration
break_of d = record {
  auto_return = d.auto_return;
  duration_h = d.duration / 2 ^ 32;
  duration = d.duration % 2 ^ 32;
}

abbrev pub break_or_none : Option Break → Option BreakDuration
break_or_none none = none
break_or_none (some d) = some (break_of d)

break_lem : (d : Break) → IsBreak d → Reads read_duration (encode_break (some d)) (break_of d)
unfolding read_duration read32
break_lem d ok rest =
    let flags = d.auto_return * 128 + d.reserved * 2 + d.duration / 2 ^ 32 in
    let flag : bit flags 7 ≡ d.auto_return =
      omega (arith, ok.return_bit, ok.six_bits, ok.duration_bits) in
    let low : bit flags 0 ≡ d.duration / 2 ^ 32 =
      omega (arith, ok.return_bit, ok.six_bits, ok.duration_bits) in
    rw (flag, low, word_lem (d.duration % 2 ^ 32)) refl

-- Components by the standard, each with its tag and what gives its time.
module _ {T C : Type 0} (read_time : Bytes → Option (ℕ × C)) (encode_one : T → Bytes)
    (value : T → C) where
  abbrev pub encode_components : List (ℕ × T) → Bytes
  encode_components [] = []
  encode_components (c ∷ cs) = c.0 ∷ (encode_one c.1 ++ encode_components cs)

  abbrev pub component_of : ℕ × T → EventComponent C
  component_of c = record { component_tag = c.0; time = value c.1 }

  abbrev pub AllRead : List (ℕ × T) → Type 0
  AllRead [] = Unit {0}
  AllRead (c ∷ cs) = Reads read_time (encode_one c.1) (value c.1) × AllRead cs

  components_step :
      (count n m : ℕ) (pdata : Bytes) (tag : ℕ) (at : C) (later : List (EventComponent C))
      → read8 pdata 0 ≡ some tag
      → read_time (drop 1 pdata) ≡ some (n, at)
      → components_from read_time count (drop (1 + n) pdata) ≡ some (m, later)
      → components_from read_time (suc count) pdata
        ≡ some (1 + n + m, record { component_tag = tag; time = at } ∷ later)
  unfolding components_from
  components_step count n m pdata tag at later at0 timed rest = rw (at0, timed, rest) refl

  components_lem :
      (cs : List (ℕ × T))
      → AllRead cs
      → Reads (components_from read_time (length cs)) (encode_components cs) (map component_of cs)
  unfolding components_from
  components_lem [] ok rest = refl
  components_lem (c ∷ cs) ok rest =
      let one = encode_one c.1 in
      let others = encode_components cs in
      let n = length one in
      let joined : (one ++ others) ++ rest ≡ one ++ (others ++ rest) =
        append_assoc one others rest in
      let pdata = c.0 ∷ ((one ++ others) ++ rest) in
      let timed : read_time ((one ++ others) ++ rest) ≡ some (n, value c.1) =
        ap read_time joined ∙ ok.0 (others ++ rest) in
      let behind : drop (1 + n) pdata ≡ others ++ rest =
        drop-add 1 n pdata ∙ ap (drop n) joined ∙ drop-append_length one (others ++ rest) in
      components_step (length cs) n (length others) pdata c.0 (value c.1) (map component_of cs) refl
        timed (ap (components_from read_time (length cs)) behind ∙ components_lem cs ok.1 rest)
      ∙ ap (λ k. some (k, map component_of (c ∷ cs))) (omega (arith, length-append one others))

  -- The count of the components with the components, at most 255 of them.
  pub read_components_lem :
      (cs : List (ℕ × T)) (rest : Bytes)
      → AllRead cs
      → read_components read_time true (length cs ∷ (encode_components cs ++ rest))
        ≡ some (taken (1 + length (encode_components cs)) (map component_of cs))
  unfolding read_components
  read_components_lem cs rest ok = rw (components_lem cs ok rest) refl

-- The flag says whether there is a duration.
abbrev pub IsEnd : ℕ → Option Break → Type 0
IsEnd flags none = bit flags 5 ≡ 0
IsEnd flags (some d) = (bit flags 5 ≡ 1) × IsBreak d

-- The end of an event, behind its time and its components.
module _ {T C : Type 0} (flags : ℕ) (immediate : Option ℕ) (time' : Option T)
    (components' : Option (List (EventComponent C))) where
  abbrev pub encode_end : Option Break → ℕ → ℕ → ℕ → Bytes
  encode_end d id num expected = encode_break d ++ ((id / 256) ∷ (id % 256) ∷ num ∷ expected ∷ [])

  abbrev pub details_of : Option Break → ℕ → ℕ → ℕ → EventDetails T C
  details_of d id num expected = record {
    out_of_network_indicator = bit flags 7;
    program_splice_flag = bit flags 6;
    duration_flag = bit flags 5;
    splice_immediate_flag = immediate;
    time = time';
    components = components';
    duration = break_or_none d;
    unique_program_id = id;
    avail_num = num;
    avails_expected = expected;
  }

  pub end_lem :
      (d : Option Break) (id num expected : ℕ)
      → IsEnd flags d
      → Reads
          (read_event_end flags immediate time' components')
          (encode_end d id num expected)
          (details_of d id num expected)
  unfolding read_event_end read16
  end_lem none id num expected ok rest =
      let absent : (bit flags 5 == 1) ≡ false = ground arith in
      let id_read : bit_or ((id / 256) <<< 8) (id % 256) ≡ id =
        omega (arith, bit_or_fields 8 (id / 256) (id % 256) (omega arith)) in
      rw (absent, id_read) refl
  end_lem (some d) id num expected ok rest =
      let tail = (id / 256) ∷ (id % 256) ∷ num ∷ expected ∷ [] in
      let there : (bit flags 5 == 1) ≡ true = ground arith in
      let id_read : bit_or ((id / 256) <<< 8) (id % 256) ≡ id =
        omega (arith, bit_or_fields 8 (id / 256) (id % 256) (omega arith)) in
      rw (there, break_lem d ok.1 (tail ++ rest), id_read) refl
