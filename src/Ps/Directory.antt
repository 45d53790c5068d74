-- ===== src/Ps/Directory.antt =====
-- src/ps.c: `parse_directory_PES_packet`.
pub mod Unit
use tsanalyze.Base.{
  ℕ, zero, suc, ◌+◌, ◌*◌, ◌%◌, ◌^◌, ◌>>>◌, bit, Bool, true, false, Option, none, some, ◌>>=◌, List,
  [], ◌∷◌, Bytes, read8, read16, read32, bits8, drop,
}

-- A field of fifteen bits with its marker bit.
pub record Marked : Type 0 where
  pub value : ℕ
  pub marker_bit : ℕ

-- `access_unit`, whose `PTS1` has three bits.
pub record AccessUnit : Type 0 where
  pub packet_stream_id : ℕ
  pub offset_sign : ℕ
  pub offset1 : Marked
  pub offset2 : Marked
  pub offset3 : Marked
  pub reference_offset : ℕ
  pub marker_bit4 : ℕ
  pub pts1 : Marked
  pub pts2 : Marked
  pub pts3 : Marked
  pub bytes_to_read1 : Marked
  pub bytes_to_read2 : ℕ
  pub marker_bit9 : ℕ
  pub intra_coded_indicator : ℕ
  pub coding_parameters_indicator : ℕ

-- `directory_PES_packet`
pub record Directory : Type 0 where
  pub packet_start_code_prefix : ℕ
  pub directory_stream_id : ℕ
  pub pes_packet_length : ℕ
  pub number_of_access_units : Marked
  pub offsets : List Marked
  pub units : List AccessUnit

-- `TS_READ16_BITS(buf, 15, 0)` and the bit behind.
abbrev pub high_field : ℕ → Marked
high_field v = record { value = v >>> 1; marker_bit = bit v 0 }

-- `TS_READ16_BITS(buf, 15, 1)`, as the fields of a unit are read, and the last bit.
abbrev pub low_field : ℕ → Marked
low_field v = record { value = v % 2 ^ 15; marker_bit = bit v 0 }

-- Fields of two bytes, one behind the other.
unfoldable pub read_offsets : ℕ → Bytes → Option (List Marked)
read_offsets zero buf = some []
read_offsets (suc n) buf = do
  v ← read16 buf 0
  later ← read_offsets n (drop 2 buf)
  some (high_field v ∷ later)

-- The unit, by what it is read from.
abbrev pub unit_of_fields :
    ℕ → ℕ → Marked → Marked → ℕ → ℕ → Marked → Marked → Marked → ℕ → ℕ → AccessUnit
unit_of_fields id o₁ o₂ o₃ reference p₁ p₂ p₃ b₁ b₂ flags = record {
  packet_stream_id = id;
  offset_sign = bit o₁ 15;
  offset1 = record { value = (o₁ >>> 1) % 2 ^ 14; marker_bit = bit o₁ 0 };
  offset2 = o₂;
  offset3 = o₃;
  reference_offset = reference;
  marker_bit4 = bit p₁ 7;
  pts1 = record { value = bits8 p₁ 4 1 % 2 ^ 3; marker_bit = bit p₁ 0 };
  pts2 = p₂;
  pts3 = p₃;
  bytes_to_read1 = b₁;
  bytes_to_read2 = b₂;
  marker_bit9 = bit flags 7;
  intra_coded_indicator = bit flags 6;
  coding_parameters_indicator = bits8 flags 2 2;
}

-- The unit of a round, in eighteen bytes.
unfoldable pub read_unit : Bytes → Option AccessUnit
read_unit buf = do
  id ← read8 buf 0
  o₁ ← read16 buf 1
  o₂ ← read16 buf 3
  o₃ ← read16 buf 5
  reference ← read16 buf 7
  p₁ ← read8 buf 9
  p₂ ← read16 buf 10
  p₃ ← read16 buf 12
  b₁ ← read16 buf 14
  b₂ ← read8 buf 16
  flags ← read8 buf 17
  some (
      unit_of_fields id o₁ (low_field o₂) (low_field o₃) reference p₁ (low_field p₂) (low_field p₃)
        (low_field b₁) b₂ flags)

unfoldable pub read_units : ℕ → Bytes → Option (List AccessUnit)
unfolding read_unit
read_units zero buf = some []
read_units (suc n) buf = do u ← read_unit buf; later ← read_units n (drop 18 buf); some (u ∷ later)

-- What is returned: the bytes taken, or `ENOMEM`. `memory` says whether `calloc` gives the units.
pub data DirectoryResult : Type 0 where
  took : ℕ → DirectoryResult
  no_memory : DirectoryResult

unfoldable pub parse_directory_pes_packet : Bool → Bytes → Option (DirectoryResult × Directory)
unfolding read_offsets read_units
parse_directory_pes_packet memory pkt = do
  start ← read32 pkt 0
  len ← read16 pkt 4
  count ← read16 pkt 6
  offsets' ← read_offsets 6 (drop 8 pkt)
  let d : Directory = record {
    packet_start_code_prefix = start >>> 8;
    directory_stream_id = start % 2 ^ 8;
    pes_packet_length = len;
    number_of_access_units = high_field count;
    offsets = offsets';
    units = [];
  }
  elim memory [
    | true ↦ (do
      us ← read_units (count >>> 1) (drop 20 pkt)
      some (took (20 + 18 * (count >>> 1)), record d { units = us }))
    | false ↦ some (no_memory, d)
  ]
