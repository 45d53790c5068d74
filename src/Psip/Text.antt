-- ===== src/Psip/Text.antt =====
-- src/atsc_psip.c: `parse_multi_string`.
pub mod Whole
use tsanalyze.Base.{
  ℕ, zero, suc, ◌+◌, ◌%◌, ◌^◌, ◌>>>◌, leb, if◌then◌else◌, Bool, true, false, Option, none, some,
  ◌>>=◌, List, [], ◌∷◌, Bytes, read8, read32, take, drop, length,
}

-- `struct string_segment`
pub record StringSegment : Type 0 where
  pub compression_type : ℕ
  pub mode : ℕ
  pub compressed_string : Bytes

-- `struct lang_string`
pub record LangString : Type 0 where
  pub iso_639_language_code : ℕ
  pub segments : List StringSegment

-- `struct multiple_string`
abbrev pub MultipleString : Type 0
MultipleString = List LangString

-- A string whose calls of `calloc` do not all give their block: the segments are a null pointer, with
-- the language and their number, or the bytes of the segment behind those that are there are.
pub data BrokenString : Type 0 where
  no_segments : ℕ → ℕ → BrokenString
  no_bytes : LangString → BrokenString

-- The strings and the bytes they took; or, after a call of `calloc` that fails, their number and a
-- null pointer, or the strings before the one that it broke. The strings behind that one are zero.
pub data TextResult : Type 0 where
  strings : ℕ → MultipleString → TextResult
  no_strings : ℕ → TextResult
  no_memory : MultipleString → BrokenString → TextResult

-- What is returned, with the value of `ENOMEM`.
abbrev pub text_size : TextResult → ℕ
text_size (strings n ss) = n
text_size (no_strings count) = 12
text_size (no_memory ss broken) = 12

-- What is behind a null pointer cannot be walked.
abbrev pub free_multi_string : TextResult → Option (Unit {0})
free_multi_string (strings n ss) = some tt
free_multi_string (no_strings zero) = some tt
free_multi_string (no_strings (suc count)) = none
free_multi_string (no_memory ss (no_segments code zero)) = some tt
free_multi_string (no_memory ss (no_segments code (suc count))) = none
free_multi_string (no_memory ss (no_bytes s)) = some tt

-- A round of a loop: the bytes it takes and its entry, or what it leaves when memory ends.
pub data Round (A S : Type 0) : Type 0 where
  took : ℕ → A → Round A S
  stop : S → Round A S

-- A loop: the bytes and the entries, or the entries before the round that stopped it.
pub data Rounds (A S : Type 0) : Type 0 where
  all : ℕ → List A → Rounds A S
  stopped : List A → S → Rounds A S

module _ {A S : Type 0} where
  abbrev pub add_round : ℕ → A → Rounds A S → Rounds A S
  add_round n a (all m later) = all (n + m) (a ∷ later)
  add_round n a (stopped later s) = stopped (a ∷ later) s

  unfoldable pub rounds : (Bytes → Option (Round A S)) → ℕ → Bytes → Option (Rounds A S)
  rounds read zero pdata = some (all 0 [])
  rounds read (suc count) pdata = do
    r ← read pdata
    elim r [
      | took n a ↦ (do later ← rounds read count (drop n pdata); some (add_round n a later))
      | stop s ↦ some (stopped [] s)
    ]

-- `memory` says, by the bytes that the pointer has come to, whether `calloc` gives its block there.
module _ (memory : Bytes → Bool) where
  unfoldable pub read_segment : Bytes → Option (Round StringSegment (Unit {0}))
  read_segment pdata = do
    compression ← read8 pdata 0
    mode' ← read8 pdata 1
    count ← read8 pdata 2
    let s : StringSegment = record {
      compression_type = compression;
      mode = mode';
      compressed_string = take count (drop 3 pdata);
    }
    elim (memory (drop 3 pdata)) [
      | true ↦ if leb count (length (drop 3 pdata)) then some (took (3 + count) s) else none
      | false ↦ some (stop tt)
    ]

  abbrev pub lang_round : ℕ → Rounds StringSegment (Unit {0}) → Round LangString BrokenString
  lang_round code (all n ss) = took (4 + n) (record { iso_639_language_code = code; segments = ss })
  lang_round code (stopped ss _) =
      stop (no_bytes (record { iso_639_language_code = code; segments = ss }))

  unfoldable pub read_lang_string : Bytes → Option (Round LangString BrokenString)
  unfolding read_segment rounds
  read_lang_string pdata = do
    field ← read32 pdata 0
    elim (memory (drop 4 pdata)) [
      | true ↦ (do
        ss ← rounds read_segment (field % 2 ^ 8) (drop 4 pdata)
        some (lang_round (field >>> 8) ss))
      | false ↦ some (stop (no_segments (field >>> 8) (field % 2 ^ 8)))
    ]

  abbrev pub text_result : Rounds LangString BrokenString → TextResult
  text_result (all n ss) = strings (1 + n) ss
  text_result (stopped ss broken) = no_memory ss broken

  unfoldable pub parse_multi_string : Bytes → Option TextResult
  unfolding read_lang_string rounds
  parse_multi_string pbuf = do
    count ← read8 pbuf 0
    elim (memory (drop 1 pbuf)) [
      | true ↦ (do ss ← rounds read_lang_string count (drop 1 pbuf); some (text_result ss))
      | false ↦ some (no_strings count)
    ]
