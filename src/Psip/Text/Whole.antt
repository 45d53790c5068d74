-- ===== src/Psip/Text/Whole.antt =====
-- src/atsc_psip.c: `parse_multi_string` on strings by the standard.
use tsanalyze.Base.{
  ℕ, zero, suc, Bool, Option, none, ◌>>=◌, Option-cases, inl, inr, if◌then◌else◌, read8, drop, take,
  ◌+◌, ◌*◌, ◌%◌, ◌^◌, ◌>>>◌, ◌<◌, leb, le→leb, true, some, List, [], ◌∷◌, ◌++◌, map, length,
  length-append, take-append_length, Bytes, read32, ◌≡◌, refl, ap, arith,
}
use tsanalyze.Scte.Command.Parts.{Reads, big_endian32, word_lem}
use tsanalyze.Psip.Parse.{encode, AllRead, entries, entries-encode}
use tsanalyze.Psip.Text.{
  StringSegment, LangString, MultipleString, strings, Round, took, Rounds, all, rounds,
  read_segment, read_lang_string, parse_multi_string,
}

-- The loops while `calloc` gives its blocks.
abbrev plain_segment : Bytes → Option (ℕ × StringSegment)
plain_segment pdata = do
  compression ← read8 pdata 0
  mode' ← read8 pdata 1
  count ← read8 pdata 2
  let s : StringSegment = record {
    compression_type = compression;
    mode = mode';
    compressed_string = take count (drop 3 pdata);
  }
  if leb count (length (drop 3 pdata)) then some (3 + count, s) else none

abbrev plain_lang : Bytes → Option (ℕ × LangString)
plain_lang pdata = do
  field ← read32 pdata 0
  (n, ss) ← entries plain_segment (field % 2 ^ 8) (drop 4 pdata)
  some (4 + n, record { iso_639_language_code = field >>> 8; segments = ss })

abbrev as_round : {A S : Type 0} → ℕ × A → Option (Round A S)
as_round k = some (took k.0 k.1)

abbrev as_rounds : {A S : Type 0} → ℕ × List A → Option (Rounds A S)
as_rounds k = some (all k.0 k.1)

module _ {A S : Type 0} (read : Bytes → Option (Round A S)) (plain : Bytes → Option (ℕ × A))
    (same_round : (p : Bytes) → read p ≡ (plain p >>= as_round)) where
  rounds-entries :
      (count : ℕ) (pdata : Bytes)
      → rounds read count pdata ≡ (entries plain count pdata >>= as_rounds)
  unfolding rounds entries
  rounds-entries zero pdata = refl
  rounds-entries (suc count) pdata = elim (Option-cases (plain pdata)) [
    | inl fault ↦ rw (same_round pdata, fault) refl
    | inr at ↦ (elim (Option-cases (entries plain count (drop at.0.0 pdata))) [
      | inl fault ↦
          rw (same_round pdata, at.1, rounds-entries count (drop at.0.0 pdata), fault) refl
      | inr later ↦
          rw (same_round pdata, at.1, rounds-entries count (drop at.0.0 pdata), later.1) refl
    ])
  ]

module _ (memory : Bytes → Bool) (given : (p : Bytes) → memory p ≡ true) where
  segment_round : (p : Bytes) → read_segment memory p ≡ (plain_segment p >>= as_round)
  unfolding read_segment
  segment_round p = rw (given (drop 3 p)) (ground arith)

  lang_round_lem : (p : Bytes) → read_lang_string memory p ≡ (plain_lang p >>= as_round)
  unfolding read_lang_string
  lang_round_lem p = elim (Option-cases (read32 p 0)) [
    | inl fault ↦ rw fault refl
    | inr at ↦
        let segments =
          rounds-entries (read_segment memory) plain_segment segment_round (at.0 % 2 ^ 8)
            (drop 4 p) in
        elim (Option-cases (entries plain_segment (at.0 % 2 ^ 8) (drop 4 p))) [
          | inl fault ↦ rw (at.1, given (drop 4 p), segments, fault) refl
          | inr there ↦ rw (at.1, given (drop 4 p), segments, there.1) refl
        ]
  ]

abbrev pub encode_segment : StringSegment → Bytes
encode_segment s = s.compression_type ∷ s.mode ∷ length s.compressed_string ∷ s.compressed_string

abbrev same : StringSegment → StringSegment
same s = s

segment_lem : (s : StringSegment) → Reads plain_segment (encode_segment s) s
segment_lem s rest =
    let bytes = s.compressed_string in
    let there : leb (length bytes) (length (bytes ++ rest)) ≡ true =
      le→leb (length bytes) (length (bytes ++ rest)) (omega (arith, length-append bytes rest)) in
    let total : 3 + length bytes ≡ length (encode_segment s) = omega arith in
    rw (there, take-append_length bytes rest) (ap (λ n. some (n, s)) total)

segments_AllRead : (ss : List StringSegment) → AllRead plain_segment encode_segment same ss
segments_AllRead [] = tt
segments_AllRead (s ∷ ss) = (segment_lem s, segments_AllRead ss)

abbrev segments_bytes : List StringSegment → Bytes
segments_bytes = encode plain_segment encode_segment same

map_same : (ss : List StringSegment) → map same ss ≡ ss
map_same [] = refl
map_same (s ∷ ss) = ap (λ l. s ∷ l) (map_same ss)

abbrev pub encode_lang : LangString → Bytes
encode_lang l =
    big_endian32 (l.iso_639_language_code * 256 + length l.segments) ++ segments_bytes l.segments

lang_lem : (l : LangString) → length l.segments < 256 → Reads plain_lang (encode_lang l) l
unfolding read32
lang_lem l few rest =
    let ss = l.segments in
    let field = l.iso_639_language_code * 256 + length ss in
    let count : field % 2 ^ 8 ≡ length ss = omega (arith, few) in
    let code : field >>> 8 ≡ l.iso_639_language_code = omega (arith, few) in
    let total : 4 + length (segments_bytes ss) ≡ length (encode_lang l) = omega arith in
    rw
      (
        word_lem field,
        count,
        entries-encode plain_segment encode_segment same ss (segments_AllRead ss) rest,
        code,
        map_same ss,
      )
      (ap (λ n. some (n, l)) total)

abbrev pub FewSegments : MultipleString → Type 0
FewSegments [] = Unit {0}
FewSegments (l ∷ ls) = (length l.segments < 256) × FewSegments ls

abbrev unchanged : LangString → LangString
unchanged l = l

langs_AllRead : (ls : MultipleString) → FewSegments ls → AllRead plain_lang encode_lang unchanged ls
langs_AllRead [] few = few
langs_AllRead (l ∷ ls) few = (lang_lem l few.0, langs_AllRead ls few.1)

map_unchanged : (ls : MultipleString) → map unchanged ls ≡ ls
map_unchanged [] = refl
map_unchanged (l ∷ ls) = ap (λ k. l ∷ k) (map_unchanged ls)

abbrev pub encode_text : MultipleString → Bytes
encode_text ls = length ls ∷ encode plain_lang encode_lang unchanged ls

-- If every call of `calloc` gives its block, `parse_multi_string` reads strings by the standard, each
-- with its language and with fewer than 256 segments, back as they are, and returns the number of
-- their bytes.
pub parse_multi_string-encode :
    (memory : Bytes → Bool) (ls : MultipleString) (rest : Bytes)
    → ((p : Bytes) → memory p ≡ true)
    → FewSegments ls
    → parse_multi_string memory (encode_text ls ++ rest)
      ≡ some (strings (length (encode_text ls)) ls)
unfolding parse_multi_string
parse_multi_string-encode memory ls rest given few =
    let bytes = encode plain_lang encode_lang unchanged ls in
    let total : 1 + length bytes ≡ length (encode_text ls) = omega arith in
    rw
      (
        given (bytes ++ rest),
        rounds-entries (read_lang_string memory) plain_lang (lang_round_lem memory given)
            (length ls) (bytes ++ rest),
        entries-encode plain_lang encode_lang unchanged ls (langs_AllRead ls few) rest,
        map_unchanged ls,
      )
      (ap (λ n. some (strings n ls)) total)
