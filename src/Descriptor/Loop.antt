-- ===== src/Descriptor/Loop.antt =====
-- src/descriptor.c: a loop that is laid out by the standard is read back.
use tsanalyze.Base.{
  ℕ, zero, suc, ◌+◌, ◌-◌, ◌≤◌, Option, some, ◌>>=◌, List, [], ◌∷◌, ◌++◌, Bytes, drop, true, length,
  length-append, leb, le→leb,
}
use tsanalyze.Base.{◌≡◌, refl, ◌∙◌, ap, arith, take-append_length}
use mathlib.Core.List.{append_assoc}
use tsanalyze.Descriptor.{
  Descriptor, reserved_room, parse_reserved_descriptor, parse_one, parse_from, parse_descriptors,
}

-- The parsers when no tag has one of its own.
abbrev pub reserved : ℕ → Bytes → ℕ → Option Bytes
reserved tag ptr len = parse_reserved_descriptor ptr

-- A tag with the bytes behind its length.
abbrev pub described : ℕ × Bytes → Descriptor Bytes
described (tag, body) = record { tag = tag; size = length body; body = body }

abbrev pub describe : List (ℕ × Bytes) → List (Descriptor Bytes)
describe [] = []
describe (d ∷ ds) = described d ∷ describe ds

abbrev pub encode : List (ℕ × Bytes) → Bytes
encode [] = []
encode ((tag, body) ∷ ds) = tag ∷ length body ∷ (body ++ encode ds)

-- Each descriptor fits the block that it is read into.
abbrev pub AllShort : List (ℕ × Bytes) → Type 0
AllShort [] = Unit {0}
AllShort ((tag, body) ∷ ds) = (length body ≤ reserved_room) × AllShort ds

drop-append_length : (xs ys : Bytes) → drop (length xs) (xs ++ ys) ≡ ys
drop-append_length [] ys = refl
drop-append_length (x ∷ xs) ys = drop-append_length xs ys

drop-suc_suc : (n : ℕ) (x y : ℕ) (xs : Bytes) → drop (n + 2) (x ∷ y ∷ xs) ≡ drop n xs
drop-suc_suc n x y xs = ap (λ k. drop k (x ∷ y ∷ xs)) (two n)
  where
    two : (n : ℕ) → n + 2 ≡ suc (suc n)
    two n = omega arith

parse_one-encode :
    (tag : ℕ) (body rest : Bytes)
    → length body ≤ reserved_room
    → parse_one reserved (tag ∷ length body ∷ (body ++ rest)) ≡ some (described (tag, body))
unfolding parse_one parse_reserved_descriptor
parse_one-encode tag body rest short =
    let inside : leb (length body) (length (body ++ rest)) ≡ true =
      le→leb (length body) (length (body ++ rest)) (omega (arith, length-append body rest)) in
    rw (le→leb (length body) reserved_room short, inside, take-append_length body rest) refl

parse_from_one :
    (fuel l : ℕ) (ptr : Bytes) (d : Descriptor Bytes)
    → parse_one reserved ptr ≡ some d
    → parse_from reserved (suc fuel) ptr (suc l) ≡ (
        parse_from reserved fuel (drop (d.size + 2) ptr) (suc l - (d.size + 2)) >>= λ later.
        some (d ∷ later))
unfolding parse_from
parse_from_one fuel l ptr d parsed = rw parsed refl

parse_from-encode :
    (ds : List (ℕ × Bytes)) (rest : Bytes) (fuel l : ℕ)
    → AllShort ds
    → l ≡ length (encode ds)
    → l ≤ fuel
    → parse_from reserved fuel (encode ds ++ rest) l ≡ some (describe ds)
unfolding parse_from
parse_from-encode [] rest zero zero short counted enough = refl
parse_from-encode [] rest (suc fuel) zero short counted enough = refl
parse_from-encode [] rest fuel (suc l) short counted enough = absurd (omega arith)
parse_from-encode ((tag, body) ∷ ds) rest zero l short counted enough = absurd (omega arith)
parse_from-encode ((tag, body) ∷ ds) rest (suc fuel) zero short counted enough =
    absurd (omega arith)
parse_from-encode ((tag, body) ∷ ds) rest (suc fuel) (suc l) short counted enough =
    let tail = encode ds ++ rest in
    let ptr = tag ∷ length body ∷ (body ++ tail) in
    let measured = length-append body (encode ds) in
    let behind : drop (length body + 2) ptr ≡ tail =
      drop-suc_suc (length body) tag (length body) (body ++ tail) ∙ drop-append_length body tail in
    let left : suc l - (length body + 2) ≡ length (encode ds) = omega (arith, measured) in
    ap (λ b. parse_from reserved (suc fuel) (tag ∷ length body ∷ b) (suc l))
      (append_assoc body (encode ds) rest)
    ∙ parse_from_one fuel l ptr (described (tag, body)) (parse_one-encode tag body tail short.0)
    ∙ rw
        (
          behind,
          parse_from-encode ds rest fuel (suc l - (length body + 2)) short.1 left
              (omega (arith, measured)),
        )
        refl

-- A loop of descriptors of at most 253 bytes, none of which has a parser of its own, laid out one
-- behind the other with their tags and lengths, is read back as it is, whatever follows it.
pub parse_descriptors-encode :
    (ds : List (ℕ × Bytes)) (rest : Bytes)
    → AllShort ds
    → parse_descriptors reserved (encode ds ++ rest) (length (encode ds)) ≡ some (describe ds)
unfolding parse_descriptors
parse_descriptors-encode ds rest short =
    parse_from-encode ds rest (length (encode ds)) (length (encode ds)) short refl (omega arith)
