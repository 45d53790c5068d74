-- ===== src/Descriptor.antt =====
-- src/descriptor.c: the loop over the descriptors of a table. `D` is what a parser makes of a
-- descriptor, and `parse` the table `des_ops` of the parsers by tag.
pub mod Loop
mod Tests
use tsanalyze.Base.{
  ℕ, zero, suc, ◌+◌, ◌-◌, ◌==◌, if◌then◌else◌, Option, none, some, ◌>>=◌, List, [], ◌∷◌, ◌++◌,
  Bytes, read8, drop, take, length, leb,
}

pub record Descriptor (D : Type 0) : Type 0 where
  pub tag : ℕ
  pub size : ℕ
  pub body : D

-- The room behind the header in the block of `alloc_reserved`.
abbrev pub reserved_room : ℕ
reserved_room = 253

-- The bytes behind the tag and the length; `none` is a read behind the buffer or a write behind the
-- block.
unfoldable pub parse_reserved_descriptor : Bytes → Option Bytes
parse_reserved_descriptor ptr = do
  size ← read8 ptr 1
  if leb size reserved_room
      then if leb size (length (drop 2 ptr)) then some (take size (drop 2 ptr)) else none
      else none

module _ {D : Type 0} (parse : ℕ → Bytes → ℕ → Option D) where
  -- The body of the loop.
  unfoldable pub parse_one : Bytes → Option (Descriptor D)
  parse_one ptr = do
    tag ← read8 ptr 0
    size ← read8 ptr 1
    body ← parse tag ptr (size + 2)
    some (record { tag = tag; size = size; body = body })

  -- The loop with `l` bytes to go: an `l` below zero ends it as 0 does.
  unfoldable pub parse_from : ℕ → Bytes → ℕ → Option (List (Descriptor D))
  unfolding parse_one
  parse_from fuel ptr zero = some []
  parse_from zero ptr (suc l) = none
  parse_from (suc fuel) ptr (suc l) = do
    d ← parse_one ptr
    later ← parse_from fuel (drop (d.size + 2) ptr) (suc l - (d.size + 2))
    some (d ∷ later)

  -- A round takes at least two bytes, so `len` rounds are enough.
  unfoldable pub parse_descriptors : Bytes → ℕ → Option (List (Descriptor D))
  unfolding parse_from
  parse_descriptors buf len = parse_from len buf len
