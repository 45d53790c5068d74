-- ===== src/Base/Memory.antt =====
-- Reads and writes through a pointer. A pointer is the list of the bytes from the one it points at
-- to the end of its object; `none` is an access out of the object, which C leaves undefined.
use mathlib.Core.Path.{◌≡◌, refl, ap, ◌∙◌}
use mathlib.Core.List.{List, [], ◌∷◌, ◌++◌}
use mathlib.Core.Option.{Option, none, some}
use native.Mathlib.Omega.{arith}
use tsanalyze.Base.Tests.{if◌then◌else◌, leb}
use tsanalyze.Base.Lists.{
  length, get_elem?, get_or, take, drop, get_elem?-eq-get_or, get_elem?-drop,
}
use tsanalyze.Base.Lists.{length-append, length-take, length-drop, take-append_length}
use tsanalyze.Base.Word.{◌<<<◌, ◌>>>◌}
use tsanalyze.Base.Bits.{bit_or_fields}
use Prim.Native.Nat.{ℕ, zero, suc, ◌+◌, ◌-◌, ◌*◌, ◌%◌, ◌^◌, ◌≤◌, ◌<◌, bit_or}

abbrev pub Bytes : Type 0
Bytes = List ℕ

-- Every entry is a `uint8_t`.
abbrev pub IsBytes : Bytes → Type 0
IsBytes [] = Unit {0}
IsBytes (x ∷ xs) = (x < 256) × IsBytes xs

infixl 5 ◌>>=◌
abbrev pub ◌>>=◌ {ℓ κ} : {A : Type ℓ} {B : Type κ} → Option A → (A → Option B) → Option B
none >>= f = none
some a >>= f = f a

pub bind-some {ℓ κ} :
    {A : Type ℓ} {B : Type κ} (o : Option A) (f : A → Option B) {b : B}
    → (o >>= f) ≡ some b
    → (a : A) × (o ≡ some a) × (f a ≡ some b)
bind-some none f e = ground arith
bind-some (some a) f e = (a, refl, e)

pub bind-none {ℓ κ} :
    {A : Type ℓ} {B : Type κ} (o : Option A) (f : A → Option B)
    → ((a : A) → f a ≡ none)
    → (o >>= f) ≡ none
bind-none none f later = refl
bind-none (some a) f later = later a

-- `TS_READ8(p + i)`
abbrev pub read8 : Bytes → ℕ → Option ℕ
read8 = get_elem?

-- `TS_READ16(p + i)`, big-endian.
unfoldable pub read16 : Bytes → ℕ → Option ℕ
read16 p i = do hi ← read8 p i; lo ← read8 p (i + 1); some (bit_or (hi <<< 8) lo)

-- `TS_READ32(p + i)`, big-endian.
unfoldable pub read32 : Bytes → ℕ → Option ℕ
read32 p i = do
  a ← read8 p i
  b ← read8 p (i + 1)
  c ← read8 p (i + 2)
  d ← read8 p (i + 3)
  some (bit_or (bit_or (bit_or (a <<< 24) (b <<< 16)) (c <<< 8)) d)

-- `TS_READ64(p + i)`, big-endian: the two halves of four bytes.
unfoldable pub read64 : Bytes → ℕ → Option ℕ
unfolding read32
read64 p i = do hi ← read32 p i; lo ← read32 p (i + 4); some (bit_or (hi <<< 32) lo)

-- `TS_READ8_BITS(buf, bitlen, off)` of a byte.
abbrev pub bits8 : ℕ → ℕ → ℕ → ℕ
bits8 v bitlen off = (v >>> (8 - off - bitlen)) % 2 ^ bitlen

-- `memcpy(dst + at, src, n)`: the new contents of the object `dst`.
unfoldable pub memcpy : Bytes → ℕ → Bytes → ℕ → Option Bytes
memcpy dst at src n =
    if leb (at + n) (length dst)
    then if leb n (length src) then some (take at dst ++ take n src ++ drop (at + n) dst) else none
    else none

pub byte-lt : (p : Bytes) (i : ℕ) → IsBytes p → get_or p i 0 < 256
byte-lt [] i h = omega arith
byte-lt (x ∷ xs) zero h = h.0
byte-lt (x ∷ xs) (suc i) h = byte-lt xs i h.1

-- What the two bytes of a big-endian field stand for.
pub read16_lem :
    (p : Bytes) (i : ℕ)
    → IsBytes p
    → i + 1 < length p
    → read16 p i ≡ some (get_or p i 0 * 256 + get_or p (i + 1) 0)
unfolding read16
read16_lem p i bytes h = ground (
  arith,
  get_elem?-eq-get_or p i 0,
  get_elem?-eq-get_or p (i + 1) 0,
  bit_or_fields 8 (get_or p i 0) (get_or p (i + 1) 0),
  byte-lt p (i + 1) bytes,
)

pub memcpy_lem :
    (dst : Bytes) (at : ℕ) (src : Bytes) (n : ℕ)
    → at + n ≤ length dst
    → n ≤ length src
    → memcpy dst at src n ≡ some (take at dst ++ take n src ++ drop (at + n) dst)
unfolding memcpy
memcpy_lem dst at src n h k = ground arith

pub memcpy_bounds :
    (dst : Bytes) (at : ℕ) (src : Bytes) (n : ℕ) (out : Bytes)
    → memcpy dst at src n ≡ some out
    → (at + n ≤ length dst)
      × (n ≤ length src)
      × (out ≡ take at dst ++ take n src ++ drop (at + n) dst)
unfolding memcpy
memcpy_bounds dst at src n out h = ground arith

pub length-memcpy :
    (dst : Bytes) (at : ℕ) (src : Bytes) (n : ℕ) (out : Bytes)
    → memcpy dst at src n ≡ some out
    → length out ≡ length dst
length-memcpy dst at src n out h =
    let (fits, reads, e) = memcpy_bounds dst at src n out h in
    ground (
      arith,
      fits,
      reads,
      e,
      length-append (take at dst) (take n src ++ drop (at + n) dst),
      length-append (take at dst ++ take n src) (drop (at + n) dst),
      length-append (take at dst) (take n src),
      length-append (take n src) (drop (at + n) dst),
      length-take at dst,
      length-take n src,
      length-drop (at + n) dst,
    )

-- A write that continues a filled prefix extends it.
pub take-memcpy :
    (dst src : Bytes) (at n : ℕ) (out : Bytes)
    → memcpy dst at src n ≡ some out
    → take (at + n) out ≡ take at dst ++ take n src
take-memcpy dst src at n out k =
    let (fits, reads, e) = memcpy_bounds dst at src n out k in
    let filled = take at dst ++ take n src in
    let measured : at + n ≡ length filled =
      omega
        (arith, length-append (take at dst) (take n src), length-take at dst, length-take n src) in
    rw (e, measured) (take-append_length filled (drop (length filled) dst))

pub read16-drop : (n : ℕ) (p : Bytes) → read16 p n ≡ read16 (drop n p) 0
unfolding read16
read16-drop n p =
    let first : n ≡ n + 0 = omega arith in
    ap (λ o. o >>= λ hi. read8 p (n + 1) >>= λ lo. some (bit_or (hi <<< 8) lo))
      (ap (read8 p) first ∙ get_elem?-drop n 0 p)
    ∙ ap (λ o. read8 (drop n p) 0 >>= λ hi. o >>= λ lo. some (bit_or (hi <<< 8) lo))
        (get_elem?-drop n 1 p)

pub read32-drop : (n : ℕ) (p : Bytes) → read32 p n ≡ read32 (drop n p) 0
unfolding read32
read32-drop n p =
    let first : n ≡ n + 0 = omega arith in
    rw (ap (read8 p) first, get_elem?-drop n 1 p, get_elem?-drop n 2 p, get_elem?-drop n 3 p)
      (ap
        (λ o. o >>= λ a. read8 (drop n p) 1 >>= λ b. read8 (drop n p) 2 >>= λ c.
          read8 (drop n p) 3 >>= λ d.
          some (bit_or (bit_or (bit_or (a <<< 24) (b <<< 16)) (c <<< 8)) d))
        (get_elem?-drop n 0 p))

-- Reads inside the object give something.
pub read8-some : (p : Bytes) (i : ℕ) → i < length p → (v : ℕ) × (read8 p i ≡ some v)
read8-some p i inside = (get_or p i 0, get_elem?-eq-get_or p i 0 inside)

pub read16-some : (p : Bytes) (i : ℕ) → i + 1 < length p → (v : ℕ) × (read16 p i ≡ some v)
unfolding read16
read16-some p i inside =
    let (a, at_a) = read8-some p i (omega arith) in
    let (b, at_b) = read8-some p (i + 1) inside in (bit_or (a <<< 8) b, rw (at_a, at_b) refl)

pub read32-some : (p : Bytes) (i : ℕ) → i + 3 < length p → (v : ℕ) × (read32 p i ≡ some v)
unfolding read32
read32-some p i inside =
    let (a, at_a) = read8-some p i (omega arith) in
    let (b, at_b) = read8-some p (i + 1) (omega arith) in
    let (c, at_c) = read8-some p (i + 2) (omega arith) in
    let (d, at_d) = read8-some p (i + 3) inside in
    (bit_or (bit_or (bit_or (a <<< 24) (b <<< 16)) (c <<< 8)) d, rw (at_a, at_b, at_c, at_d) refl)

pub read64-some : (p : Bytes) (i : ℕ) → i + 7 < length p → (v : ℕ) × (read64 p i ≡ some v)
unfolding read64
read64-some p i inside =
    let (high, at_high) = read32-some p i (omega arith) in
    let (low, at_low) = read32-some p (i + 4) (omega arith) in
    (bit_or (high <<< 32) low, rw (at_high, at_low) refl)
