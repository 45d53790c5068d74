-- ===== src/Ps/Pack/One.antt =====
-- src/ps.c: `parse_pack` on a pack by the standard.
use tsanalyze.Base.{
  ℕ, suc, ◌+◌, ◌*◌, ◌/◌, ◌%◌, ◌^◌, ◌≤◌, ◌<◌, ◌==◌, bit, Bool-cases, false, inl, inr, Option, none,
  some, List, [], ◌∷◌, ◌++◌, length, length-append, length-drop, drop, drop-add, drop-append_length,
  Bytes, bit_or, ◌<<<◌, read8, read16, read32, read64, read8-some, read16-some, read32-some,
  read64-some, read32-drop, pos, sub_ℕ, ◌≡◌, refl, ap, ◌∙◌, arith,
}
use mathlib.Core.List.{append_assoc}
use tsanalyze.Base.Bits.{bit_or_fields}
use tsanalyze.Pes.{MpegtsPes, DataCallback}
use tsanalyze.Scte.Command.Parts.{big_endian32}
use tsanalyze.Ps.Pack.{
  Estd, SystemHeader, PackHeader, estd_of, system_header_of, read_estd, parse_system_header,
  pack_header_of, skip_system, step_left, is_map, maps_from, parse_pack,
}

-- A pack by the standard: its clock as two words, its stuffing, and the bytes of a system header
-- behind its length, if it has one.
pub record Pack : Type 0 where
  pub clock_high : ℕ
  pub clock_low : ℕ
  pub rate : ℕ
  pub reserved : ℕ
  pub stuffing : Bytes
  pub system : Option Bytes

abbrev pub encode_system : Option Bytes → Bytes
encode_system none = []
encode_system (some body) = 0 ∷ 0 ∷ 1 ∷ 0xBB ∷ (length body / 256) ∷ (length body % 256) ∷ body

abbrev pub encode_pack : Pack → Bytes
encode_pack p =
    0
    ∷ 0
    ∷ 1
    ∷ 0xBA
    ∷ (big_endian32 p.clock_high
        ++ (big_endian32 p.clock_low
            ++ (p.rate
                ∷ (p.reserved * 32 + length p.stuffing)
                ∷ (p.stuffing ++ encode_system p.system))))

abbrev pub encode : List Pack → Bytes
encode [] = []
encode (p ∷ ps) = encode_pack p ++ encode ps

-- A system header has six bytes of its own behind its length.
abbrev pub IsSystem : Option Bytes → Type 0
IsSystem none = Unit {0}
IsSystem (some body) = 6 ≤ length body

pub record IsPack (p : Pack) : Type 0 where
  pub stuffing_bits : length p.stuffing < 32
  pub system : IsSystem p.system

abbrev pub ArePacks : List Pack → Type 0
ArePacks [] = Unit {0}
ArePacks (p ∷ ps) = IsPack p × ArePacks ps

-- Neither a system header nor a packet of the program stream map starts with the word.
pub record EndsPack (next : ℕ) : Type 0 where
  pub no_system : (next == 0x000001BB) ≡ false
  pub no_map : is_map next ≡ false

pub pack_EndsPack : EndsPack 0x000001BA
pack_EndsPack = record { no_system = refl; no_map = refl }

read_estd-some : (buf : Bytes) → 3 ≤ length buf → (e : Option Estd) × (read_estd buf ≡ some e)
unfolding read_estd
read_estd-some buf long =
    let (id, at0) = read8-some buf 0 (omega arith) in
    let (v, at1) = read16-some buf 1 (omega arith) in
    elim (Bool-cases (bit id 7 == 1)) [
      | inl there ↦ (some (estd_of id v), rw (at0, there, at1) refl)
      | inr gone ↦ (none, rw (at0, gone) refl)
    ]

parse_system_header-some :
    (pkt : Bytes) (len : ℕ)
    → 15 ≤ length pkt
    → read16 pkt 4 ≡ some len
    → (sh : SystemHeader) × (parse_system_header pkt ≡ some (len + 6, sh))
unfolding parse_system_header
parse_system_header-some pkt len long at4 =
    let (start, at0) = read32-some pkt 0 (omega arith) in
    let (bounds, at6) = read32-some pkt 6 (omega arith) in
    let (locks, at10) = read8-some pkt 10 (omega arith) in
    let (restriction, at11) = read8-some pkt 11 (omega arith) in
    let (es', at12) = read_estd-some (drop 12 pkt) (omega (arith, length-drop 12 pkt)) in
    (
      system_header_of start len bounds locks restriction es',
      rw (at0, at4, at6, at10, at11, at12) refl,
    )

skip_system-none :
    (pkt : Bytes) (at next : ℕ) → EndsPack next → skip_system pkt at next ≡ some (at, next)
unfolding skip_system
skip_system-none pkt at next ends = rw (ends.no_system) refl

skip_system-some :
    (pkt : Bytes) (at len next : ℕ)
    → 15 ≤ length (drop at pkt)
    → read16 (drop at pkt) 4 ≡ some len
    → read32 pkt (at + (len + 6)) ≡ some next
    → skip_system pkt at 0x000001BB ≡ some (at + (len + 6), next)
unfolding skip_system
skip_system-some pkt at len next long at4 behind =
    let (sh, ran) = parse_system_header-some (drop at pkt) len long at4 in rw (ran, behind) refl

-- Behind the stuffing, a system header is read over, and the word behind the pack is next.
system_lem :
    (system : Option Bytes) (pkt tail : Bytes) (at next : ℕ)
    → IsSystem system
    → drop at pkt ≡ encode_system system ++ tail
    → read32 tail 0 ≡ some next
    → 4 ≤ length tail
    → EndsPack next
    → (e : ℕ) × (read32 pkt at ≡ some e)
      × (skip_system pkt at e ≡ some (at + length (encode_system system), next))
unfolding read32 read16
system_lem none pkt tail at next ok behind at0 long ends = (
  next,
  read32-drop at pkt ∙ ap (λ l. read32 l 0) behind ∙ at0,
  skip_system-none pkt at next ends ∙ ap (λ k. some (k, next)) (omega arith),
)
system_lem (some body) pkt tail at next ok behind at0 long ends =
    let n = length body in
    let bytes = encode_system (some body) in
    let len_read : bit_or ((n / 256) <<< 8) (n % 256) ≡ n =
      omega (arith, bit_or_fields 8 (n / 256) (n % 256) (omega arith)) in
    let past : drop (at + length bytes) pkt ≡ tail =
      drop-add at (length bytes) pkt
      ∙ ap (drop (length bytes)) behind
      ∙ drop-append_length bytes tail in
    let after : read32 pkt (at + length bytes) ≡ some next =
      read32-drop (at + length bytes) pkt ∙ ap (λ l. read32 l 0) past ∙ at0 in
    let sized : n + 6 ≡ length bytes = omega arith in
    (
      0x000001BB,
      read32-drop at pkt ∙ ap (λ l. read32 l 0) behind,
      skip_system-some pkt at n next
            (omega (arith, ok, long, ap length behind, length-append bytes tail))
            (ap (λ l. read16 l 4) behind ∙ ap some len_read)
            (ap (λ k. read32 pkt (at + k)) sized ∙ after)
          ∙ ap (λ k. some (at + k, next)) sized,
    )

module _ {Priv : Type 0}
    (run_callback : DataCallback → ℕ → Bytes → ℕ → Option Priv → Option (Option Priv)) where
  no_maps :
      (fuel pid at l next : ℕ) (pkt : Bytes) (pes : MpegtsPes Priv)
      → is_map next ≡ false
      → maps_from run_callback (suc fuel) pid pkt at l next pes ≡ some (at, l, pes)
  unfolding maps_from
  no_maps fuel pid at l next pkt pes no_map = rw no_map refl

  parse_pack_lem :
      (fuel pid len at next e : ℕ) (pkt : Bytes) (start clock rate stuffing end : ℕ)
      (pes : MpegtsPes Priv)
      → read32 pkt 0 ≡ some start
      → read64 pkt 4 ≡ some clock
      → read8 pkt 12 ≡ some rate
      → read8 pkt 13 ≡ some stuffing
      → 14 + stuffing % 2 ^ 5 ≡ at
      → read32 pkt at ≡ some e
      → skip_system pkt at e ≡ some (end, next)
      → is_map next ≡ false
      → end ≤ len
      → len < 2 ^ 16
      → parse_pack run_callback (suc fuel) pid pkt len pes
        ≡ some (pos end, pack_header_of start clock rate stuffing, pes)
  unfolding parse_pack
  parse_pack_lem fuel pid len at next e pkt start clock rate stuffing end pes at0 at4 at12 at13 here
        word skipped no_map fits small =
      let left : sub_ℕ len (step_left len end) ≡ pos end = ground arith in
      rw
        (
          at0,
          at4,
          at12,
          at13,
          here,
          word,
          skipped,
          no_maps fuel pid end (step_left len end) next pkt pes no_map,
          left,
        )
        refl

  -- A pack, and what its parser makes of it.
  pub pack_lem :
      (fuel pid len next : ℕ) (p : Pack) (tail : Bytes) (pes : MpegtsPes Priv)
      → IsPack p
      → read32 tail 0 ≡ some next
      → 4 ≤ length tail
      → EndsPack next
      → length (encode_pack p) ≤ len
      → len < 2 ^ 16
      → (ph : PackHeader) × (parse_pack run_callback (suc fuel) pid (encode_pack p ++ tail) len pes
          ≡ some (pos (length (encode_pack p)), ph, pes))
  unfolding read32 read64
  pack_lem fuel pid len next p tail pes ok at0 long ends fits small =
      let pkt = encode_pack p ++ tail in
      let n = length p.stuffing in
      let system = encode_system p.system in
      let stuffing = p.reserved * 32 + n in
      let behind : drop (14 + n) pkt ≡ system ++ tail =
        drop-add 14 n pkt
        ∙ ap (drop n) (append_assoc p.stuffing system tail)
        ∙ drop-append_length p.stuffing (system ++ tail) in
      let (e, word, skipped) =
        system_lem p.system pkt tail (14 + n) next ok.system behind at0 long ends in
      let total : 14 + n + length system ≡ length (encode_pack p) =
        omega (arith, length-append p.stuffing system) in
      let (clock, at4) =
        read64-some pkt 4 (omega (arith, length-append (encode_pack p) tail, total)) in
      (
        pack_header_of 0x000001BA clock p.rate stuffing,
        parse_pack_lem fuel pid len (14 + n) next e pkt 0x000001BA clock p.rate stuffing
            (length (encode_pack p)) pes refl at4 refl refl (omega (arith, ok.stuffing_bits)) word
            (skipped ∙ ap (λ k. some (k, next)) total) ends.no_map fits small,
      )
