-- ===== src/Ps/Pack/Whole.antt =====
-- src/ps.c: `parse_ps` on packs by the standard, whatever follows them.
use tsanalyze.Base.{
  ℕ, zero, suc, ◌+◌, ◌-◌, ◌^◌, ◌≤◌, ◌<◌, ◌==◌, false, Option, some, List, [], ◌∷◌, ◌++◌, length,
  length-append, drop, drop-add, drop-append_length, Bytes, read32, read32-drop, pos, ◌≡◌, refl, ap,
  ◌∙◌, arith,
}
use mathlib.Core.List.{append_assoc}
use tsanalyze.Pes.{MpegtsPes, DataCallback}
use tsanalyze.Ps.Pack.{PackHeader, step_left, parse_pack, packs_from, parse_ps}
use tsanalyze.Ps.Pack.One.{Pack, encode_pack, encode, ArePacks, EndsPack, pack_EndsPack, pack_lem}

module _ {Priv : Type 0}
    (run_callback : DataCallback → ℕ → Bytes → ℕ → Option Priv → Option (Option Priv)) where
  packs_from-step :
      (fuel pid at l n : ℕ) (pkt : Bytes) (ph : PackHeader) (pes : MpegtsPes Priv)
      → read32 pkt at ≡ some 0x000001BA
      → parse_pack run_callback (suc fuel) pid (drop at pkt) l pes ≡ some (pos n, ph, pes)
      → packs_from run_callback (suc fuel) pid pkt at l pes
        ≡ packs_from run_callback fuel pid pkt (at + n) (step_left l n) pes
  unfolding packs_from
  packs_from-step fuel pid at l n pkt ph pes word ran = rw (word, ran) refl

  packs_from-end :
      (fuel pid at l next : ℕ) (pkt : Bytes) (pes : MpegtsPes Priv)
      → read32 pkt at ≡ some next
      → (next == 0x000001BA) ≡ false
      → packs_from run_callback (suc fuel) pid pkt at l pes ≡ some (next == 0x000001B9, pes)
  unfolding packs_from
  packs_from-end fuel pid at l next pkt pes word no_pack = rw (word, no_pack) refl

  -- The word that a run of packs, or what is behind it, starts with.
  first_word :
      (ps : List Pack) (tail : Bytes) (next : ℕ)
      → read32 tail 0 ≡ some next
      → 4 ≤ length tail
      → EndsPack next
      → (w : ℕ) × (read32 (encode ps ++ tail) 0 ≡ some w)
        × EndsPack w
        × (4 ≤ length (encode ps ++ tail))
  unfolding read32
  first_word [] tail next at0 long ends = (next, at0, ends, long)
  first_word (p ∷ ps) tail next at0 long ends = (0x000001BA, refl, pack_EndsPack, omega arith)

  packs_from-encode :
      (fuel pid at l next : ℕ) (ps : List Pack) (pkt tail : Bytes) (pes : MpegtsPes Priv)
      → ArePacks ps
      → drop at pkt ≡ encode ps ++ tail
      → read32 tail 0 ≡ some next
      → 4 ≤ length tail
      → EndsPack next
      → (next == 0x000001BA) ≡ false
      → length (encode ps) ≤ l
      → l < 2 ^ 16
      → length ps < fuel
      → packs_from run_callback fuel pid pkt at l pes ≡ some (next == 0x000001B9, pes)
  unfolding read32
  packs_from-encode zero pid at l next ps pkt tail pes ok here at0 long ends no_pack fits small
        enough =
      absurd (omega arith)
  packs_from-encode (suc fuel) pid at l next [] pkt tail pes ok here at0 long ends no_pack fits
        small enough =
      packs_from-end fuel pid at l next pkt pes
        (read32-drop at pkt ∙ ap (λ b. read32 b 0) here ∙ at0) no_pack
  packs_from-encode (suc fuel) pid at l next (p ∷ ps) pkt tail pes ok here at0 long ends no_pack
        fits small enough =
      let one = encode_pack p in
      let n = length one in
      let behind = encode ps ++ tail in
      let here' : drop at pkt ≡ one ++ behind = here ∙ append_assoc one (encode ps) tail in
      let (w, word, word_ends, room) = first_word ps tail next at0 long ends in
      let both = length-append one (encode ps) in
      let (ph, ran) =
        pack_lem run_callback fuel pid l w p behind pes ok.0 word room word_ends
          (omega (arith, fits, both)) small in
      let there : drop (at + n) pkt ≡ encode ps ++ tail =
        drop-add at n pkt ∙ ap (drop n) here' ∙ drop-append_length one behind in
      let left : step_left l n ≡ l - n = omega (arith, fits, both, small) in
      packs_from-step fuel pid at l n pkt ph pes (read32-drop at pkt ∙ ap (λ b. read32 b 0) here')
        (ap (λ b. parse_pack run_callback (suc fuel) pid b l pes) here' ∙ ran)
      ∙ packs_from-encode fuel pid (at + n) (step_left l n) next ps pkt tail pes ok.1 there at0 long
          ends no_pack (omega (arith, left, fits, both)) (omega (arith, left, small))
          (omega (arith, enough))

  -- With one round more than there are packs, `parse_ps` reads over packs by the standard, with or
  -- without stuffing and a system header, whatever word follows them that starts no pack, no system
  -- header and no program stream map: the result is 1 exactly if that word is the end code, and
  -- nothing is kept. So it is 0 for a pack with a packet of audio or video behind its header.
  pub parse_ps-encode :
      (fuel pid len next : ℕ) (ps : List Pack) (tail : Bytes) (pes : MpegtsPes Priv)
      → ArePacks ps
      → read32 tail 0 ≡ some next
      → 4 ≤ length tail
      → EndsPack next
      → (next == 0x000001BA) ≡ false
      → length (encode ps) ≤ len
      → len < 2 ^ 16
      → length ps < fuel
      → parse_ps run_callback fuel pid (encode ps ++ tail) len pes ≡ some (next == 0x000001B9, pes)
  unfolding parse_ps
  parse_ps-encode fuel pid len next ps tail pes ok at0 long ends no_pack fits small enough =
      packs_from-encode fuel pid 0 len next ps (encode ps ++ tail) tail pes ok refl at0 long ends
        no_pack fits small enough
