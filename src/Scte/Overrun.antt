-- ===== src/Scte/Overrun.antt =====
-- src/scte.c: `parse_splice_descriptors` on a descriptor by the standard.
use tsanalyze.Base.{
  ℕ, zero, suc, ◌+◌, ◌-◌, ◌<◌, true, none, [], ◌∷◌, ◌++◌, length, length-append, drop, drop_all,
  bind-none, Bytes, ◌≡◌, refl, ap, ◌∙◌, arith,
}
use tsanalyze.Scte.Info.{splice_body, splice_descriptors_from, parse_splice_descriptors}

nothing_left :
    (fuel l : ℕ) (ptr : Bytes) → ptr ≡ [] → 0 < l → splice_descriptors_from true fuel ptr l ≡ none
unfolding splice_descriptors_from
nothing_left fuel zero ptr gone more = absurd (omega arith)
nothing_left zero (suc l) ptr gone more = refl
nothing_left (suc fuel) (suc l) ptr gone more = rw gone refl

runs_on :
    (fuel l tag' size' : ℕ) (rest : Bytes)
    → splice_descriptors_from true fuel (drop (6 + size') (tag' ∷ size' ∷ rest)) (suc l + 6 - size')
      ≡ none
    → splice_descriptors_from true (suc fuel) (tag' ∷ size' ∷ rest) (suc l) ≡ none
unfolding splice_descriptors_from
runs_on fuel l tag' size' rest later =
    bind-none (splice_body size' (drop 4 rest)) _ (λ body'. rw later refl)

-- After one descriptor by the standard, at the end of a section, the loop does not end, but reads another one behind the checksum of the section, which is out of it.
pub parse_splice_descriptors-none :
    (tag' : ℕ) (payload crc : Bytes)
    → length crc ≡ 4
    → parse_splice_descriptors true (tag' ∷ length payload ∷ (payload ++ crc)) (2 + length payload)
      ≡ none
unfolding parse_splice_descriptors
parse_splice_descriptors-none tag' payload crc four =
    let n = length payload in
    let buf = tag' ∷ n ∷ (payload ++ crc) in
    let fuel = suc (length (payload ++ crc)) in
    let gone : drop (6 + n) buf ≡ [] =
      drop_all (6 + n) buf (omega (arith, length-append payload crc, four)) in
    let more : 2 + n ≡ suc (suc n) = omega arith in
    ap (splice_descriptors_from true (suc fuel) buf) more
    ∙ runs_on fuel (suc n) tag' n (payload ++ crc)
        (nothing_left fuel (suc (suc n) + 6 - n) (drop (6 + n) buf) gone (omega arith))
