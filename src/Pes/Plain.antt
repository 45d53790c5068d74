-- ===== src/Pes/Plain.antt =====
-- src/pes.c: the PES header without its extension, read as a whole.
use tsanalyze.Base.{
  ℕ, ◌+◌, ◌*◌, ◌≤◌, ◌<◌, bit, Option, ◌>>=◌, Bytes, length, ◌≡◌, ap, subst, ◌∙◌, arith,
}
use tsanalyze.Pes.Header.{
  Reading, pts_part, dts_part, escr_part, es_rate_part, trick_mode_part, copy_info_part, crc_part,
}
use tsanalyze.Pes.Steps.{Flags, flags_of, Step, Moved-bind}
use tsanalyze.Pes.Fields.{
  pts_part-Step, dts_part-Step, escr_part-Step, es_rate_part-Step, trick_mode_part-Step,
  copy_info_part-Step, crc_part-Step,
}

pub record IsFlags (flags : Flags) : Type 0 where
  pub timestamps : flags.timestamps < 4
  pub escr : flags.escr < 2
  pub es_rate : flags.es_rate < 2
  pub trick_mode : flags.trick_mode < 2
  pub copy_info : flags.copy_info < 2
  pub crc : flags.crc < 2

-- How many bytes the flags announce, in the order of the fields.
abbrev pub announced : Flags → ℕ
announced f =
    5 * bit f.timestamps 1
    + (5 * bit f.timestamps 0
        + (6 * f.escr + (3 * f.es_rate + (1 * f.trick_mode + (1 * f.copy_info + 2 * f.crc)))))

-- The parts behind the flags.
abbrev pub optional_parts : Bytes → Reading → Option Reading
optional_parts pkt r₁ = do
  r₂ ← pts_part pkt r₁
  r₃ ← dts_part pkt r₂
  r₄ ← escr_part pkt r₃
  r₅ ← es_rate_part pkt r₄
  r₆ ← trick_mode_part pkt r₅
  r₇ ← copy_info_part pkt r₆
  crc_part pkt r₇

pub optional_parts-Step :
    (pkt : Bytes) (r : Reading)
    → IsFlags (flags_of r)
    → r.at + announced (flags_of r) ≤ length pkt
    → Step (announced (flags_of r)) r (optional_parts pkt r)
optional_parts-Step pkt r ok inside =
    let f = flags_of r in
    Moved-bind _ _ _ _ r _ _ (pts_part-Step pkt r ok.timestamps (omega arith)) (λ r₂ at₂ same₂.
      let ts₂ : r₂.packet_data.pts_dts_flags ≡ f.timestamps =
        ap (λ (g : Flags). g.timestamps) same₂ in
      Moved-bind _ _ _ _ r₂ _ _
        (subst (λ n. Step (5 * bit n 0) r₂ (dts_part pkt r₂)) ts₂
          (dts_part-Step pkt r₂ (omega (arith, ap (λ n. bit n 0) ts₂))))
        (λ r₃ at₃ same₃.
          let e₃ : r₃.packet_data.escr_flag ≡ f.escr = ap (λ (g : Flags). g.escr) (same₃ ∙ same₂) in
          Moved-bind _ _ _ _ r₃ _ _
            (subst (λ n. Step (6 * n) r₃ (escr_part pkt r₃)) e₃
              (escr_part-Step pkt r₃ (omega (arith, ok.escr)) (omega arith)))
            (λ r₄ at₄ same₄.
              let same = same₄ ∙ same₃ ∙ same₂ in
              let e₄ : r₄.packet_data.es_rate_flag ≡ f.es_rate =
                ap (λ (g : Flags). g.es_rate) same in
              Moved-bind _ _ _ _ r₄ _ _
                (subst (λ n. Step (3 * n) r₄ (es_rate_part pkt r₄)) e₄
                  (es_rate_part-Step pkt r₄ (omega (arith, ok.es_rate)) (omega arith)))
                (λ r₅ at₅ same₅.
                  let e₅ : r₅.packet_data.dsm_trick_mode_flag ≡ f.trick_mode =
                    ap (λ (g : Flags). g.trick_mode) (same₅ ∙ same) in
                  Moved-bind _ _ _ _ r₅ _ _
                    (subst (λ n. Step (1 * n) r₅ (trick_mode_part pkt r₅)) e₅
                      (trick_mode_part-Step pkt r₅ (omega (arith, ok.trick_mode)) (omega arith)))
                    (λ r₆ at₆ same₆.
                      let e₆ : r₆.packet_data.additional_copy_info_flag ≡ f.copy_info =
                        ap (λ (g : Flags). g.copy_info) (same₆ ∙ same₅ ∙ same) in
                      Moved-bind _ _ _ _ r₆ _ _
                        (subst (λ n. Step (1 * n) r₆ (copy_info_part pkt r₆)) e₆
                          (copy_info_part-Step pkt r₆ (omega (arith, ok.copy_info)) (omega arith)))
                        (λ r₇ at₇ same₇.
                          let e₇ : r₇.packet_data.pes_crc_flag ≡ f.crc =
                            ap (λ (g : Flags). g.crc) (same₇ ∙ same₆ ∙ same₅ ∙ same) in
                          subst (λ n. Step (2 * n) r₇ (crc_part pkt r₇)) e₇
                            (crc_part-Step pkt r₇ (omega (arith, ok.crc)) (omega arith))))))))
