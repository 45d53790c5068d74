-- ===== src/Ts/Reassembly.antt =====
-- src/ts.c: `section_preproc` gives back the section that the packets of a PID carry.
use tsanalyze.Base.{ℕ, ◌+◌, ◌==◌, if◌then◌else◌, false, ◌≤◌, ◌<◌}
use tsanalyze.Base.{Option, none, some, ◌>>=◌, Bytes, memcpy, drop, take, length, u16}
use tsanalyze.Base.{pos, List, [], ◌∷◌, ◌++◌, ◌≡◌, refl, sym, ◌∙◌, ap, arith}
use tsanalyze.Base.{take-take, take-memcpy, length-memcpy, memcpy_lem, length-append, length-take}
use mathlib.Core.List.{append_assoc}
use tsanalyze.Ts.Section.{
  SectionParser, Preproc, minus_one, max_section_buf, section_preproc, waits,
}
use tsanalyze.Ts.Section.{psi_continue, append_packet}

-- The parser holds `got`, the first bytes of something longer.
pub record IsFilling (p : SectionParser) (got : Bytes) : Type 0 where
  pub block : Bytes
  pub allocated : p.buffer ≡ some block
  pub roomy : length block ≡ max_section_buf
  pub counted : p.total_len ≡ pos (length got)
  pub prefix : take (length got) block ≡ got

-- A write of `n` bytes behind what is there.
module _ (p : SectionParser) (got pkt : Bytes) (n : ℕ) (f : IsFilling p got)
    (reads : n ≤ length pkt) (fits : length got + n ≤ max_section_buf) where
  abbrev filled : Bytes
  filled = take (length got) f.block ++ take n pkt ++ drop (length got + n) f.block

  written : memcpy f.block (length got) pkt n ≡ some filled
  written = memcpy_lem f.block (length got) pkt n (omega (arith, f.roomy)) reads

  abbrev appended : SectionParser
  appended = record p { buffer = some filled; total_len = pos (length got + n) }

  append_packet_lem : append_packet p pkt n f.block ≡ some appended
  unfolding append_packet
  append_packet_lem = ground (arith, written, f.counted)

  length-grown : length (got ++ take n pkt) ≡ length got + n
  length-grown = omega (arith, length-append got (take n pkt), length-take n pkt)

  filled_prefix : take (length (got ++ take n pkt)) filled ≡ got ++ take n pkt
  filled_prefix =
      ap (λ k. take k filled) length-grown
      ∙ take-memcpy f.block pkt (length got) n filled written
      ∙ ap (λ b. b ++ take n pkt) f.prefix

  appended-IsFilling : IsFilling appended (got ++ take n pkt)
  appended-IsFilling = record {
    block = filled;
    allocated = refl;
    roomy = length-memcpy f.block (length got) pkt n filled written ∙ f.roomy;
    counted = ap pos (sym length-grown);
    prefix = filled_prefix;
  }

module _ (malloc : Option Bytes) where
  -- A packet that does not complete the section is kept.
  psi_continue-waits :
      (p : SectionParser) (got pkt : Bytes) (n : ℕ)
      → IsFilling p got
      → n ≤ length pkt
      → 0 < length got
      → length got + n < p.limit_len
      → p.limit_len ≤ max_section_buf
      → (p' : SectionParser) × (psi_continue malloc p pkt n ≡ some (waits minus_one p'))
        × IsFilling p' (got ++ take n pkt)
        × (p'.limit_len ≡ p.limit_len)
  unfolding psi_continue
  psi_continue-waits p got pkt n f reads begun short small =
      let fits : length got + n ≤ max_section_buf = omega arith in
      (
        appended p got pkt n f reads fits,
        ground (arith, append_packet_lem p got pkt n f reads fits, f.counted, f.allocated),
        appended-IsFilling p got pkt n f reads fits,
        refl,
      )

  -- A packet that completes it delivers the buffer, and the parser starts anew.
  psi_continue_completes :
      (p : SectionParser) (got pkt : Bytes) (n : ℕ)
      → IsFilling p got
      → n ≤ length pkt
      → 0 < length got
      → p.limit_len ≤ length got + n
      → length got + n ≤ max_section_buf
      → (p' : SectionParser) × (out : Bytes) × (psi_continue malloc p pkt n
          ≡ some (record { ret = u16 p.limit_len; buffering = some out; parser = p' }))
        × (take (length got + n) out ≡ got ++ take n pkt)
        × (p'.total_len ≡ pos 0)
  unfolding psi_continue
  psi_continue_completes p got pkt n f reads begun long fits = (
    record (appended p got pkt n f reads fits) { total_len = pos 0 },
    filled p got pkt n f reads fits,
    ground (arith, append_packet_lem p got pkt n f reads fits, f.counted, f.allocated),
    ap (λ k. take k (filled p got pkt n f reads fits)) (sym (length-grown p got pkt n f reads fits))
        ∙ filled_prefix p got pkt n f reads fits,
    refl,
  )

-- The payloads of packets, in order; each is a pointer and a length.
abbrev pub payloads : List (Bytes × ℕ) → Bytes
payloads [] = []
payloads ((pkt, n) ∷ rest) = take n pkt ++ payloads rest

abbrev pub AllReadable : List (Bytes × ℕ) → Type 0
AllReadable [] = Unit {0}
AllReadable ((pkt, n) ∷ rest) = (n ≤ length pkt) × AllReadable rest

-- What `ts_proc` hands to the filters after a call of `section_preproc`.
unfoldable pub delivered : Preproc → List Bytes
delivered r =
    if r.ret == minus_one
    then []
    else if r.ret == 0
    then []
    else elim r.buffering [ none ↦ [] | some b ↦ take r.ret b ∷ [] ]

module _ (malloc : Option Bytes) where
  section_preproc_later :
      (p : SectionParser) (pkt : Bytes) (n : ℕ)
      → section_preproc malloc p pkt n 0 0 false ≡ psi_continue malloc p pkt n
  unfolding section_preproc
  section_preproc_later p pkt n = refl

  -- Later packets of a PSI PID, with all that they deliver.
  unfoldable pub feed : SectionParser → List (Bytes × ℕ) → Option (List Bytes × SectionParser)
  unfolding delivered
  feed p [] = some ([], p)
  feed p ((pkt, n) ∷ rest) = do
    r ← section_preproc malloc p pkt n 0 0 false
    (out, p') ← feed r.parser rest
    some (delivered r ++ out, p')

  pub delivered_complete :
      (limit : ℕ) (out : Bytes) (p : SectionParser)
      → 0 < limit
      → limit < minus_one
      → delivered (record { ret = u16 limit; buffering = some out; parser = p })
        ≡ take limit out ∷ []
  unfolding delivered
  delivered_complete limit out p some_bytes small = ground arith

  pub feed-section :
      (mid : List (Bytes × ℕ)) (pkt : Bytes) (n : ℕ) (p : SectionParser) (got : Bytes)
      → IsFilling p got
      → 0 < length got
      → AllReadable mid
      → n ≤ length pkt
      → length got + length (payloads mid) < p.limit_len
      → p.limit_len ≤ length got + length (payloads mid) + n
      → p.limit_len + n < max_section_buf
      → (p' : SectionParser) × (feed p (mid ++ ((pkt, n) ∷ []))
          ≡ some (take p.limit_len (got ++ (payloads mid ++ take n pkt)) ∷ [], p'))
        × (p'.total_len ≡ pos 0)
  unfolding feed
  feed-section [] pkt n p got f begun readable reads short long small =
      let (p', out, ran, prefix, zeroed) =
        psi_continue_completes malloc p got pkt n f reads begun (omega arith) (omega arith) in
      let section : take p.limit_len out ≡ take p.limit_len (got ++ take n pkt) =
        sym (take-take p.limit_len (length got + n) out (omega arith))
        ∙ ap (λ b. take p.limit_len b) prefix in
      (
        p',
        rw (
          section_preproc_later p pkt n,
          ran,
          delivered_complete p.limit_len out p' (omega arith) (omega arith),
          section,
        ),
        zeroed,
      )
  feed-section ((q, m) ∷ mid) pkt n p got f begun readable reads short long small =
      let grown = length-append (take m q) (payloads mid) in
      let taken = length-take m q in
      let (p', ran, f', same) =
        psi_continue-waits malloc p got q m f readable.0 begun (omega (arith, readable.0))
          (omega arith) in
      let (p'', fed, zeroed) =
        feed-section mid pkt n p' (got ++ take m q) f' (omega (arith, length-append got (take m q)))
          readable.1 reads (omega (arith, length-append got (take m q)))
          (omega (arith, length-append got (take m q))) (omega arith) in
      let regrouped =
        append_assoc got (take m q) (payloads mid ++ take n pkt)
        ∙ ap (λ b. got ++ b) (sym (append_assoc (take m q) (payloads mid) (take n pkt))) in
      (
        p'',
        rw (section_preproc_later p q m, ran)
            (rw fed (
              ap (λ b. some (b ∷ [], p''))
                (ap (λ k. take k (got ++ take m q ++ (payloads mid ++ take n pkt))) same
                  ∙ ap (λ b. take p.limit_len b) regrouped))),
        zeroed,
      )
