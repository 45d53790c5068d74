-- ===== src/Ts/Start.antt =====
-- src/ts.c: the packet that a PSI section starts in, and whole sections.
use tsanalyze.Base.{ℕ, ◌+◌, ◌-◌, leb, if◌then◌else◌, false, ◌≤◌, ◌<◌, bit_and}
use tsanalyze.Base.{Option, none, some, Bytes, read8, read16, memcpy, drop, take, length, u16}
use tsanalyze.Base.{pos, sub_ℕ, List, [], ◌∷◌, ◌++◌, ◌≡◌, refl, sym, ◌∙◌, ap, arith, ◌⊎◌}
use tsanalyze.Base.{
  take-memcpy, length-memcpy, memcpy_lem, length-take, length-drop, le→leb, lt→leb_false,
}
use native.Mathlib.Nat.{add-zero}
use tsanalyze.Base.Bits.{bit_and_mask}
use tsanalyze.Ts.Section.{
  SectionParser, Preproc, minus_one, max_section_buf, section_preproc, psi_start,
}
use tsanalyze.Ts.Section.{sec_getbuf, start_buffering, waits}
use tsanalyze.Ts.Reassembly.{
  IsFilling, payloads, AllReadable, delivered, delivered_complete, feed, feed-section,
}

module _ (malloc : Option Bytes) where
  -- The parser has a buffer, or gets one.
  abbrev pub HasBlock : SectionParser → Bytes → Type 0
  HasBlock p b =
      ((p.buffer ≡ some b) ⊎ ((p.buffer ≡ none) × (malloc ≡ some b))) × (length b ≡ max_section_buf)

  sec_getbuf_lem :
      (p : SectionParser) (b : Bytes)
      → HasBlock p b
      → ((sec_getbuf malloc p).buffer ≡ some b)
        × ((sec_getbuf malloc p).total_len ≡ p.total_len)
        × ((sec_getbuf malloc p).limit_len ≡ p.limit_len)
  unfolding sec_getbuf
  sec_getbuf_lem p b ready = ground arith

  module _ (p : SectionParser) (src b : Bytes) (n : ℕ) (ready : HasBlock p b)
      (reads : n ≤ length src) (small : n ≤ max_section_buf) (counted : p.total_len ≡ pos n) where
    abbrev block : Bytes
    block = take 0 b ++ take n src ++ drop (0 + n) b

    written : memcpy b 0 src n ≡ some block
    written = memcpy_lem b 0 src n (omega (arith, ready.1)) reads

    abbrev begun : SectionParser
    begun = record (sec_getbuf malloc p) { buffer = some block }

    start_buffering_lem : start_buffering malloc p src ≡ some (waits minus_one begun)
    unfolding start_buffering
    start_buffering_lem = ground (arith, sec_getbuf_lem p b ready, written, counted)

    length-first : length (take n src) ≡ n
    length-first = omega (arith, length-take n src)

    begun-IsFilling : IsFilling begun (take n src)
    begun-IsFilling = record {
      block = block;
      allocated = refl;
      roomy = length-memcpy b 0 src n block written ∙ ready.1;
      counted = (sec_getbuf_lem p b ready).1 ∙ counted ∙ ap pos (sym length-first);
      prefix =
          ap (λ k. take k block) (length-first ∙ omega arith) ∙ take-memcpy b src 0 n block written;
    }

  module _ (p : SectionParser) (pkt : Bytes) (len cc pointer_field field : ℕ)
      (at0 : read8 pkt 0 ≡ some pointer_field) (at2 : read16 pkt (2 + pointer_field) ≡ some field)
      (inside : 1 + pointer_field < len) (reads : len ≤ length pkt) where
    -- The bytes of the section in the first packet, and its length.
    abbrev pub first_part : Bytes
    first_part = drop (1 + pointer_field) pkt

    abbrev pub first_len : ℕ
    first_len = len - (1 + pointer_field)

    abbrev pub section_size : ℕ
    section_size = bit_and field 0x0FFF + 3

    abbrev started : SectionParser
    started = record p { cc = cc; total_len = pos first_len; limit_len = section_size }

    total_started : sub_ℕ len (1 + pointer_field) ≡ pos first_len
    total_started = ground arith

    psi_start_lem : section_preproc malloc p pkt len 1 cc false ≡ (
        if leb section_size first_len
        then some (record { ret = u16 section_size; buffering = some first_part; parser = started })
        else start_buffering malloc started first_part)
    unfolding section_preproc psi_start
    psi_start_lem = rw (at0, at2, psi_start, total_started) (simp add-zero)

    section_size_bound : section_size ≤ 4098
    section_size_bound = omega (arith, bit_and_mask 12 field)

    -- A section that lies whole in its first packet is delivered at once, from the byte behind the
    -- pointer field's skip on, with its `section_length` and the three bytes before that.
    pub section_in_packet :
        section_size ≤ first_len
        → (r : Preproc) × (section_preproc malloc p pkt len 1 cc false ≡ some r)
          × (delivered r ≡ take section_size first_part ∷ [])
    section_in_packet whole =
        let r : Preproc = record {
          ret = u16 section_size;
          buffering = some first_part;
          parser = started;
        } in
        (
          r,
          psi_start_lem ∙ rw (le→leb section_size first_len whole),
          delivered_complete malloc section_size first_part started (omega arith)
              (omega (arith, section_size_bound)),
        )

    length-first_part : first_len ≤ length first_part
    length-first_part = omega (arith, length-drop (1 + pointer_field) pkt)

    -- If the parser has its buffer of 65535 bytes or gets one, and the payloads are readable and, in
    -- the last packet, shorter than 256 bytes: a section that goes on in later packets is delivered by the packet that completes it, and by
    -- no other: the bytes of all payloads in order, cut at the length of the section. Nothing is
    -- read or written out of range, and the parser is ready for the next section.
    pub section_across_packets :
        (b : Bytes) (mid : List (Bytes × ℕ)) (last : Bytes) (n : ℕ)
        → HasBlock p b
        → AllReadable mid
        → n ≤ length last
        → n < 256
        → first_len + length (payloads mid) < section_size
        → section_size ≤ first_len + length (payloads mid) + n
        → (p' p'' : SectionParser) × (section_preproc malloc p pkt len 1 cc false
            ≡ some (waits minus_one p'))
          × (feed malloc p' (mid ++ ((last, n) ∷ []))
              ≡ some (
                take section_size (take first_len first_part ++ (payloads mid ++ take n last)) ∷ [],
                p'',
              ))
          × (p''.total_len ≡ pos 0)
    section_across_packets b mid last n ready readable reads_last byte short long =
        let fits : first_len ≤ max_section_buf = omega (arith, section_size_bound) in
        let p' = begun started first_part b first_len ready length-first_part fits refl in
        let filling =
          begun-IsFilling started first_part b first_len ready length-first_part fits refl in
        let got = take first_len first_part in
        let counted : length got ≡ first_len =
          length-first started first_part b first_len ready length-first_part fits refl in
        let limit : p'.limit_len ≡ section_size = (sec_getbuf_lem started b ready).2 in
        let (p'', fed, zeroed) =
          feed-section malloc mid last n p' got filling (omega arith) readable reads_last
            (omega arith) (omega arith) (omega (arith, section_size_bound)) in
        (
          p',
          p'',
          psi_start_lem
              ∙ rw (lt→leb_false section_size first_len (omega arith)) (
                  start_buffering_lem started first_part b first_len ready length-first_part fits
                    refl),
          fed ∙ ap (λ k. some (take k (got ++ (payloads mid ++ take n last)) ∷ [], p'')) limit,
          zeroed,
        )
