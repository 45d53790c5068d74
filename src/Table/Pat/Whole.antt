-- ===== src/Table/Pat/Whole.antt =====
-- src/table.c: `parse_pat` on a whole program association table of one section.
use tsanalyze.Base.{
  ℕ, ◌+◌, ◌-◌, ◌*◌, ◌^◌, ◌≤◌, true, Option, none, some, List, [], ◌∷◌, ◌++◌, length,
  length-replicate, Bytes, u16, Heap, load, ◌≡◌, refl, ap, ◌∙◌, arith,
}
use tsanalyze.Bitmap.{bitmap64_get}
use tsanalyze.Bitmap.Laws.{get-replicate}
use tsanalyze.Table.Ops.{Psi}
use tsanalyze.Table.Version.{newer, check_section_header_version}
use tsanalyze.Table.Header.{TableHeader, done, parse_section_header}
use tsanalyze.Table.Header.Section.{section_bytes, IsFresh, parse_section_header-section_bytes}
use tsanalyze.Table.Pat.{
  Pat, Pats, parsed, new_pat, add_pat, current_version, programs_from, parse_pat_sections,
  parse_pat,
}
use tsanalyze.Table.Pat.View.{pid_of, IsPat, Marks}
use tsanalyze.Table.Pat.Programs.{
  Entry, IsEntries, Registered, encode, assign, programs_from-encode,
}

length-encode : (es : List Entry) → length (encode es) ≡ 4 * length es
length-encode [] = refl
length-encode (e ∷ es) = omega (arith, length-encode es)

new_pat-IsPat : (h : TableHeader) → IsPat (record new_pat { pat_header = h })
new_pat-IsPat h = record {
  words = length-replicate {A = ℕ} 1024 0;
  marked = λ n small. get-replicate 1024 n (omega arith);
}

new_pat-IsFresh : IsFresh new_pat.pat_header
unfolding bitmap64_get
new_pat-IsFresh = record { no_data = refl; words = omega arith; unset = refl }

parse_pat_sections_lem :
    (malloc : ℕ → Option Bytes) (pbuf data' : Bytes) (buf_size len : ℕ) (p p' : Pat) (pats : Pats)
    (psi psi' : Psi) (h' : TableHeader) (mem mem' : Heap)
    → parse_section_header malloc (some pbuf) buf_size p.pat_header mem ≡ some (done, h', mem')
    → load h'.private_data_byte mem' ≡ some data'
    → u16 (h'.section_length + 2 ^ 16 - (5 + 4)) ≡ len
    → programs_from true true data' len (record p { pat_header = h' }) psi ≡ some (parsed, p', psi')
    → parse_pat_sections true true malloc (some pbuf) buf_size p pats psi mem
      ≡ some (parsed, record pats { pat = some p' }, psi', mem')
unfolding parse_pat_sections
parse_pat_sections_lem malloc pbuf data' buf_size len p p' pats psi psi' h' mem mem' ran kept left
      read =
    rw (ran, kept, left, read) refl

-- Let the section be newer than the table that is current, if there is one, and hold at most 253
-- programs, each with a number below 0xFFFF. With memory, `parse_pat` makes a new current table of
-- it, behind the others, whose map from program numbers to PIDs is that of the section: the last
-- PID that it gives the number, or none. No PID that carries program maps
-- loses its mark, and the PID that a number is first given, but the NIT's, is marked.
pub parse_pat-encode :
    (malloc : ℕ → Option Bytes) (tid ext control : ℕ) (es : List Entry) (crc b : Bytes)
    (pats : Pats) (psi : Psi) (mem : Heap)
    → IsEntries es
    → length es ≤ 253
    → length crc ≡ 4
    → check_section_header_version
        (some (section_bytes tid ext control (encode es) crc))
        (current_version pats.pat)
      ≡ some newer
    → length psi.pmt_bitmap ≡ 128
    → malloc (9 + length (encode es)) ≡ some b
    → length b ≡ 9 + length (encode es)
    → (p' : Pat) × (psi' : Psi) × (mem' : Heap) × (parse_pat true true malloc true
          (some (section_bytes tid ext control (encode es) crc))
          (9 + length (encode es) + 3)
          pats
          psi
          mem
        ≡ some (parsed, record (add_pat new_pat pats) { pat = some p' }, psi', mem'))
      × IsPat p'
      × ((m : ℕ) → pid_of p'.programs m ≡ assign es (λ _. none) m)
      × Marks psi psi'
      × Registered es (λ _. none) psi'
unfolding parse_pat
parse_pat-encode malloc tid ext control es crc b pats psi mem entries few four is_newer words given
      b_sized =
    let pbuf = section_bytes tid ext control (encode es) crc in
    let body = encode es in
    let (header', mem', five, ran, kept, _, counted, _) =
      parse_section_header-section_bytes malloc new_pat.pat_header tid ext control body crc b mem
        new_pat-IsFresh (omega (arith, length-encode es)) four given b_sized in
    let p₀ : Pat = record new_pat { pat_header = header' } in
    let (p', psi', read, ok, view, marks, registered) =
      programs_from-encode es (crc ++ five) p₀ psi entries (omega arith) (new_pat-IsPat header')
        words in
    (
      p',
      psi',
      mem',
      rw is_newer (
          parse_pat_sections_lem malloc pbuf (body ++ (crc ++ five)) (9 + length body + 3)
            (4 * length es) new_pat p' (add_pat new_pat pats) psi psi' header' mem mem' ran kept
            (ap (λ k. u16 (k + 2 ^ 16 - (5 + 4))) counted ∙ omega (arith, length-encode es)) read),
      ok,
      view,
      marks,
      registered,
    )
