-- ===== src/Dvb/Event/Short.antt =====
-- src/dvb_si.c: `parse_eit` on a short table of one section.
use tsanalyze.Base.{
  ℕ, ◌+◌, ◌<◌, min, true, Option, none, some, bind-none, List, ◌++◌, length, length-append,
  length-drop, drop, Bytes, read8, read16, sub16, Heap, load, ◌≡◌, refl, arith,
}
use tsanalyze.Table.Header.{TableHeader, done, parse_section_header}
use tsanalyze.Table.Header.Section.{section_bytes, IsFresh, parse_section_header-section_bytes}
use tsanalyze.Dvb.Event.{EventNode, Eit, read_events, parse_eit}
use tsanalyze.Dvb.Event.Rounds.{events_from-none}

module _ {D : Type 0} (parse : ℕ → Bytes → ℕ → Option D) where
  read_events-none :
      (buf_size : ℕ) (h : TableHeader) (pdata : Bytes) (before : List (EventNode D))
      → 15 < h.section_length
      → h.section_length < 4096
      → length pdata < 18 + min 45 buf_size
      → read_events parse buf_size true h pdata before ≡ none
  unfolding read_events
  read_events-none buf_size h pdata before some_bytes small short =
      let len = sub16 (sub16 h.section_length (5 + 4)) 6 in
      let fault =
        events_from-none parse buf_size (length pdata) len (drop 6 pdata) (omega arith)
          (omega (arith, length-drop 6 pdata)) in
      bind-none (read16 pdata 0) _ (λ _.
        bind-none (read16 pdata 2) _ (λ _.
          bind-none (read8 pdata 4) _ (λ _. bind-none (read8 pdata 5) _ (λ _. rw fault refl))))

  parse_eit_lem :
      (malloc : ℕ → Option Bytes) (pbuf data' : Bytes) (buf_size : ℕ) (p : Eit D) (h' : TableHeader)
      (mem mem' : Heap)
      → parse_section_header malloc (some pbuf) buf_size p.eit_header mem ≡ some (done, h', mem')
      → load h'.private_data_byte mem' ≡ some data'
      → read_events parse buf_size true h' data' p.events ≡ none
      → parse_eit parse malloc true (some pbuf) buf_size p mem ≡ none
  unfolding parse_eit
  parse_eit_lem malloc pbuf data' buf_size p h' mem mem' ran kept read = rw (ran, kept, read) refl

  -- Let no section of the table have come before. A section by the standard with 7 to 53 bytes
  -- behind its header, which is room for an event, makes `parse_eit` read behind the block of
  -- the table's data, whatever the bytes are: the first round prints bytes that are not there.
  pub parse_eit-none :
      (malloc : ℕ → Option Bytes) (p : Eit D) (tid ext control : ℕ) (body crc b : Bytes)
      (mem : Heap)
      → IsFresh p.eit_header
      → 6 < length body
      → length body < 54
      → length crc ≡ 4
      → malloc (9 + length body) ≡ some b
      → length b ≡ 9 + length body
      → parse_eit parse malloc true
          (some (section_bytes tid ext control body crc))
          (9 + length body + 3)
          p
          mem
        ≡ none
  parse_eit-none malloc p tid ext control body crc b mem fresh some_bytes short four given sized =
      let (h', mem', five, ran, kept, five_sized, counted, _) =
        parse_section_header-section_bytes malloc p.eit_header tid ext control body crc b mem fresh
          (omega arith) four given sized in
      parse_eit_lem malloc (section_bytes tid ext control body crc) (body ++ (crc ++ five))
        (9 + length body + 3) p h' mem mem' ran kept
        (read_events-none (9 + length body + 3) h' (body ++ (crc ++ five)) p.events
          (omega (arith, counted)) (omega (arith, counted))
          (omega
            (arith, length-append body (crc ++ five), length-append crc five, four, five_sized)))
