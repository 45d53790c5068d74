-- ===== src/Pes/Entries.antt =====
-- src/pes.c: the entries of the streams, and what registering a stream does to them.
use tsanalyze.Base.{
  ℕ, ◌+◌, ◌/◌, ◌<◌, ◌==◌, if◌then◌else◌, Bool, true, false, some, ◌>>=◌, List, [], ◌∷◌, ◌++◌,
  length, length-append, get_elem?, u16, update, ◌≡◌, ◌≢◌, refl, sym, bind-some, zero, suc, ap, ◌∙◌,
  arith, inl, inr, ◌⊎◌, get_elem?-append_last, lt-length_of_some, ==_refl, Bool-cases, ltb,
}
use tsanalyze.Bitmap.{Bitmap, bitmap64_get, bitmap64_set}
use tsanalyze.Bitmap.Laws.{get-set, bitmap64_get_lem, bitmap64_get-set}
use tsanalyze.Filter.{Filters, filter_alloc, filter_set, num_filter_max}
use tsanalyze.Table.Register.{
  table_param, init_table_filter, init_table_filter_lem, entered_head, table_slot,
}
use tsanalyze.Table.Ops.{Callback, pes_proc}
use tsanalyze.Pes.{
  Pes, PesList, null, block, MpegtsPes, append_entry, entry, fresh_entry, register_pes_ops,
  check_rounds, check_es_pid,
}
use tsanalyze.Pes.Packet.{find_entry}
use tsanalyze.Pes.Header.{NonPs}

abbrev pid_limit : ℕ
pid_limit = 8192

module _ {Priv : Type 0} where
  -- The list before the first entry is the null pointer.
  abbrev pub list_of : List (Pes Priv) → PesList Priv
  list_of [] = null
  list_of (e ∷ es) = block (e ∷ es)

  append_entry-list_of :
      (es : List (Pes Priv)) (e : Pes Priv)
      → append_entry (list_of es) e ≡ some (list_of (es ++ (e ∷ [])))
  append_entry-list_of [] e = refl
  append_entry-list_of (x ∷ es) e = refl

  entry-list_of : (es : List (Pes Priv)) (i : ℕ) → entry (list_of es) i ≡ get_elem? es i
  entry-list_of [] i = refl
  entry-list_of (x ∷ es) i = refl

  get_elem?-append :
      (es : List (Pes Priv)) (e pt : Pes Priv) (i : ℕ)
      → get_elem? es i ≡ some pt
      → get_elem? (es ++ (e ∷ [])) i ≡ some pt
  get_elem?-append [] e pt i h = absurd (ground arith)
  get_elem?-append (x ∷ es) e pt zero h = h
  get_elem?-append (x ∷ es) e pt (suc i) h = get_elem?-append es e pt i h

  -- Every PID that is marked has an entry of its own.
  pub record IsPes (es : List (Pes Priv)) (pes : MpegtsPes Priv) : Type 0 where
    pub words : length pes.pid_bitmap ≡ 128
    pub held : pes.list ≡ list_of es
    pub counted : pes.pid_num ≡ length es
    pub placed :
        (q : ℕ)
        → q < pid_limit
        → bitmap64_get pes.pid_bitmap q ≡ some true
        → (pt : Pes Priv) × (get_elem? es (pes.pid_index q) ≡ some pt) × (pt.pid ≡ q)

  -- On a marked PID the packets are put into the PID's own entry.
  pub find_entry-IsPes :
      (es : List (Pes Priv)) (pes : MpegtsPes Priv) (q : ℕ)
      → IsPes es pes
      → q < pid_limit
      → bitmap64_get pes.pid_bitmap q ≡ some true
      → (pt : Pes Priv) × (find_entry q pes ≡ some (some pt)) × (pt.pid ≡ q)
  unfolding find_entry
  find_entry-IsPes es pes q ok small marked =
      let (pt, at_index, same) = ok.placed q small marked in
      let inside = lt-length_of_some es (pes.pid_index q) pt at_index in
      let below : ltb pes.pid_num (pes.pid_index q) ≡ false = ground (arith, ok.counted) in
      (pt, rw (marked, below, ok.held, entry-list_of es, at_index) refl, same)

  -- A PID marked once `pid` is has its entry, or is `pid` and has the new one.
  placed_after :
      (es : List (Pes Priv)) (e : Pes Priv) (pes : MpegtsPes Priv) (bitmap' : Bitmap) (pid q : ℕ)
      → IsPes es pes
      → pid / 64 < length pes.pid_bitmap
      → e.pid ≡ pid
      → bitmap64_set pes.pid_bitmap pid ≡ some bitmap'
      → q < pid_limit
      → bitmap64_get bitmap' q ≡ some true
      → (pt : Pes Priv) × (get_elem? (es ++ (e ∷ [])) (update pes.pid_index pid pes.pid_num q)
          ≡ some pt)
        × (pt.pid ≡ q)
  placed_after es e pes bitmap' pid q ok words own marked small is_marked =
      elim (Bool-cases (q == pid)) [
        | inl same ↦
            let at_end : get_elem? (es ++ (e ∷ [])) (length es) ≡ some e =
              get_elem?-append_last es e in
            let q_pid : q ≡ pid = ground arith in (e, rw (same, ok.counted) at_end, own ∙ sym q_pid)
        | inr other ↦
            let differ : (pid == q) ≡ false = ground arith in
            let inside : q / 64 < length pes.pid_bitmap = omega (arith, ok.words) in
            let read : bitmap64_get bitmap' q ≡ bitmap64_get pes.pid_bitmap q =
              bitmap64_get-set pes.pid_bitmap bitmap' pid q words inside marked ∙ rw differ refl in
            let (pt, at_index, same) = ok.placed q small (sym read ∙ is_marked) in
            (pt, rw other (get_elem?-append es e pt (pes.pid_index q) at_index), same)
      ]

  check_rounds_lem :
      (left pid : ℕ) (pes : MpegtsPes Priv) (b : Bool)
      → bitmap64_get pes.pid_bitmap pid ≡ some b
      → (b ≡ false) ⊎ (0 < left)
      → check_rounds left pid pes ≡ some b
  unfolding check_rounds
  check_rounds_lem zero pid pes true read (inl off) = absurd (cc off)
  check_rounds_lem zero pid pes true read (inr more) = absurd (omega arith)
  check_rounds_lem zero pid pes false read some_round = refl
  check_rounds_lem (suc left) pid pes true read some_round = rw read refl
  check_rounds_lem (suc left) pid pes false read some_round =
      rw read (check_rounds_lem left pid pes false read (inl refl))

  -- On a PID within the bitmap the 8159 rounds of `check_es_pid` find what one look at the PID's
  -- mark finds, since no round depends on its number; without the option it is false.
  pub check_es_pid_lem :
      (detail : Bool) (pid : ℕ) (pes : MpegtsPes Priv)
      → pid / 64 < length pes.pid_bitmap
      → check_es_pid detail pid pes
        ≡ (if detail then bitmap64_get pes.pid_bitmap pid else some false)
  unfolding check_es_pid
  check_es_pid_lem false pid pes inside = refl
  check_es_pid_lem true pid pes inside =
      let read = bitmap64_get_lem pes.pid_bitmap pid inside in
      check_rounds_lem 0x1FDF pid pes _ read (inr (omega arith)) ∙ sym read

  module _ (zero_header : NonPs) where
    -- Let every marked PID have its own entry. A PID that is not marked, registered with memory
    -- for the list and the filter and room for both, gets an entry of its type behind the others
    -- and a filter that takes every packet; every marked PID still has its own entry.
    pub register_pes_ops-IsPes :
        (es : List (Pes Priv)) (pes : MpegtsPes Priv) (fs : Filters Callback) (pid stream_type : ℕ)
        → IsPes es pes
        → pid < pid_limit
        → length es < 65535
        → length (fs pid).slots < num_filter_max
        → bitmap64_get pes.pid_bitmap pid ≡ some false
        → (pes' : MpegtsPes Priv) × (fs' : Filters Callback) × (register_pes_ops zero_header true
              true pid stream_type pes fs
            ≡ some (pes', fs'))
          × IsPes (es ++ (fresh_entry zero_header pid stream_type ∷ [])) pes'
          × (bitmap64_get pes'.pid_bitmap pid ≡ some true)
          × (fs' pid ≡ entered_head (fs pid) (table_slot pid 0 0 pes_proc))
          × ((q : ℕ) → q ≢ pid → fs' q ≡ fs q)
    unfolding register_pes_ops init_table_filter
    register_pes_ops-IsPes es pes fs pid stream_type ok small few room unmarked =
        let (fs', ran, entered, others) = init_table_filter_lem pid 0 0 pes_proc fs room in
        let (found, set_to, same) =
          bind-some
            (filter_set (filter_alloc true pid fs).0 (some (table_param 0 0)) pes_proc
              (filter_alloc true pid fs).1)
            _ ran in
        let e = fresh_entry {Priv = Priv} zero_header pid stream_type in
        let words : pid / 64 < length pes.pid_bitmap = omega (arith, ok.words) in
        let (bitmap', marked, same_words, reads) = get-set pes.pid_bitmap pid pid words words in
        let appended : append_entry pes.list e ≡ some (list_of (es ++ (e ∷ []))) =
          rw ok.held (append_entry-list_of es e) in
        let pes' : MpegtsPes Priv = record {
          pid_bitmap = bitmap';
          list = list_of (es ++ (e ∷ []));
          pid_index = update pes.pid_index pid pes.pid_num;
          pid_num = u16 (pes.pid_num + 1);
        } in
        let one_more : length (es ++ (e ∷ [])) ≡ length es + 1 =
          omega (arith, length-append es (e ∷ [])) in
        (
          pes',
          fs',
          rw (unmarked, marked, appended, set_to) (ap (λ o. o >>= λ f. some (pes', f)) same),
          record {
            words = same_words ∙ ok.words;
            held = refl;
            counted = omega (arith, ok.counted, one_more);
            placed = λ q q_small is_marked.
                placed_after es e pes bitmap' pid q ok words refl marked q_small is_marked;
          },
          rw (reads, ==_refl pid) refl,
          entered,
          others,
        )

    -- On a PID that is not marked, without memory for the list, registering marks the PID and
    -- nothing else; registering it again, with memory, then changes nothing; and its packets go to
    -- the first entry, if there is one, since the index of a PID that was never entered is 0.
    pub register_pes_ops-no_memory :
        (pes : MpegtsPes Priv) (fs : Filters Callback) (pid stream_type : ℕ) (e : Pes Priv)
        → pid / 64 < length pes.pid_bitmap
        → bitmap64_get pes.pid_bitmap pid ≡ some false
        → pes.pid_index pid ≡ 0
        → entry pes.list 0 ≡ some e
        → (pes' : MpegtsPes Priv) × (register_pes_ops zero_header false true pid stream_type pes fs
            ≡ some (pes', fs))
          × (register_pes_ops zero_header true true pid stream_type pes' fs ≡ some (pes', fs))
          × (pes'.list ≡ pes.list)
          × (find_entry pid pes' ≡ some (some e))
    unfolding register_pes_ops find_entry
    register_pes_ops-no_memory pes fs pid stream_type e words unmarked first has_first =
        let (bitmap', marked, _, reads) = get-set pes.pid_bitmap pid pid words words in
        let is_marked : bitmap64_get bitmap' pid ≡ some true = reads ∙ rw (==_refl pid) refl in
        let not_past : ltb pes.pid_num 0 ≡ false = ground arith in
        (
          record pes { pid_bitmap = bitmap' },
          rw (unmarked, marked) refl,
          rw is_marked refl,
          refl,
          rw (is_marked, first, not_past, has_first) refl,
        )
