-- ===== src/Table/Register.antt =====
-- src/table.c: `init_table_filter` and `uninit_table_filter`, by which a table is entered in the
-- filter registry and taken out.
use tsanalyze.Base.{ℕ, if◌then◌else◌, ◌<◌, leb}
use tsanalyze.Base.{Bool, true, Option, none, some, [], ◌∷◌, ◌++◌, ◌>>=◌, update, memcpy}
use tsanalyze.Base.{length, replicate, ◌≡◌, arith, ◌≢◌}
use tsanalyze.Base.{get_elem?-append_last, set-append_last}
use tsanalyze.Base.{==_refl, ==_ne}
use tsanalyze.Filter.{Filters, FilterSlot, FilterHead, FilterParam, ok, Handle}
use tsanalyze.Filter.{filter_alloc, filter_set, filter_free, filter_lookup, filter_rebuild}
use tsanalyze.Filter.{num_filter_max, grown_cap, fresh_slot, rebuild_at, put_slot}

-- Only the first entry of each array is set, and only it is copied or compared.
abbrev pub table_param : ℕ → ℕ → FilterParam
table_param tid mask = record { depth = 1; coff = tid ∷ []; mask = mask ∷ []; negate = 0 ∷ [] }

module _ {Cb : Type 0} where
  -- `memory` says whether `realloc` gives the memory.
  unfoldable pub init_table_filter : Bool → ℕ → ℕ → ℕ → Cb → Filters Cb → Option (Filters Cb)
  init_table_filter memory pid tableid mask func fs =
      let (f, fs') = filter_alloc memory pid fs in
      do (status, fs'') ← filter_set f (some (table_param tableid mask)) func fs'; some fs''

  unfoldable pub uninit_table_filter : ℕ → ℕ → ℕ → Filters Cb → Option (Filters Cb)
  uninit_table_filter pid tableid mask fs =
      elim (filter_lookup pid (some (table_param tableid mask)) fs) [
        | none ↦ some fs
        | some f ↦ (do (status, fs') ← filter_free (some f) fs; some fs')
      ]

  -- The slot that `init_table_filter` fills.
  abbrev pub table_slot : ℕ → ℕ → ℕ → Cb → FilterSlot Cb
  table_slot pid tid mask func = record {
    pid = pid;
    para = record {
      depth = 1;
      coff = tid ∷ replicate 7 0;
      mask = mask ∷ replicate 7 0;
      negate = replicate 8 0;
    };
    callback = some func;
  }

  abbrev pub grown : FilterHead Cb → ℕ
  grown hd = if leb hd.cap (length hd.slots) then grown_cap hd.cap else hd.cap

  -- The head of a PID once a table is entered.
  abbrev pub entered_head : FilterHead Cb → FilterSlot Cb → FilterHead Cb
  entered_head hd s = filter_rebuild (record hd { cap = grown hd; slots = hd.slots ++ (s ∷ []) })

  -- The registry after `filter_alloc`, and after `filter_set`.
  abbrev allocated : ℕ → Filters Cb → Filters Cb
  allocated pid fs =
      update fs pid
        (record (fs pid) { cap = grown (fs pid); slots = (fs pid).slots ++ (fresh_slot pid ∷ []) })

  abbrev newest : ℕ → Filters Cb → Handle
  newest pid fs = record { pid = pid; index = length (fs pid).slots }

  abbrev initialised : ℕ → ℕ → ℕ → Cb → Filters Cb → Filters Cb
  initialised pid tid mask func fs =
      rebuild_at pid (put_slot (newest pid fs) (table_slot pid tid mask func) (allocated pid fs))

  filter_alloc_room :
      (pid : ℕ) (fs : Filters Cb)
      → length (fs pid).slots < num_filter_max
      → filter_alloc true pid fs ≡ (some (newest pid fs), allocated pid fs)
  unfolding filter_alloc
  filter_alloc_room pid fs room = ground arith

  slots-allocated :
      (pid : ℕ) (fs : Filters Cb)
      → (allocated pid fs pid).slots ≡ (fs pid).slots ++ (fresh_slot pid ∷ [])
  slots-allocated pid fs = rw (==_refl pid)

  filter_set-newest :
      (pid tid mask : ℕ) (func : Cb) (fs : Filters Cb)
      → filter_set (some (newest pid fs)) (some (table_param tid mask)) func (allocated pid fs)
        ≡ some (ok, initialised pid tid mask func fs)
  unfolding filter_set memcpy
  filter_set-newest pid tid mask func fs = rw (slots-allocated pid fs, get_elem?-append_last)

  initialised_self :
      (pid tid mask : ℕ) (func : Cb) (fs : Filters Cb)
      → initialised pid tid mask func fs pid ≡ entered_head (fs pid) (table_slot pid tid mask func)
  initialised_self pid tid mask func fs = simp (==_refl, set-append_last)

  initialised_ne :
      (pid tid mask : ℕ) (func : Cb) (fs : Filters Cb) (q : ℕ)
      → q ≢ pid
      → initialised pid tid mask func fs q ≡ fs q
  initialised_ne pid tid mask func fs q other = simp (==_ne q pid other)

  -- With room for one more filter, `init_table_filter` appends its slot to the PID's and rebuilds
  -- the dispatch; no other PID changes.
  pub init_table_filter_lem :
      (pid tid mask : ℕ) (func : Cb) (fs : Filters Cb)
      → length (fs pid).slots < num_filter_max
      → (fs' : Filters Cb) × (init_table_filter true pid tid mask func fs ≡ some fs')
        × (fs' pid ≡ entered_head (fs pid) (table_slot pid tid mask func))
        × ((q : ℕ) → q ≢ pid → fs' q ≡ fs q)
  unfolding init_table_filter
  init_table_filter_lem pid tid mask func fs room = (
    initialised pid tid mask func fs,
    rw (filter_alloc_room pid fs room, filter_set-newest pid tid mask func fs),
    initialised_self pid tid mask func fs,
    initialised_ne pid tid mask func fs,
  )
