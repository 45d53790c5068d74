-- ===== src/Table/Pat/View.antt =====
-- src/table.c: the list of programs as a finite map, with the bitmap of the numbers in it.
use tsanalyze.Base.{
  ℕ, ◌/◌, ◌<◌, ◌==◌, if◌then◌else◌, Bool, true, false, Option, none, some, List, [], ◌∷◌, ◌++◌, map,
  length, leb, Bool-cases, ==_refl, ◌≡◌, ◌≢◌, ◌⊎◌, refl, sym, ap, ◌∙◌, arith, inl, inr,
}
use tsanalyze.Bitmap.{bitmap64_get}
use tsanalyze.Bitmap.Laws.{get-set, bitmap64_get-set}
use tsanalyze.Filter.{Filters, filter_alloc, filter_set, num_filter_max}
use tsanalyze.Table.Register.{init_table_filter, init_table_filter_lem}
use tsanalyze.Table.Ops.{Psi, pmt_proc, nit_pid, pmt_tid, register_pmt_ops, check_pmt_pid}
use tsanalyze.Table.Pat.{ProgramNode, Pat, set_pid}

-- The PID of a program number: the abstract view of the list.
abbrev pub pid_of : List ProgramNode → ℕ → Option ℕ
pid_of [] n = none
pid_of (pn ∷ rest) n = if pn.program_number == n then some pn.program_map_pid else pid_of rest n

abbrev pub is_some : Option ℕ → Bool
is_some none = false
is_some (some _) = true

-- The map with one number set.
abbrev pub assign_one : ℕ → ℕ → (ℕ → Option ℕ) → ℕ → Option ℕ
assign_one n pid view m = if n == m then some pid else view m

-- The bitmap marks the numbers in the list.
pub record IsPat (p : Pat) : Type 0 where
  pub words : length p.program_bitmap ≡ 1024
  pub marked :
      (n : ℕ) → n < 65536 → bitmap64_get p.program_bitmap n ≡ some (is_some (pid_of p.programs n))

pid_of-map_ne :
    (ps : List ProgramNode) (n pid m : ℕ) → n ≢ m → pid_of (map (set_pid n pid) ps) m ≡ pid_of ps m
pid_of-map_ne [] n pid m other = refl
pid_of-map_ne (pn ∷ rest) n pid m other = ground (arith, pid_of-map_ne rest n pid m other)

pid_of-map_self :
    (ps : List ProgramNode) (n pid : ℕ)
    → is_some (pid_of ps n) ≡ true
    → pid_of (map (set_pid n pid) ps) n ≡ some pid
pid_of-map_self [] n pid listed = absurd (ground arith)
pid_of-map_self (pn ∷ rest) n pid listed = ground (arith, pid_of-map_self rest n pid)

pid_of-append_ne :
    (ps : List ProgramNode) (pn : ProgramNode) (m : ℕ)
    → pn.program_number ≢ m
    → pid_of (ps ++ (pn ∷ [])) m ≡ pid_of ps m
pid_of-append_ne [] pn m other = ground arith
pid_of-append_ne (x ∷ rest) pn m other = ground (arith, pid_of-append_ne rest pn m other)

pid_of-append_self :
    (ps : List ProgramNode) (pn : ProgramNode)
    → is_some (pid_of ps pn.program_number) ≡ false
    → pid_of (ps ++ (pn ∷ [])) pn.program_number ≡ some pn.program_map_pid
pid_of-append_self [] pn unlisted = ground arith
pid_of-append_self (x ∷ rest) pn unlisted = ground (arith, pid_of-append_self rest pn)

pub pid_of-map :
    (ps : List ProgramNode) (n pid m : ℕ)
    → is_some (pid_of ps n) ≡ true
    → pid_of (map (set_pid n pid) ps) m ≡ assign_one n pid (pid_of ps) m
pid_of-map ps n pid m listed = elim (Bool-cases (n == m)) [
  | inl same ↦
      let e : n ≡ m = ground arith in
      ap (λ k. pid_of (map (set_pid n pid) ps) k) (sym e)
      ∙ pid_of-map_self ps n pid listed
      ∙ rw same refl
  | inr other ↦ pid_of-map_ne ps n pid m (ground arith) ∙ rw other refl
]

pub pid_of-append :
    (ps : List ProgramNode) (pn : ProgramNode) (m : ℕ)
    → is_some (pid_of ps pn.program_number) ≡ false
    → pid_of (ps ++ (pn ∷ [])) m ≡ assign_one pn.program_number pn.program_map_pid (pid_of ps) m
pid_of-append ps pn m unlisted = elim (Bool-cases (pn.program_number == m)) [
  | inl same ↦
      let e : pn.program_number ≡ m = ground arith in
      ap (λ k. pid_of (ps ++ (pn ∷ [])) k) (sym e)
      ∙ pid_of-append_self ps pn unlisted
      ∙ rw same refl
  | inr other ↦ pid_of-append_ne ps pn m (ground arith) ∙ rw other refl
]

-- Without room for a filter nothing is entered, and nothing faults.
init_table_filter-succeeds :
    {Cb : Type 0} (pid tid mask : ℕ) (func : Cb) (fs : Filters Cb)
    → (fs' : Filters Cb) × (init_table_filter true pid tid mask func fs ≡ some fs')
unfolding init_table_filter filter_alloc filter_set
init_table_filter-succeeds pid tid mask func fs =
    elim (Bool-cases (leb num_filter_max (length (fs pid).slots))) [
      | inl full ↦ (fs, rw full refl)
      | inr room ↦
          let (fs', ran, _, _) = init_table_filter_lem pid tid mask func fs (ground arith) in
          (fs', ran)
    ]

-- What registering program maps keeps of the marks.
pub record Marks (psi psi' : Psi) : Type 0 where
  pub words : length psi'.pmt_bitmap ≡ length psi.pmt_bitmap
  pub kept :
      (q : ℕ)
      → q / 64 < length psi.pmt_bitmap
      → check_pmt_pid q psi ≡ some true
      → check_pmt_pid q psi' ≡ some true

pub Marks-refl : (psi : Psi) → Marks psi psi
Marks-refl psi = record { words = refl; kept = λ q inside m. m }

pub Marks-trans : (a b c : Psi) → Marks a b → Marks b c → Marks a c
Marks-trans a b c m n = record {
  words = n.words ∙ m.words;
  kept = λ q inside marked. n.kept q (omega (arith, m.words)) (m.kept q inside marked);
}

pub register_pmt_ops-Marks :
    (pid : ℕ) (psi : Psi)
    → pid / 64 < length psi.pmt_bitmap
    → (psi' : Psi) × (register_pmt_ops true pid psi ≡ some psi')
      × Marks psi psi'
      × ((pid ≡ nit_pid) ⊎ (check_pmt_pid pid psi' ≡ some true))
unfolding register_pmt_ops check_pmt_pid
register_pmt_ops-Marks pid psi inside = elim (Bool-cases (pid == nit_pid)) [
  | inl nit ↦ (psi, rw nit refl, Marks-refl psi, inl (ground arith))
  | inr ordinary ↦
      let (bitmap', marked, same, read) = get-set psi.pmt_bitmap pid pid inside inside in
      let (filters', entered) = init_table_filter-succeeds pid pmt_tid 0xFF pmt_proc psi.filters in
      (
        record psi { pmt_bitmap = bitmap'; filters = filters' },
        rw (ordinary, marked, entered) refl,
        record {
          words = same;
          kept = λ q q_inside was_marked.
              bitmap64_get-set psi.pmt_bitmap bitmap' pid q inside q_inside marked
              ∙ rw was_marked (if_same (pid == q));
        },
        inr (read ∙ rw (==_refl pid) refl),
      )
]
  where
    if_same : (b : Bool) → (if b then some true else some true) ≡ some true
    if_same true = refl
    if_same false = refl
