-- ===== src/Table/Pat/Programs.antt =====
-- src/table.c: the loop of `parse_pat` over the programs, as assignments to a finite map.
use tsanalyze.Base.{
  ℕ, ◌+◌, ◌-◌, ◌*◌, ◌/◌, ◌%◌, ◌^◌, ◌<◌, ◌==◌, if◌then◌else◌, Bool, true, false, Option, some, List,
  [], ◌∷◌, ◌++◌, map, length, Bytes, bit_and, bit_or, ◌<<<◌, u16, Bool-cases, ◌≡◌, ◌⊎◌, subst,
  fun_ext, refl, sym, ap, ◌∙◌, arith, inl, inr,
}
use tsanalyze.Base.Bits.{bit_or_fields, bit_and_mask}
use tsanalyze.Bitmap.Laws.{get-set, bitmap64_get-set}
use tsanalyze.Table.Ops.{Psi, nit_pid, check_pmt_pid}
use tsanalyze.Table.Pat.{ProgramNode, Pat, parsed, set_pid, add_program, programs_from}
use tsanalyze.Table.Pat.View.{
  pid_of, is_some, assign_one, IsPat, pid_of-map, pid_of-append, Marks, Marks-refl, Marks-trans,
  register_pmt_ops-Marks,
}

-- A program of the table by the standard.
pub record Entry : Type 0 where
  pub number : ℕ
  pub reserved : ℕ
  pub pid : ℕ

-- 0xFFFF is the stuffing that ends the loop.
abbrev pub IsEntry : Entry → Type 0
IsEntry e = (e.number < 0xFFFF) × (e.reserved < 8) × (e.pid < 8192)

abbrev pub IsEntries : List Entry → Type 0
IsEntries [] = Unit {0}
IsEntries (e ∷ es) = IsEntry e × IsEntries es

abbrev pub encode : List Entry → Bytes
encode [] = []
encode (e ∷ es) =
    (e.number / 256)
    ∷ (e.number % 256)
    ∷ (e.reserved * 32 + e.pid / 256)
    ∷ (e.pid % 256)
    ∷ encode es

-- The map with the programs set in their order.
abbrev pub assign : List Entry → (ℕ → Option ℕ) → ℕ → Option ℕ
assign [] view = view
assign (e ∷ es) view = assign es (assign_one e.number e.pid view)

-- Every program that is new where it comes has its PID carry program maps, save the NIT's PID.
abbrev pub Registered : List Entry → (ℕ → Option ℕ) → Psi → Type 0
Registered [] view psi = Unit {0}
Registered (e ∷ es) view psi =
    ((is_some (view e.number) ≡ true) ⊎ ((e.pid ≡ nit_pid) ⊎ (check_pmt_pid e.pid psi ≡ some true)))
    × Registered es (assign_one e.number e.pid view) psi

assign_cong :
    (es : List Entry) (f g : ℕ → Option ℕ)
    → ((m : ℕ) → f m ≡ g m)
    → (m : ℕ) → assign es f m ≡ assign es g m
assign_cong [] f g same m = same m
assign_cong (e ∷ es) f g same m =
    assign_cong es (assign_one e.number e.pid f) (assign_one e.number e.pid g)
      (λ k. rw (same k) refl) m

is_some-assign_one :
    (f : ℕ → Option ℕ) (n pid m : ℕ)
    → is_some (f n) ≡ true
    → is_some (assign_one n pid f m) ≡ is_some (f m)
is_some-assign_one f n pid m listed = elim (Bool-cases (n == m)) [
  | inl same ↦
      let e : n ≡ m = ground arith in rw same (sym (ap (λ k. is_some (f k)) (sym e) ∙ listed))
  | inr other ↦ rw other refl
]

some_if : (b c : Bool) → (if b then some true else some c) ≡ some (if b then true else c)
some_if true c = refl
some_if false c = refl

is_some_if :
    (b : Bool) (pid : ℕ) (o : Option ℕ)
    → is_some (if b then some pid else o) ≡ (if b then true else is_some o)
is_some_if true pid o = refl
is_some_if false pid o = refl

add_program_lem :
    (n pid : ℕ) (p : Pat) (psi : Psi)
    → IsPat p
    → n < 65536
    → pid / 64 < length psi.pmt_bitmap
    → (p' : Pat) × (psi' : Psi) × (add_program true true n pid p psi ≡ some (parsed, p', psi'))
      × IsPat p'
      × ((m : ℕ) → pid_of p'.programs m ≡ assign_one n pid (pid_of p.programs) m)
      × Marks psi psi'
      × ((is_some (pid_of p.programs n) ≡ true)
          ⊎ ((pid ≡ nit_pid) ⊎ (check_pmt_pid pid psi' ≡ some true)))
unfolding add_program
add_program_lem n pid p psi ok small inside = elim (Bool-cases (is_some (pid_of p.programs n))) [
  | inl listed ↦
      let view : (m : ℕ)
          → pid_of (map (set_pid n pid) p.programs) m ≡ assign_one n pid (pid_of p.programs) m =
        λ m. pid_of-map p.programs n pid m listed in
      (
        record p { programs = map (set_pid n pid) p.programs },
        psi,
        rw (ok.marked n small, listed) refl,
        record {
          words = ok.words;
          marked = λ m m_small.
              ok.marked m m_small
              ∙ ap (λ b. some b)
                  (sym
                    (ap is_some (view m) ∙ is_some-assign_one (pid_of p.programs) n pid m listed));
        },
        view,
        Marks-refl psi,
        inl listed,
      )
  | inr unlisted ↦
      let pn : ProgramNode = record { program_number = n; program_map_pid = pid } in
      let (psi', registered, marks, carried) = register_pmt_ops-Marks pid psi inside in
      let words : n / 64 < length p.program_bitmap = omega (arith, ok.words) in
      let (bitmap', set_bit, same, _) = get-set p.program_bitmap n n words words in
      let view : (m : ℕ)
          → pid_of (p.programs ++ (pn ∷ [])) m ≡ assign_one n pid (pid_of p.programs) m =
        λ m. pid_of-append p.programs pn m unlisted in
      (
        record p { program_bitmap = bitmap'; programs = p.programs ++ (pn ∷ []) },
        psi',
        rw (ok.marked n small, unlisted, registered, set_bit) refl,
        record {
          words = same ∙ ok.words;
          marked = λ m m_small.
              bitmap64_get-set p.program_bitmap bitmap' n m words (omega (arith, ok.words)) set_bit
              ∙ ap (λ o. if n == m then some true else o) (ok.marked m m_small)
              ∙ some_if (n == m) (is_some (pid_of p.programs m))
              ∙ ap (λ b. some b)
                  (sym (ap is_some (view m) ∙ is_some_if (n == m) pid (pid_of p.programs m)));
        },
        view,
        marks,
        inr carried,
      )
]

pub programs_from-zero :
    (pdata : Bytes) (p : Pat) (psi : Psi)
    → programs_from true true pdata 0 p psi ≡ some (parsed, p, psi)
unfolding programs_from
programs_from-zero [] p psi = refl
programs_from-zero (a ∷ []) p psi = refl
programs_from-zero (a ∷ b ∷ []) p psi = refl
programs_from-zero (a ∷ b ∷ c ∷ []) p psi = refl
programs_from-zero (a ∷ b ∷ c ∷ d ∷ rest) p psi = refl

programs_from-step :
    (a b c d len n pid : ℕ) (rest : Bytes) (p p' : Pat) (psi psi' : Psi)
    → 0 < len
    → bit_or (a <<< 8) b ≡ n
    → bit_and (bit_or (c <<< 8) d) 0x1FFF ≡ pid
    → n < 0xFFFF
    → add_program true true n pid p psi ≡ some (parsed, p', psi')
    → programs_from true true (a ∷ b ∷ c ∷ d ∷ rest) len p psi
      ≡ programs_from true true rest (u16 (len + 2 ^ 16 - 4)) p' psi'
unfolding programs_from
programs_from-step a b c d len n pid rest p p' psi psi' left number pid_read program added =
    let more : (len == 0) ≡ false = ground arith in
    let goes_on : (n == 0xFFFF) ≡ false = ground arith in
    rw (more, number, pid_read, goes_on, added) refl

still_carried :
    (A : Type 0) (pid : ℕ) (psi psi' : Psi)
    → pid / 64 < length psi.pmt_bitmap
    → Marks psi psi'
    → A ⊎ ((pid ≡ nit_pid) ⊎ (check_pmt_pid pid psi ≡ some true))
    → A ⊎ ((pid ≡ nit_pid) ⊎ (check_pmt_pid pid psi' ≡ some true))
still_carried A pid psi psi' inside marks (inl a) = inl a
still_carried A pid psi psi' inside marks (inr (inl nit)) = inr (inl nit)
still_carried A pid psi psi' inside marks (inr (inr carried)) =
    inr (inr (marks.kept pid inside carried))

-- Let the bitmap mark the programs in the list. Over the bytes of programs laid out by the
-- standard, each with a number below 0xFFFF, with memory, the loop reads to their end and sets the
-- PIDs in the map from numbers to PIDs, in order; the bitmap still marks the programs in the list,
-- no PID that carries program maps loses its mark,
-- and the PID of each program that is new, but the NIT's, is marked.
pub programs_from-encode :
    (es : List Entry) (rest : Bytes) (p : Pat) (psi : Psi)
    → IsEntries es
    → 4 * length es < 65536
    → IsPat p
    → length psi.pmt_bitmap ≡ 128
    → (p' : Pat) × (psi' : Psi) × (programs_from true true (encode es ++ rest) (4 * length es) p psi
        ≡ some (parsed, p', psi'))
      × IsPat p'
      × ((m : ℕ) → pid_of p'.programs m ≡ assign es (pid_of p.programs) m)
      × Marks psi psi'
      × Registered es (pid_of p.programs) psi'
programs_from-encode [] rest p psi entries few ok words =
    (p, psi, programs_from-zero rest p psi, ok, λ m. refl, Marks-refl psi, tt)
programs_from-encode (e ∷ es) rest p psi entries few ok words =
    let (ne, reserved, small) = entries.0 in
    let inside : e.pid / 64 < length psi.pmt_bitmap = omega (arith, words) in
    let (p₁, psi₁, added, ok₁, view₁, marks₁, carried) =
      add_program_lem e.number e.pid p psi ok (omega arith) inside in
    let (p₂, psi₂, ran, ok₂, view₂, marks₂, registered) =
      programs_from-encode es rest p₁ psi₁ entries.1 (omega arith) ok₁ (marks₁.words ∙ words) in
    let number : bit_or ((e.number / 256) <<< 8) (e.number % 256) ≡ e.number =
      bit_or_fields 8 (e.number / 256) (e.number % 256) (omega arith) ∙ omega arith in
    let field = bit_or ((e.reserved * 32 + e.pid / 256) <<< 8) (e.pid % 256) in
    let joined : field ≡ (e.reserved * 32 + e.pid / 256) * 2 ^ 8 + e.pid % 256 =
      bit_or_fields 8 (e.reserved * 32 + e.pid / 256) (e.pid % 256) (omega arith) in
    let pid_read : bit_and field 0x1FFF ≡ e.pid = bit_and_mask 13 field ∙ omega (arith, joined) in
    let left : u16 (4 * length (e ∷ es) + 2 ^ 16 - 4) ≡ 4 * length es = omega arith in
    (
      p₂,
      psi₂,
      programs_from-step _ _ _ _ (4 * length (e ∷ es)) e.number e.pid (encode es ++ rest) p p₁ psi
            psi₁ (omega arith) number pid_read ne added
          ∙ ap (λ k. programs_from true true (encode es ++ rest) k p₁ psi₁) left
          ∙ ran,
      ok₂,
      λ m.
          view₂ m
          ∙ assign_cong es (pid_of p₁.programs) (assign_one e.number e.pid (pid_of p.programs))
              view₁ m,
      Marks-trans psi psi₁ psi₂ marks₁ marks₂,
      (
        still_carried (is_some (pid_of p.programs e.number) ≡ true) e.pid psi₁ psi₂
            (omega (arith, marks₁.words, words)) marks₂ carried,
        subst (λ view. Registered es view psi₂) (fun_ext view₁) registered,
      ),
    )
