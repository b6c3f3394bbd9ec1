-- ===== src/Opt/Purity/Known.antt =====
-- `all` over statements and blocks, where the calls are of functions of the model and intrinsics.
use icewind.Common.{
  ℕ, ◌+◌, ◌<◌, ◌≤◌, ◌==◌, if◌then◌else◌, ◌≡◌, refl, sym, subst, ◌⊎◌, inl, inr, ==_iff, arith, Bool,
  true, false, Bool-cases, List, [], ◌∷◌, length, some, Outcome, ok, index,
}
use icewind.Rudder.Statements
use icewind.Rudder.Statements.{Statement, Block, Function}
use icewind.Interpreter.Blocks.{Model}
use icewind.Opt.Blocks.{contains}
use icewind.Opt.Formed.{Within, IsFormed, index_total}
use icewind.Opt.Purity.Defs.{
  Results, record_result, is_pure_statement, all_statements, all_blocks, assume_impure,
}
use icewind.Opt.Purity.Walked.{Advances, IsSound, statement-Advances, statements-Advances}

-- a function that is known, of the model or an intrinsic
abbrev pub Callable : List ℕ → List ℕ → ℕ → Type 0
Callable intrinsics names k = (contains names k ≡ true) ⊎ (contains intrinsics k ≡ true)

abbrev pub CallsKnown : List ℕ → List ℕ → Statement → Type 0
CallsKnown intrinsics names (Statements.call target args t) = Callable intrinsics names target
CallsKnown intrinsics names _ = Unit {0}

abbrev pub AllCallKnown : List ℕ → List ℕ → Function → Type 0
AllCallKnown intrinsics names f =
    (k : ℕ) (b : Block) (j : ℕ) (s : Statement)
    → index f.arena k ≡ ok b
    → index b.statement_arena j ≡ ok s
    → CallsKnown intrinsics names s

-- The names are of functions whose references stand, and which call known functions only.
abbrev pub IsComplete : Model → List ℕ → List ℕ → Type 0
IsComplete M intrinsics names =
    (k : ℕ)
    → contains names k ≡ true
    → (f : Function) × (M.functions k ≡ some f) × IsFormed f × AllCallKnown intrinsics names f

-- the names that are not among those under way
new : List ℕ → ℕ → ℕ
new seen name = if contains seen name then 0 else 1

pub unseen : List ℕ → List ℕ → ℕ
unseen [] seen = 0
unseen (name ∷ names) seen = new seen name + unseen names seen

new-le : (c : ℕ) (seen : List ℕ) (name : ℕ) → new (c ∷ seen) name ≤ new seen name
unfolding new contains
new-le c seen name = elim (Bool-cases (c == name)) [
  | inl e ↦ rw e (omega arith)
  | inr n ↦ rw n (omega arith)
]

new_fresh : (c : ℕ) (seen : List ℕ) → contains seen c ≡ false → new seen c ≡ 1
unfolding new
new_fresh c seen fresh = rw fresh refl

new_self : (c : ℕ) (seen : List ℕ) → new (c ∷ seen) c ≡ 0
unfolding new contains
new_self c seen = rw ((==_iff c c).1 refl) refl

unseen-le : (c : ℕ) (seen names : List ℕ) → unseen names (c ∷ seen) ≤ unseen names seen
unfolding unseen
unseen-le c seen [] = omega arith
unseen-le c seen (name ∷ names) = omega (arith, new-le c seen name, unseen-le c seen names)

pub unseen-lt :
    (c : ℕ) (seen names : List ℕ)
    → contains names c ≡ true
    → contains seen c ≡ false
    → unseen names (c ∷ seen) < unseen names seen
unfolding unseen contains
unseen-lt c seen [] h fresh = absurd cc
unseen-lt c seen (name ∷ names) h fresh = elim (Bool-cases (name == c)) [
  | inl e ↦
      let at : name ≡ c = (==_iff name c).0 e in
      let before : new seen name ≡ 1 =
        subst (λ z. new seen z ≡ 1) (sym at) (new_fresh c seen fresh) in
      let after : new (c ∷ seen) name ≡ 0 =
        subst (λ z. new (c ∷ seen) z ≡ 0) (sym at) (new_self c seen) in
      omega (arith, before, after, unseen-le c seen names)
  | inr n ↦ omega (arith, new-le c seen name, unseen-lt c seen names (rw n at h) fresh)
]

pub unseen-length : (names : List ℕ) → unseen names [] ≡ length names
unfolding unseen new contains
unseen-length [] = refl
unseen-length (name ∷ names) = let rest = unseen-length names in omega arith

-- the intrinsics have results
abbrev pub Assumed : List ℕ → Results → Type 0
Assumed intrinsics m = (k : ℕ) → contains intrinsics k ≡ true → (b : Bool) × (m k ≡ some b)

pub assume_impure-Assumed : (intrinsics : List ℕ) → Assumed intrinsics (assume_impure intrinsics)
unfolding assume_impure record_result contains
assume_impure-Assumed [] k h = absurd cc
assume_impure-Assumed (name ∷ names) k h = elim (Bool-cases (name == k)) [
  | inl e ↦ (false, rw ((==_iff k name).1 (sym ((==_iff name k).0 e))) refl)
  | inr n ↦ elim (Bool-cases (k == name)) [
    | inl e ↦ (false, rw e refl)
    | inr n' ↦ let rest = assume_impure-Assumed names k (rw n at h) in (rest.0, rw n' (rest.1))
  ]
]

-- `all` goes on after a pure part, and ends after an impure one
all-step :
    (pure : Bool) (m : Results) (rest : Outcome (Bool × Results)) (out : Bool × Results)
    → rest ≡ ok out
    → (whole : Bool × Results) × ((elim pure [ true ↦ rest | false ↦ ok (false, m) ]) ≡ ok whole)
all-step true m rest out e = (out, e)
all-step false m rest out e = ((false, m), refl)

module _ (M : Model) (intrinsics names seen : List ℕ) where
  pub Advances-Assumed :
      (m m' : Results) → Advances M seen m m' → Assumed intrinsics m → Assumed intrinsics m'
  Advances-Assumed m m' a assumed k h =
      let known = assumed k h in (known.0, a.grows k (known.0) (known.1))

  -- what holds of the recursive call
  abbrev pub IsTotal : (ℕ → Results → Outcome (Bool × Results)) → Type 0
  IsTotal determine =
      (name : ℕ) (m : Results)
      → Callable intrinsics names name
      → contains seen name ≡ false
      → Assumed intrinsics m
      → (out : Bool × Results) × (determine name m ≡ ok out) × ((b : Bool) × (out.1 name ≡ some b))

  module _ (determine : ℕ → Results → Outcome (Bool × Results)) (sound : IsSound M seen determine)
      (total : IsTotal determine) where
    statement_total :
        (s : Statement) (m : Results)
        → CallsKnown intrinsics names s
        → Assumed intrinsics m
        → (out : Bool × Results) × (is_pure_statement determine seen s m ≡ ok out)
    unfolding is_pure_statement
    statement_total (Statements.call target args t) m known assumed =
        elim (Bool-cases (contains seen target)) [
          | inl under_way ↦ ((false, m), rw under_way refl)
          | inr fresh ↦ let out = total target m known fresh assumed in (out.0, rw fresh (out.1))
        ]
    statement_total (Statements.write_memory address v) m known assumed = ((false, m), refl)
    statement_total (Statements.write_pc v) m known assumed = ((false, m), refl)
    statement_total (Statements.write_register offset v) m known assumed = ((false, m), refl)
    statement_total (Statements.read_memory address size) m known assumed = ((false, m), refl)
    statement_total _ m known assumed = ((true, m), refl)

    statements_total :
        (arena : List Statement) (refs : List ℕ) (m : Results)
        → Within (length arena) refs
        → ((j : ℕ) (s : Statement) → index arena j ≡ ok s → CallsKnown intrinsics names s)
        → Assumed intrinsics m
        → (out : Bool × Results) × (all_statements determine seen arena refs m ≡ ok out)
    unfolding all_statements Within
    statements_total arena [] m w known assumed = ((true, m), refl)
    statements_total arena (ref ∷ refs) m w known assumed =
        let found = index_total arena ref (w.0) in
        let first = statement_total (found.0) m (known ref (found.0) (found.1)) assumed in
        let step = statement-Advances M seen determine sound (found.0) m (first.0) (first.1) in
        let rest =
          statements_total arena refs (first.0.1) (w.1) known
            (Advances-Assumed m (first.0.1) (step.0) assumed) in
        let whole = all-step (first.0.0) (first.0.1) _ (rest.0) (rest.1) in
        (whole.0, rw (found.1, first.1) (whole.1))

    pub blocks_total :
        (f : Function) (ks : List ℕ) (m : Results)
        → IsFormed f
        → AllCallKnown intrinsics names f
        → Within (length f.arena) ks
        → Assumed intrinsics m
        → (out : Bool × Results) × (all_blocks determine seen f.arena ks m ≡ ok out)
    unfolding all_blocks Within
    blocks_total f [] m formed known w assumed = ((true, m), refl)
    blocks_total f (k ∷ ks) m formed known w assumed =
        let found = index_total f.arena k (w.0) in
        let b : Block = found.0 in
        let first =
          statements_total b.statement_arena b.statements m
            (formed.blocks_formed k b (found.1)).statements_in
            (λ j s at. known k b j s (found.1) at) assumed in
        let step =
          statements-Advances M seen determine sound b.statement_arena b.statements m (first.0)
            (first.1) in
        let rest =
          blocks_total f ks (first.0.1) formed known (w.1)
            (Advances-Assumed m (first.0.1) (step.0) assumed) in
        let whole = all-step (first.0.0) (first.0.1) _ (rest.0) (rest.1) in
        (whole.0, rw (found.1, first.1) (whole.1))
