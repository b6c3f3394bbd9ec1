-- ===== src/Opt/Purity/Walked.antt =====
-- `all` over statements and blocks, with what holds of the recursive call of the analysis.
use icewind.Common.{
  ℕ, ◌≡◌, refl, sym, ap, ◌∙◌, subst, ◌⊎◌, inl, inr, Bool, true, false, Bool-cases, List, [], ◌∷◌,
  some, Outcome, ok, index,
}
use icewind.Rudder.Statements
use icewind.Rudder.Statements.{Statement, Block, Function}
use icewind.Interpreter.Blocks.{Model}
use icewind.Opt.Typed.{bind-ok}
use icewind.Opt.Blocks.{contains}
use icewind.Opt.Purity.Defs.{Results, is_pure_statement, all_statements, all_blocks}
use icewind.Opt.Purity.Pure.{
  IsPure, ArePure, BlocksArePure, Closed, Grows, IsPure-Grows, ArePure-Grows,
}

-- from `m` the analysis comes to `m'` and leaves the functions under way alone
pub record Advances (M : Model) (seen : List ℕ) (m m' : Results) : Type 0 where
  pub grows : Grows m m'
  pub untouched : (name : ℕ) → contains seen name ≡ true → m' name ≡ m name
  pub closed : Closed M m → Closed M m'

-- `all` goes on after a pure part, and ends after an impure one
go_on :
    (pure : Bool) (m : Results) (rest : Outcome (Bool × Results)) (out : Bool × Results)
    → (elim pure [ true ↦ rest | false ↦ ok (false, m) ]) ≡ ok out
    → ((pure ≡ true) × (rest ≡ ok out)) ⊎ ((false, m) ≡ out)
go_on true m rest out e = inl (refl, e)
go_on false m rest out e = inr (cc)

module _ (M : Model) (seen : List ℕ) where
  pub refl-Advances : (m : Results) → Advances M seen m m
  refl-Advances m = record { grows = λ name pure h. h; untouched = λ name h. refl; closed = λ c. c }

  trans-Advances :
      (m m' m'' : Results) → Advances M seen m m' → Advances M seen m' m'' → Advances M seen m m''
  trans-Advances m m' m'' a a' = record {
    grows = λ name pure h. a'.grows name pure (a.grows name pure h);
    untouched = λ name h. a'.untouched name h ∙ a.untouched name h;
    closed = λ c. a'.closed (a.closed c);
  }

  impure :
      (m : Results) (out : Bool × Results) (P : Bool × Results → Type 0)
      → ok (false, m) ≡ ok out
      → Advances M seen m (out.1) × ((out.0 ≡ true) → P out)
  impure m out P e =
      let same : (false, m) ≡ out = cc in
      (
        subst (λ o. Advances M seen m (o.1)) same (refl-Advances m),
        λ h. let never : false ≡ true = ap (λ o. o.0) same ∙ h in absurd cc,
      )

  -- what holds of the recursive call, for functions that are not under way
  abbrev pub IsSound : (ℕ → Results → Outcome (Bool × Results)) → Type 0
  IsSound determine =
      (name : ℕ) (m : Results) (out : Bool × Results)
      → contains seen name ≡ false
      → determine name m ≡ ok out
      → Advances M seen m (out.1) × ((out.0 ≡ true) → out.1 name ≡ some true)

  module _ (determine : ℕ → Results → Outcome (Bool × Results)) (sound : IsSound determine) where
    pub statement-Advances :
        (s : Statement) (m : Results) (out : Bool × Results)
        → is_pure_statement determine seen s m ≡ ok out
        → Advances M seen m (out.1) × ((out.0 ≡ true) → IsPure (out.1) s)
    unfolding is_pure_statement
    statement-Advances (Statements.call target args t) m out e =
        elim (Bool-cases (contains seen target)) [
          | inl under_way ↦
              let stop : ok (false, m) ≡ ok out = rw under_way at e in
              impure m out (λ o. IsPure (o.1) (Statements.call target args t)) stop
          | inr fresh ↦ sound target m out fresh (rw fresh at e)
        ]
    statement-Advances (Statements.write_memory address v) m out e =
        impure m out (λ o. IsPure (o.1) (Statements.write_memory address v)) e
    statement-Advances (Statements.write_pc v) m out e =
        impure m out (λ o. IsPure (o.1) (Statements.write_pc v)) e
    statement-Advances (Statements.write_register offset v) m out e =
        impure m out (λ o. IsPure (o.1) (Statements.write_register offset v)) e
    statement-Advances (Statements.read_memory address size) m out e =
        impure m out (λ o. IsPure (o.1) (Statements.read_memory address size)) e
    statement-Advances _ m out e =
        let same : (true, m) ≡ out = cc in
        (subst (λ o. Advances M seen m (o.1)) same (refl-Advances m), λ h. tt)

    pub statements-Advances :
        (arena : List Statement) (refs : List ℕ) (m : Results) (out : Bool × Results)
        → all_statements determine seen arena refs m ≡ ok out
        → Advances M seen m (out.1) × ((out.0 ≡ true) → ArePure (out.1) arena refs)
    unfolding all_statements
    statements-Advances arena [] m out e =
        let same : (true, m) ≡ out = cc in
        (subst (λ o. Advances M seen m (o.1)) same (refl-Advances m), λ h. tt)
    statements-Advances arena (ref ∷ refs) m out e =
        let found = bind-ok (index arena ref) _ e in
        let first = bind-ok (is_pure_statement determine seen (found.0) m) _ (found.2) in
        let m' : Results = first.0.1 in
        let step = statement-Advances (found.0) m (first.0) (first.1) in
        elim (go_on (first.0.0) m' _ out (first.2)) [
          | inl (pure, rest) ↦
              let tail = statements-Advances arena refs m' out rest in
              (
                trans-Advances m m' (out.1) (step.0) (tail.0),
                λ h. (
                  λ s at.
                      let both : ok (found.0) ≡ ok s = sym (found.1) ∙ at in
                      let same : found.0 ≡ s = cc in
                      subst (IsPure (out.1)) same
                        (IsPure-Grows m' (out.1) (tail.0).grows (found.0) (step.1 pure)),
                  tail.1 h,
                ),
              )
          | inr same ↦ (
            subst (λ o. Advances M seen m (o.1)) same (step.0),
            λ h. let never : false ≡ true = ap (λ o. o.0) same ∙ h in absurd cc,
          )
        ]

    pub blocks-Advances :
        (arena : List Block) (ks : List ℕ) (m : Results) (out : Bool × Results)
        → all_blocks determine seen arena ks m ≡ ok out
        → Advances M seen m (out.1) × ((out.0 ≡ true) → BlocksArePure (out.1) arena ks)
    unfolding all_blocks
    blocks-Advances arena [] m out e =
        let same : (true, m) ≡ out = cc in
        (subst (λ o. Advances M seen m (o.1)) same (refl-Advances m), λ h. tt)
    blocks-Advances arena (k ∷ ks) m out e =
        let found = bind-ok (index arena k) _ e in
        let b : Block = found.0 in
        let first =
          bind-ok (all_statements determine seen b.statement_arena b.statements m) _ (found.2) in
        let m' : Results = first.0.1 in
        let step = statements-Advances b.statement_arena b.statements m (first.0) (first.1) in
        elim (go_on (first.0.0) m' _ out (first.2)) [
          | inl (pure, rest) ↦
              let tail = blocks-Advances arena ks m' out rest in
              (
                trans-Advances m m' (out.1) (step.0) (tail.0),
                λ h. (
                  λ c at.
                      let both : ok b ≡ ok c = sym (found.1) ∙ at in
                      let same : b ≡ c = cc in
                      subst (λ z. ArePure (out.1) z.statement_arena z.statements) same
                        (ArePure-Grows m' (out.1) (tail.0).grows b.statement_arena b.statements
                          (step.1 pure)),
                  tail.1 h,
                ),
              )
          | inr same ↦ (
            subst (λ o. Advances M seen m (o.1)) same (step.0),
            λ h. let never : false ≡ true = ap (λ o. o.0) same ∙ h in absurd cc,
          )
        ]
