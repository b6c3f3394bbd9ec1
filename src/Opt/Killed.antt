-- ===== src/Opt/Killed.antt =====
-- A block without one of its dead statements, run next to the block as it was.
use icewind.Common.{
  ℕ, ◌==◌, ◌≡◌, ◌≢◌, ◌⊎◌, inl, inr, refl, sym, ap, ◌∙◌, subst, Bool, true, false, Bool-cases,
  ==_iff, ==→ne, ==_of_ne, List, [], ◌∷◌, Option, none, some, Outcome, ok, ◌>>=◌, index,
}
use icewind.Rudder.Statements.{Statement}
use icewind.Interpreter.Values.{Value}
use icewind.Interpreter.RegisterFile.{RegisterFile}
use icewind.Interpreter.Blocks.{Model, Interpreter, BlockResult, Done, value_of, ended, insert}
use icewind.Interpreter.Run.{step, keep, statements_from}
use icewind.Opt.Typed.{bind-ok}
use icewind.Opt.Uses.{used_by, has_uses, has_side_effects}
use icewind.Opt.Dead.{remove}
use icewind.Opt.Agreed.{Agree, with_values, retarget, step-retarget}
use icewind.Opt.Effects.{is_carry, IsHonest, step-Keeps}

-- no statement of the list uses `d`
abbrev pub Unused : List Statement → ℕ → List ℕ → Type 0
Unused arena d [] = Unit {0}
Unused arena d (ref ∷ refs) =
    ((s : Statement) → index arena ref ≡ ok s → has_uses (used_by s) d ≡ false)
    × Unused arena d refs

-- the values agree but at `d`
abbrev ButAt : ℕ → (m m' : ℕ → Option Value) → Type 0
ButAt d m m' = (k : ℕ) → k ≢ d → m' k ≡ m k

ButAt-Agree :
    (d : ℕ) (m m' : ℕ → Option Value) (xs : List ℕ)
    → ButAt d m m'
    → has_uses xs d ≡ false
    → Agree m m' xs
unfolding has_uses
ButAt-Agree d m m' [] r h = tt
ButAt-Agree d m m' (x ∷ xs) r h = elim (Bool-cases (x == d)) [
  | inl e ↦ let never : true ≡ false = rw e at h in absurd cc
  | inr n ↦ (r x (==→ne x d n), ButAt-Agree d m m' xs r (rw n at h))
]

-- `keep` on the values alone
kept : ℕ → Option Value → (ℕ → Option Value) → ℕ → Option Value
kept ref none m = m
kept ref (some v) m = insert m ref v

keep-kept :
    (ref : ℕ) (v : Option Value) (i : Interpreter) (m : ℕ → Option Value)
    → keep ref v (record i { statement_values = m })
      ≡ record (keep ref v i) { statement_values = kept ref v m }
unfolding keep kept
keep-kept ref none i m = refl
keep-kept ref (some v) i m = refl

kept-ButAt :
    (d ref : ℕ) (v : Option Value) (i : Interpreter) (m : ℕ → Option Value)
    → ButAt d i.statement_values m
    → ButAt d (keep ref v i).statement_values (kept ref v m)
unfolding keep kept insert
kept-ButAt d ref none i m r k h = r k h
kept-ButAt d ref (some v) i m r k h = elim (Bool-cases (k == ref)) [
  | inl e ↦ rw e refl
  | inr n ↦ rw n (r k h)
]

-- the value of `d` itself makes no difference either
keep-ButAt :
    (d : ℕ) (v : Option Value) (i : Interpreter) (m : ℕ → Option Value)
    → ButAt d i.statement_values m
    → ButAt d (keep d v i).statement_values m
unfolding keep insert
keep-ButAt d none i m r k h = r k h
keep-ButAt d (some v) i m r k h = rw (==_of_ne k d h) (r k h)

forget_kept :
    (d : ℕ) (v : Option Value) (i : Interpreter) (m : ℕ → Option Value)
    → record (keep d v i) { statement_values = m } ≡ record i { statement_values = m }
unfolding keep
forget_kept d none i m = refl
forget_kept d (some v) i m = refl

-- how `remove` deals with the first place of a list
remove-cons :
    (d x : ℕ) (xs ys : List ℕ)
    → remove (x ∷ xs) d ≡ ok ys
    → ((x ≡ d) × (xs ≡ ys)) ⊎ ((rest : List ℕ) × (remove xs d ≡ ok rest) × (x ∷ rest ≡ ys))
unfolding remove
remove-cons d x xs ys h = elim (Bool-cases (x == d)) [
  | inl e ↦ let all : ok xs ≡ ok ys = rw (remove, e) at h in inl ((==_iff x d).0 e, cc)
  | inr n ↦
      let all : (remove xs d >>= λ rest. ok (x ∷ rest)) ≡ ok ys = rw (remove, n) at h in
      let found = bind-ok (remove xs d) (λ rest. ok (x ∷ rest)) all in
      let same : x ∷ found.0 ≡ ys = let last = found.2 in cc in inr (found.0, found.1, same)
]

Agree-refl : (m : ℕ → Option Value) (xs : List ℕ) → Agree m m xs
Agree-refl m [] = tt
Agree-refl m (x ∷ xs) = (refl, Agree-refl m xs)

-- the values of the state that a step leaves
abbrev held : Outcome Done → ℕ → Option Value
held (ok (value_of v j)) = j.statement_values
held _ = λ k. none

module _ (M : Model)
    (call_function : ℕ → List Value → RegisterFile → Outcome (Option Value × RegisterFile))
    (arena : List Statement) (d : ℕ) where
  same_values :
      (i : Interpreter) (s : Statement) (m : ℕ → Option Value) (done : Done)
      → ButAt d i.statement_values m
      → has_uses (used_by s) d ≡ false
      → step M call_function arena i s ≡ ok done
      → step M call_function arena (record i { statement_values = m }) s ≡ ok (with_values m done)
  unfolding retarget
  same_values i s m done r h e =
      step-retarget M call_function arena i m s (ButAt-Agree d i.statement_values m (used_by s) r h)
      ∙ ap (retarget m) e

  -- a statement leaves the values alone
  values_stay :
      (i : Interpreter) (s : Statement) (v : Option Value) (j : Interpreter)
      → step M call_function arena i s ≡ ok (value_of v j)
      → j.statement_values ≡ i.statement_values
  unfolding retarget with_values
  values_stay i s v j e =
      let same : ok (value_of v j)
          ≡ ok (value_of v (record j { statement_values = i.statement_values })) =
        sym e
        ∙ step-retarget M call_function arena i i.statement_values s
            (Agree-refl i.statement_values (used_by s))
        ∙ ap (retarget i.statement_values) e in
      ap held same

  -- the run from the second state ends as the one from the first, but for the values
  abbrev Ends : (refs : List ℕ) → Interpreter → BlockResult × Interpreter → Type 0
  Ends refs i out =
      (m : ℕ → Option Value) × (statements_from M call_function arena refs i
        ≡ ok (out.0, record (out.1) { statement_values = m }))

  one_more :
      (ref : ℕ) (refs refs' : List ℕ) (i : Interpreter) (m : ℕ → Option Value)
      (out : BlockResult × Interpreter) (s : Statement)
      → index arena ref ≡ ok s
      → has_uses (used_by s) d ≡ false
      → ButAt d i.statement_values m
      → ((j : Interpreter) (m' : ℕ → Option Value)
          → ButAt d j.statement_values m'
          → statements_from M call_function arena refs j ≡ ok out
          → Ends refs' (record j { statement_values = m' }) out)
      → (done : Done) → step M call_function arena i s ≡ ok done
      → (elim done [
        | value_of v j ↦ statements_from M call_function arena refs (keep ref v j)
        | ended result j ↦ ok (result, j)
      ])
        ≡ ok out
      → Ends (ref ∷ refs') (record i { statement_values = m }) out
  unfolding statements_from with_values
  one_more ref refs refs' i m out s found h r rest (value_of v j) e e' =
      let stays : ButAt d j.statement_values m =
        subst (λ w. ButAt d w m) (sym (values_stay i s v j e)) r in
      let tail = rest (keep ref v j) (kept ref v m) (kept-ButAt d ref v j m stays) e' in
      (tail.0, rw (found, same_values i s m (value_of v j) r h e, keep-kept ref v j m) (tail.1))
  one_more ref refs refs' i m out s found h r rest (ended result j) e e' =
      let same : (result, j) ≡ out = cc in
      (
        m,
        rw (found, same_values i s m (ended result j) r h e)
            (ap (λ o. ok (o.0, record (o.1) { statement_values = m })) same),
      )

  statements_ButAt :
      (refs : List ℕ) (i : Interpreter) (m : ℕ → Option Value) (out : BlockResult × Interpreter)
      → ButAt d i.statement_values m
      → Unused arena d refs
      → statements_from M call_function arena refs i ≡ ok out
      → Ends refs (record i { statement_values = m }) out
  unfolding statements_from
  statements_ButAt [] i m out r u e = absurd cc
  statements_ButAt (ref ∷ refs) i m out r u e =
      let found = bind-ok (index arena ref) _ e in
      let stepped = bind-ok (step M call_function arena i (found.0)) _ (found.2) in
      one_more ref refs refs i m out (found.0) (found.1) (u.0 (found.0) (found.1)) r
        (λ j m' r' e'. statements_ButAt refs j m' out r' (u.1) e') (stepped.0) (stepped.1)
        (stepped.2)

  module _ (is_pure : ℕ → Outcome Bool) (honest : IsHonest is_pure call_function) (dead : Statement)
      (at : index arena d ≡ ok dead) (free : has_side_effects is_pure dead ≡ ok false)
      (not_carry : is_carry dead ≡ false) where
    past_dead :
        (refs : List ℕ) (i : Interpreter) (m : ℕ → Option Value) (out : BlockResult × Interpreter)
        → ButAt d i.statement_values m
        → Unused arena d refs
        → (done : Done) → step M call_function arena i dead ≡ ok done
        → (elim done [
          | value_of v j ↦ statements_from M call_function arena refs (keep d v j)
          | ended result j ↦ ok (result, j)
        ])
          ≡ ok out
        → Ends refs (record i { statement_values = m }) out
    past_dead refs i m out r u done e e' =
        let kept_state =
          step-Keeps M call_function is_pure honest arena i dead free not_carry done e in
        let goes_on : statements_from M call_function arena refs (keep d (kept_state.0) i)
            ≡ ok out =
          subst
            (λ w.
              (elim w [
                | value_of v j ↦ statements_from M call_function arena refs (keep d v j)
                | ended result j ↦ ok (result, j)
              ])
              ≡ ok out)
            (kept_state.1) e' in
        subst (λ j. Ends refs j out) (forget_kept d (kept_state.0) i m)
          (statements_ButAt refs (keep d (kept_state.0) i) m out (keep-ButAt d (kept_state.0) i m r)
            u goes_on)

    pub statements-remove :
        (refs refs' : List ℕ) (i : Interpreter) (m : ℕ → Option Value)
        (out : BlockResult × Interpreter)
        → remove refs d ≡ ok refs'
        → ButAt d i.statement_values m
        → Unused arena d refs
        → statements_from M call_function arena refs i ≡ ok out
        → Ends refs' (record i { statement_values = m }) out
    unfolding statements_from remove
    statements-remove [] refs' i m out rm r u e = absurd cc
    statements-remove (ref ∷ refs) refs' i m out rm r u e =
        let found = bind-ok (index arena ref) _ e in
        let stepped = bind-ok (step M call_function arena i (found.0)) _ (found.2) in
        elim (remove-cons d ref refs refs' rm) [
          | inl (here, all) ↦
              let both : ok (found.0) ≡ ok dead = sym (found.1) ∙ ap (index arena) here ∙ at in
              let same : found.0 ≡ dead = cc in
              subst (λ l. Ends l (record i { statement_values = m }) out) all
                (past_dead refs i m out r (u.1) (stepped.0)
                  (subst (λ s. step M call_function arena i s ≡ ok (stepped.0)) same (stepped.1))
                  (subst
                    (λ k.
                      (elim (stepped.0) [
                        | value_of v j ↦ statements_from M call_function arena refs (keep k v j)
                        | ended result j ↦ ok (result, j)
                      ])
                      ≡ ok out)
                    here (stepped.2)))
          | inr (rest, removed, all) ↦
              subst (λ l. Ends l (record i { statement_values = m }) out) all
                (one_more ref refs rest i m out (found.0) (found.1) (u.0 (found.0) (found.1)) r
                  (λ j m' r' e'. statements-remove refs rest j m' out removed r' (u.1) e')
                  (stepped.0) (stepped.1) (stepped.2))
        ]
