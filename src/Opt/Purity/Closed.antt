-- ===== src/Opt/Purity/Closed.antt =====
-- The recursive call of the analysis and its loop over functions.
use icewind.Common.{
  ℕ, zero, suc, ◌==◌, ◌≡◌, ◌≢◌, refl, sym, ap, ◌∙◌, subst, inl, inr, ==_iff, arith, Bool, true,
  false, Bool-cases, Option-cases, List, [], ◌∷◌, none, some, ok, ◌>>=◌, unwrap,
}
use icewind.Rudder.Statements.{Function}
use icewind.Interpreter.Blocks.{Model}
use icewind.Opt.Typed.{bind-ok}
use icewind.Opt.Blocks.{contains, block_iter}
use icewind.Opt.Passed.{unwrap-some}
use icewind.Opt.Purity.Defs.{
  Results, record_result, all_blocks, determine_purity_recursive, determine_all, assume_impure,
  analyse_purity,
}
use icewind.Opt.Purity.Pure.{IsPureFunction, Closed, Grows, IsPureFunction-Grows}
use icewind.Opt.Purity.Walked.{Advances, refl-Advances, IsSound, blocks-Advances}

pub record_result_self :
    (m : Results) (name : ℕ) (pure : Bool) → record_result m name pure name ≡ some pure
unfolding record_result
record_result_self m name pure = rw ((==_iff name name).1 refl) refl

record_result-Grows :
    (m : Results) (name : ℕ) (pure : Bool) → m name ≡ none → Grows m (record_result m name pure)
unfolding record_result
record_result-Grows m name pure new k b h = elim (Bool-cases (k == name)) [
  | inl e ↦ let clash : none ≡ some b = sym new ∙ ap m (sym ((==_iff k name).0 e)) ∙ h in absurd cc
  | inr n ↦ rw n h
]

module _ (M : Model) (seen : List ℕ) (name : ℕ) (m m' : Results) (pure : Bool) (new : m name ≡ none)
    (fresh : contains seen name ≡ false) (inner : Advances M (name ∷ seen) m m') where
  still_new : m' name ≡ none
  unfolding contains
  still_new = inner.untouched name (rw ((==_iff name name).1 refl) refl) ∙ new

  record_result-untouched : (k : ℕ) → contains seen k ≡ true → record_result m' name pure k ≡ m k
  unfolding contains record_result
  record_result-untouched k h = elim (Bool-cases (k == name)) [
    | inl e ↦
        let clash : true ≡ false = sym h ∙ ap (contains seen) ((==_iff k name).0 e) ∙ fresh in
        absurd cc
    | inr n ↦ rw n (inner.untouched k (ground (arith, h)))
  ]

  record_result-Closed :
      ((pure ≡ true) → IsPureFunction M m' name)
      → Closed M m
      → Closed M (record_result m' name pure)
  unfolding record_result
  record_result-Closed here c k h = elim (Bool-cases (k == name)) [
    | inl e ↦
        let at : k ≡ name = (==_iff k name).0 e in
        let found : some pure ≡ some true = rw (e) at h in
        let is_true : pure ≡ true = cc in
        subst (IsPureFunction M (record_result m' name pure)) (sym at) (
          IsPureFunction-Grows M m' (record_result m' name pure) name
            (record_result-Grows m' name pure still_new) (here is_true))
    | inr n ↦
        IsPureFunction-Grows M m' (record_result m' name pure) k
          (record_result-Grows m' name pure still_new) (inner.closed c k (rw n at h))
  ]

  record_result-Advances :
      ((pure ≡ true) → IsPureFunction M m' name) → Advances M seen m (record_result m' name pure)
  record_result-Advances here = record {
    grows = λ k b h. record_result-Grows m' name pure still_new k b (inner.grows k b h);
    untouched = record_result-untouched;
    closed = record_result-Closed here;
  }

-- the call for a function records the result after those of the functions that it calls
pub determine-IsSound :
    (fuel : ℕ) (M : Model) (seen : List ℕ) → IsSound M seen (determine_purity_recursive fuel M seen)
unfolding determine_purity_recursive
determine-IsSound zero M seen name m out fresh e = absurd cc
determine-IsSound (suc fuel) M seen name m out fresh e = elim (Option-cases (m name)) [
  | inl new ↦
      let rest : (unwrap (M.functions name) >>= λ function.
      (block_iter function >>= λ blocks.
      (all_blocks (determine_purity_recursive fuel M (name ∷ seen)) (name ∷ seen) function.arena
          blocks m
        >>= λ parts. ok (parts.0, record_result (parts.1) name (parts.0)))))
          ≡ ok out =
        rw (determine_purity_recursive, new) at e in
      let function = bind-ok (unwrap (M.functions name)) _ rest in
      let f : Function = function.0 in
      let blocks = bind-ok (block_iter f) _ (function.2) in
      let parts =
        bind-ok
          (all_blocks (determine_purity_recursive fuel M (name ∷ seen)) (name ∷ seen) f.arena
            (blocks.0) m)
          _ (blocks.2) in
      let inner =
        blocks-Advances M (name ∷ seen) (determine_purity_recursive fuel M (name ∷ seen))
          (determine-IsSound fuel M (name ∷ seen)) f.arena (blocks.0) m (parts.0) (parts.1) in
      let pure : Bool = parts.0.0 in
      let recorded : ok (pure, record_result (parts.0.1) name pure) ≡ ok out = parts.2 in
      let same : (pure, record_result (parts.0.1) name pure) ≡ out = cc in
      subst (λ o. Advances M seen m (o.1) × ((o.0 ≡ true) → o.1 name ≡ some true)) same
        (
          record_result-Advances M seen name m (parts.0.1) pure new fresh (inner.0) (λ h. record {
            function = f;
            named = unwrap-some (M.functions name) (function.1);
            blocks = blocks.0;
            iterated = blocks.1;
            pure = inner.1 h;
          }),
          λ h. record_result_self (parts.0.1) name pure ∙ ap some h,
        )
  | inr (pure, old) ↦
      let stop : ok (pure, m) ≡ ok out = rw (determine_purity_recursive, old) at e in
      let same : (pure, m) ≡ out = cc in
      subst (λ o. Advances M seen m (o.1) × ((o.0 ≡ true) → o.1 name ≡ some true)) same
        (refl-Advances M seen m, λ h. old ∙ ap some h)
]

assume_impure_lem : (names : List ℕ) (k : ℕ) → assume_impure names k ≢ some true
unfolding assume_impure record_result
assume_impure_lem [] k h = absurd cc
assume_impure_lem (name ∷ names) k h = elim (Bool-cases (k == name)) [
  | inl e ↦ let clash : some false ≡ some true = rw e at h in absurd cc
  | inr n ↦ assume_impure_lem names k (rw n at h)
]

determine_all-Closed :
    (fuel : ℕ) (M : Model) (names : List ℕ) (m m' : Results)
    → determine_all fuel M names m ≡ ok m'
    → Closed M m
    → Closed M m'
unfolding determine_all contains
determine_all-Closed fuel M [] m m' e c = let same : m ≡ m' = cc in subst (Closed M) same c
determine_all-Closed fuel M (name ∷ names) m m' e c =
    let first = bind-ok (determine_purity_recursive fuel M [] name m) _ e in
    determine_all-Closed fuel M names (first.0.1) m' (first.2)
      ((determine-IsSound fuel M [] name m (first.0) refl (first.1)).0.closed c)

pub analyse_purity-Closed :
    (fuel : ℕ) (M : Model) (intrinsics names : List ℕ) (m : Results)
    → analyse_purity fuel M intrinsics names ≡ ok m
    → Closed M m
unfolding analyse_purity
analyse_purity-Closed fuel M intrinsics names m e =
    determine_all-Closed fuel M names (assume_impure intrinsics) m e
      (λ k h. absurd (assume_impure_lem intrinsics k h))
