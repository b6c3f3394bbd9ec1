-- ===== src/Opt/Purity/Total.antt =====
-- The analysis on a model whose functions call each other and the intrinsics.
use icewind.Common.{
  ℕ, zero, suc, ◌<◌, ◌==◌, ◌≡◌, refl, sym, ◌∙◌, inl, inr, ==_iff, arith, Bool, true, false, not,
  subst, Bool-cases, Option-cases, List, [], ◌∷◌, length, none, some, ok, Returns,
}
use icewind.Rudder.Statements
use icewind.Rudder.Statements.{Statement, Function}
use icewind.Interpreter.Blocks.{Model}
use icewind.Interpreter.Run.{interpret}
use icewind.Opt.Blocks.{contains}
use icewind.Opt.Formed.{IsFormed}
use icewind.Opt.Iterated.{block_iter_total}
use icewind.Opt.Dead.{dead_stmt_elimination}
use icewind.Opt.Eliminated.{HasNoCarry, Keeps}
use icewind.Opt.Uses.{has_side_effects}
use icewind.Opt.Swept.{Answered, AllAnswered, dead_stmt_elimination-Keeps}
use icewind.Opt.Purity.Defs.{
  Results, record_result, determine_purity_recursive, determine_all, assume_impure, analyse_purity,
  is_pure,
}
use icewind.Opt.Purity.Closed.{record_result_self, determine-IsSound, analyse_purity-Closed}
use icewind.Opt.Purity.Honest.{interpret-IsHonest}
use icewind.Opt.Purity.Pure.{Grows}
use icewind.Opt.Purity.Known.{
  Callable, CallsKnown, AllCallKnown, IsComplete, unseen, unseen-lt, unseen-length, Assumed,
  assume_impure-Assumed, Advances-Assumed, IsTotal, blocks_total,
}

later : (x k : ℕ) (xs : List ℕ) → contains xs k ≡ true → contains (x ∷ xs) k ≡ true
unfolding contains
later x k xs h = elim (Bool-cases (x == k)) [ inl e ↦ rw e refl | inr n ↦ rw n h ]

module _ (M : Model) (intrinsics names : List ℕ) (complete : IsComplete M intrinsics names) where
  determine-IsTotal :
      (fuel : ℕ) (seen : List ℕ)
      → unseen names seen < fuel
      → IsTotal M intrinsics names seen (determine_purity_recursive fuel M seen)
  unfolding determine_purity_recursive
  determine-IsTotal zero seen h name m known fresh assumed = absurd (omega arith)
  determine-IsTotal (suc fuel) seen h name m known fresh assumed = elim (Option-cases (m name)) [
    | inr (pure, old) ↦ ((pure, m), rw (determine_purity_recursive, old) refl, (pure, old))
    | inl unknown ↦ elim known [
      | inr intrinsic ↦
          let result = assumed name intrinsic in
          let clash : none ≡ some (result.0) = sym unknown ∙ result.1 in absurd cc
      | inl named ↦
          let function = complete name named in
          let f : Function = function.0 in
          let blocks = block_iter_total f (function.2) in
          let seen' : List ℕ = name ∷ seen in
          let less : unseen names seen' < unseen names seen =
            unseen-lt name seen names named fresh in
          let parts =
            blocks_total M intrinsics names seen' (determine_purity_recursive fuel M seen')
              (determine-IsSound fuel M seen') (determine-IsTotal fuel seen' (omega arith)) f
              (blocks.0) m (function.2) (function.3) (blocks.2) assumed in
          (
            ((parts.0).0, record_result ((parts.0).1) name ((parts.0).0)),
            rw (determine_purity_recursive, unknown, function.1, blocks.1, parts.1) refl,
            ((parts.0).0, record_result_self ((parts.0).1) name ((parts.0).0)),
          )
    ]
  ]

  all_total :
      (fuel : ℕ) (ks : List ℕ) (m : Results)
      → unseen names [] < fuel
      → ((k : ℕ) → contains ks k ≡ true → contains names k ≡ true)
      → Assumed intrinsics m
      → (m' : Results) × (determine_all fuel M ks m ≡ ok m')
        × Grows m m'
        × ((k : ℕ) → contains ks k ≡ true → (b : Bool) × (m' k ≡ some b))
  unfolding determine_all contains
  all_total fuel [] m h inside assumed = (m, refl, λ k b e. e, λ k at. absurd cc)
  all_total fuel (k ∷ ks) m h inside assumed =
      let first =
        determine-IsTotal fuel [] h k m (inl (inside k (rw ((==_iff k k).1 refl) refl))) refl
          assumed in
      let step = determine-IsSound fuel M [] k m (first.0) refl (first.1) in
      let rest =
        all_total fuel ks (first.0.1) h (λ j at. inside j (later k j ks at))
          (Advances-Assumed M intrinsics names [] m (first.0.1) (step.0) assumed) in
      (
        rest.0,
        rw (first.1) (rest.1),
        λ j b e. rest.2 j b ((step.0).grows j b e),
        λ j at. elim (Bool-cases (k == j)) [
          | inl e ↦
              subst (λ z. (b : Bool) × (rest.0 z ≡ some b)) ((==_iff k j).0 e)
                (first.2.0, rest.2 k (first.2.0) (first.2.1))
          | inr n ↦ rest.3 j (rw n at at)
        ],
      )

statement-Answered :
    (intrinsics names : List ℕ) (m : Results)
    → ((k : ℕ) → Callable intrinsics names k → (b : Bool) × (m k ≡ some b))
    → (s : Statement) → CallsKnown intrinsics names s
    → Answered (is_pure m) s
unfolding has_side_effects is_pure
statement-Answered intrinsics names m known (Statements.call target args t) call =
    let pure = known target call in (not (pure.0), rw (has_side_effects, is_pure, pure.1) refl)
statement-Answered intrinsics names m known (Statements.write_variable symbol v) call = (true, refl)
statement-Answered intrinsics names m known (Statements.write_register o v) call = (true, refl)
statement-Answered intrinsics names m known (Statements.write_memory a v) call = (true, refl)
statement-Answered intrinsics names m known (Statements.write_pc v) call = (true, refl)
statement-Answered intrinsics names m known (Statements.read_memory a v) call = (true, refl)
statement-Answered intrinsics names m known (Statements.jump t) call = (true, refl)
statement-Answered intrinsics names m known (Statements.branch c t f) call = (true, refl)
statement-Answered intrinsics names m known (Statements.return v) call = (true, refl)
statement-Answered intrinsics names m known (Statements.abort v) call = (true, refl)
statement-Answered intrinsics names m known (Statements.check c) call = (true, refl)
statement-Answered intrinsics names m known _ call = (false, refl)

-- the purity of a function that may be called is known when the analysis is done
known-AllAnswered :
    (intrinsics names : List ℕ) (m : Results) (f : Function)
    → ((k : ℕ) → Callable intrinsics names k → (b : Bool) × (m k ≡ some b))
    → AllCallKnown intrinsics names f
    → AllAnswered (is_pure m) f
known-AllAnswered intrinsics names m f known calls k b j s found at =
    statement-Answered intrinsics names m known s (calls k b j s found at)

-- Let the names be of functions whose references stand and which call only each other and the
-- intrinsics, and let the fuel be above the number of the names. Then the purity analysis
-- returns. With its results, on a function whose references stand, which has no addition with
-- carry and calls only such functions, dead statement elimination returns. Entry block,
-- parameters and number of blocks stay, and whatever a run of the function returns from a block,
-- with calls interpreted to any depth, a run of the result with the same fuel returns.
pub analyse_purity-Keeps :
    (M : Model) (intrinsics names : List ℕ)
    → IsComplete M intrinsics names
    → (fuel : ℕ) → length names < fuel
    → (depth blocks : ℕ) (f : Function) → IsFormed f
    → HasNoCarry f
    → AllCallKnown intrinsics names f
    → Returns (analyse_purity fuel M intrinsics names) (λ m.
      Returns
        (dead_stmt_elimination (is_pure m) f)
        (λ out. Keeps M (interpret M depth blocks) f (out.0)))
unfolding analyse_purity
analyse_purity-Keeps M intrinsics names complete fuel h depth blocks f formed no_carry calls =
    let done =
      all_total M intrinsics names complete fuel names (assume_impure intrinsics)
        (let all = unseen-length names in omega arith) (λ k at. at)
        (assume_impure-Assumed intrinsics) in
    let m : Results = done.0 in
    rw (done.1) (
      dead_stmt_elimination-Keeps (is_pure m) M (interpret M depth blocks)
        (interpret-IsHonest M m (analyse_purity-Closed fuel M intrinsics names m (done.1)) depth
          blocks)
        f formed no_carry
        (known-AllAnswered intrinsics names m f
          (λ k callable. elim callable [
            | inl named ↦ done.3 k named
            | inr intrinsic ↦
                let assumed = assume_impure-Assumed intrinsics k intrinsic in
                (assumed.0, done.2 k (assumed.0) (assumed.1))
          ])
          calls))
