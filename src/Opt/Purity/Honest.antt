-- ===== src/Opt/Purity/Honest.antt =====
-- Calls, in the interpreter, of the functions that the analysis takes as pure.
use icewind.Common.{
  ℕ, zero, suc, ◌==◌, ==_iff, Bool-cases, ◌≡◌, refl, sym, ap, ◌∙◌, subst, inl, inr, true, List, [],
  ◌∷◌, ◌++◌, Option, none, some, Outcome, ok, index, unwrap,
}
use icewind.Rudder.Statements.{Statement, Block, Function}
use icewind.Interpreter.Values.{Value}
use icewind.Interpreter.RegisterFile.{RegisterFile}
use icewind.Interpreter.Blocks.{
  Model, Interpreter, BlockResult, next_block, return_value, Done, value_of, ended,
}
use icewind.Interpreter.Run.{
  step, keep, statements_from, interpret_block, blocks_from, interpret, with_arguments,
}
use icewind.Opt.Typed.{bind-ok}
use icewind.Opt.Passed.{unwrap-some}
use icewind.Opt.Blocks.{contains, targets_of, targets_from, block_targets}
use icewind.Opt.Effects.{IsHonest}
use icewind.Opt.Purity.Defs.{Results, is_pure, analyse_purity}
use icewind.Opt.Purity.Pure.{ArePure, BlocksArePure, Closed}
use icewind.Opt.Purity.Closed.{analyse_purity-Closed}
use icewind.Opt.Purity.Visited.{Expanded, block_iter-Covers}
use icewind.Opt.Purity.Safe.{Goes, IsSafe, contains_tail, step-IsSafe}

Goes-left : (xs ys : List ℕ) (r : BlockResult) → Goes xs r → Goes (xs ++ ys) r
unfolding contains
Goes-left [] ys (next_block k) h = absurd cc
Goes-left (x ∷ xs) ys (next_block k) h = elim (Bool-cases (x == k)) [
  | inl e ↦ rw e refl
  | inr n ↦ rw n (Goes-left xs ys (next_block k) (rw n at h))
]
Goes-left xs ys (return_value v) h = tt

Goes-right : (xs ys : List ℕ) (r : BlockResult) → Goes ys r → Goes (xs ++ ys) r
Goes-right [] ys r h = h
Goes-right (x ∷ xs) ys (next_block k) h =
    contains_tail x k (xs ++ ys) (Goes-right xs ys (next_block k) h)
Goes-right (x ∷ xs) ys (return_value v) h = tt

-- from a state with the register file, the result keeps it and goes to a target
abbrev Ends : List ℕ → RegisterFile → BlockResult × Interpreter → Type 0
Ends ts file out = ((out.1).register_file ≡ file) × Goes ts (out.0)

keep-register_file :
    (ref : ℕ) (v : Option Value) (i : Interpreter) → (keep ref v i).register_file ≡ i.register_file
unfolding keep
keep-register_file ref none i = refl
keep-register_file ref (some v) i = refl

statement-Ends :
    (xs ys : List ℕ) (file : RegisterFile) (d : Done)
    (k : Option Value → Interpreter → Outcome (BlockResult × Interpreter))
    (out : BlockResult × Interpreter)
    → IsSafe xs file d
    → ((v : Option Value) (i : Interpreter) → k v i ≡ ok out → Ends ys i.register_file out)
    → (elim d [ value_of v i ↦ k v i | ended result i ↦ ok (result, i) ]) ≡ ok out
    → Ends (xs ++ ys) file out
statement-Ends xs ys file (value_of v i) k out safe rest e =
    let tail = rest v i e in (tail.0 ∙ safe, Goes-right xs ys (out.0) (tail.1))
statement-Ends xs ys file (ended result i) k out safe rest e =
    let same : (result, i) ≡ out = cc in
    subst (Ends (xs ++ ys) file) same (safe.0, Goes-left xs ys result (safe.1))

block-keeps :
    (result : BlockResult) (i : Interpreter) (ts : List ℕ)
    (k : ℕ → Outcome (Option Value × RegisterFile)) (file : RegisterFile)
    (out : Option Value × RegisterFile)
    → Ends ts file (result, i)
    → ((next : ℕ) → contains ts next ≡ true → k next ≡ ok out → out.1 ≡ i.register_file)
    → (elim result [ next_block next ↦ k next | return_value v ↦ ok (v, i.register_file) ]) ≡ ok out
    → out.1 ≡ file
block-keeps (next_block next) i ts k file out ends rest e = rest next (ends.1) e ∙ ends.0
block-keeps (return_value v) i ts k file out ends rest e =
    let same : (v, i.register_file) ≡ out = cc in sym (ap (λ o. o.1) same) ∙ ends.0

BlocksArePure-index :
    (m : Results) (arena : List Block) (ks : List ℕ) (k : ℕ) (b : Block)
    → BlocksArePure m arena ks
    → contains ks k ≡ true
    → index arena k ≡ ok b
    → ArePure m b.statement_arena b.statements
unfolding contains
BlocksArePure-index m arena [] k b p h at = absurd cc
BlocksArePure-index m arena (x ∷ ks) k b p h at = elim (Bool-cases (x == k)) [
  | inl e ↦ p.0 b (ap (index arena) ((==_iff x k).0 e) ∙ at)
  | inr n ↦ BlocksArePure-index m arena ks k b (p.1) (rw n at h) at
]

module _ (M : Model) (m : Results)
    (call_function : ℕ → List Value → RegisterFile → Outcome (Option Value × RegisterFile))
    (honest : IsHonest (is_pure m) call_function) where
  statements_from-Ends :
      (arena : List Statement) (refs ts : List ℕ) (i : Interpreter)
      → ArePure m arena refs
      → targets_from arena refs ≡ ok ts
      → (out : BlockResult × Interpreter) → statements_from M call_function arena refs i ≡ ok out
      → Ends ts i.register_file out
  unfolding statements_from targets_from
  statements_from-Ends arena [] ts i p at out e = absurd cc
  statements_from-Ends arena (ref ∷ refs) ts i p at out e =
      let s = bind-ok (index arena ref) _ e in
      let done = bind-ok (step M call_function arena i (s.0)) _ (s.2) in
      let s' = bind-ok (index arena ref) _ at in
      let rest = bind-ok (targets_from arena refs) _ (s'.2) in
      let both : ok (s.0) ≡ ok (s'.0) = sym (s.1) ∙ s'.1 in
      let same_statement : s.0 ≡ s'.0 = cc in
      let swapped : targets_of (s.0) ++ rest.0 ≡ targets_of (s'.0) ++ rest.0 =
        ap (λ z. targets_of z ++ rest.0) same_statement in
      let whole : targets_of (s'.0) ++ rest.0 ≡ ts = cc in
      let safe =
        step-IsSafe M m call_function honest arena i (s.0) (p.0 (s.0) (s.1)) (done.0) (done.1) in
      subst (λ all. Ends all i.register_file out) (swapped ∙ whole)
        (statement-Ends (targets_of (s.0)) (rest.0) i.register_file (done.0)
          (λ v i'. statements_from M call_function arena refs (keep ref v i')) out safe
          (λ v i' e'.
            let tail =
              statements_from-Ends arena refs (rest.0) (keep ref v i') (p.1) (rest.1) out e' in
            (tail.0 ∙ keep-register_file ref v i', tail.1))
          (done.2))

  blocks_from-keeps :
      (function : Function) (blocks : List ℕ)
      → BlocksArePure m function.arena blocks
      → ((k : ℕ) → contains blocks k ≡ true → Expanded function.arena [] blocks k)
      → (fuel block : ℕ) → contains blocks block ≡ true
      → (i : Interpreter) (out : Option Value × RegisterFile)
      → blocks_from M call_function fuel function block i ≡ ok out
      → out.1 ≡ i.register_file
  unfolding blocks_from interpret_block block_targets contains
  blocks_from-keeps function blocks p closed zero block inside i out e = absurd cc
  blocks_from-keeps function blocks p closed (suc fuel) block inside i out e =
      let b = bind-ok (index function.arena block) _ e in
      let result = bind-ok (interpret_block M call_function i (b.0)) _ (b.2) in
      let x = closed block inside in
      let both : ok (b.0) ≡ ok (x.block) = sym (b.1) ∙ x.found in
      let same : b.0 ≡ x.block = cc in
      let targeted = subst (λ z. block_targets z ≡ ok x.targets) (sym same) x.targeted in
      let ends =
        statements_from-Ends b.0.statement_arena b.0.statements x.targets
          (record i { statement_values = λ ref. none })
          (BlocksArePure-index m function.arena blocks block (b.0) p inside (b.1)) targeted
          (result.0) (result.1) in
      block-keeps (result.0.0) (result.0.1) x.targets
        (λ next. blocks_from M call_function fuel function next (result.0.1)) i.register_file out
        ends
        (λ next goes e'.
          blocks_from-keeps function blocks p closed fuel next
            (elim (x.reached next goes) [ inl never ↦ absurd cc | inr given ↦ given ]) (result.0.1)
            out e')
        (result.2)

pub interpret-IsHonest :
    (M : Model) (m : Results)
    → Closed M m
    → (fuel blocks : ℕ) → IsHonest (is_pure m) (interpret M fuel blocks)
unfolding interpret is_pure
interpret-IsHonest M m c zero blocks name vs file out h e = absurd cc
interpret-IsHonest M m c (suc fuel) blocks name vs file out h e =
    let pure = c name (unwrap-some (m name) h) in
    let f = bind-ok (unwrap (M.functions name)) _ e in
    let both : some (f.0) ≡ some pure.function =
      sym (unwrap-some (M.functions name) (f.1)) ∙ pure.named in
    let same : f.0 ≡ pure.function = cc in
    let covers = block_iter-Covers pure.function pure.blocks pure.iterated in
    let started : Interpreter = record {
      locals = with_arguments (f.0).parameters vs (λ name. none);
      statement_values = λ ref. none;
      register_file = file;
      flags = 0;
    } in
    let run : blocks_from M (interpret M fuel blocks) blocks pure.function pure.function.entry_block
          started
        ≡ ok out =
      subst (λ g. blocks_from M (interpret M fuel blocks) blocks g g.entry_block started ≡ ok out)
        same (f.2) in
    blocks_from-keeps M m (interpret M fuel blocks) (interpret-IsHonest M m c fuel blocks)
      pure.function pure.blocks pure.pure (covers.1) blocks pure.function.entry_block (covers.0)
      started out run

-- When the purity analysis returns and says that a function is pure, every call of that function
-- that the interpreter returns from leaves the register file as it was.
pub interpret-is_pure :
    (fuel : ℕ) (M : Model) (intrinsics names : List ℕ) (m : Results)
    → analyse_purity fuel M intrinsics names ≡ ok m
    → (depth blocks name : ℕ) (arguments : List Value) (file : RegisterFile)
      (out : Option Value × RegisterFile)
    → is_pure m name ≡ ok true
    → interpret M depth blocks name arguments file ≡ ok out
    → out.1 ≡ file
interpret-is_pure fuel M intrinsics names m e depth blocks name arguments file out h =
    interpret-IsHonest M m (analyse_purity-Closed fuel M intrinsics names m e) depth blocks name
      arguments file out h
