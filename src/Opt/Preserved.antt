-- ===== src/Opt/Preserved.antt =====
-- A function with threaded terminators, run next to the function as it was.
use icewind.Common.{
  ℕ, zero, suc, ◌+◌, ◌==◌, false, List, [], ◌∷◌, length, ◌≡◌, ◌⊎◌, inl, inr, refl, sym, ap, ◌∙◌,
  subst, arith, Option, none, some, Outcome, ok, ◌>>=◌, index, unwrap, if◌then◌else◌, ==_of_ne,
}
use icewind.Rudder.Statements
use icewind.Rudder.Statements.{Statement, Block, Function}
use icewind.Interpreter.Values.{Value}
use icewind.Interpreter.RegisterFile.{RegisterFile}
use icewind.Interpreter.Blocks.{Model, Interpreter, BlockResult, next_block, return_value}
use icewind.Interpreter.Run.{step, statements_from, interpret_block, blocks_from}
use icewind.Interpreter.Extends.{Extends, unchanged, bind-Extends, result-Extends, trans-Extends}
use icewind.Interpreter.Fuel.{blocks-Extends}
use icewind.Opt.Typed.{bind-ok}
use icewind.Opt.Blocks.{terminator_statement, last_of}
use icewind.Opt.Threading.{target_for_threadable, jump_target}
use icewind.Opt.Simulated.{Threaded, Follows, statements-Follows}

-- Every block of the second function is the one of the first, or that with its terminator
-- threaded.
unfoldable pub IsThreaded : (f f' : Function) → Type 0
IsThreaded f f' =
    (k : ℕ)
    → (index f'.arena k ≡ index f.arena k)
      ⊎ ((b : Block) × (b' : Block) × (index f.arena k ≡ ok b)
          × (index f'.arena k ≡ ok b')
          × (b'.statements ≡ b.statements)
          × (length b'.statement_arena ≡ length b.statement_arena)
          × ((j : ℕ) → Threaded f b.statement_arena b'.statement_arena j))

-- a block with one statement, a jump to `t'`
abbrev OnlyJumps : Function → ℕ → ℕ → Type 0
OnlyJumps f t t' =
    (b : Block) × (ref : ℕ) × (index f.arena t ≡ ok b)
    × (b.statements ≡ ref ∷ [])
    × (index b.statement_arena ref ≡ ok (Statements.jump t'))

pub jump_target-some : (s : Statement) {t : ℕ} → jump_target s ≡ some t → s ≡ Statements.jump t
unfolding jump_target
jump_target-some (Statements.jump x) h = let same : x ≡ _ = cc in ap Statements.jump same
jump_target-some _ h = absurd cc

one_statement :
    (arena : List Statement) (xs : List ℕ) (t : ℕ)
    → (if length xs == 1
        then (do ref ← unwrap (last_of xs); s ← index arena ref; ok (jump_target s))
        else ok none)
      ≡ ok (some t)
    → (ref : ℕ) × (xs ≡ ref ∷ []) × (index arena ref ≡ ok (Statements.jump t))
unfolding last_of
one_statement arena [] t h = absurd cc
one_statement arena (x ∷ []) t h =
    let found : (s : Statement) × (index arena x ≡ ok s) × (ok (jump_target s) ≡ ok (some t)) =
      bind-ok (index arena x) (λ s. ok (jump_target s)) h in
    let jumps : jump_target (found.0) ≡ some t = let e = found.2 in cc in
    (x, refl, found.1 ∙ ap ok (jump_target-some (found.0) jumps))
one_statement arena (x ∷ y ∷ xs) t h =
    let long : (suc (suc (length xs)) == 1) ≡ false = ==_of_ne _ _ (omega arith) in
    let none_found : ok none ≡ ok (some t) = rw long at h in absurd cc

target_for_threadable-OnlyJumps :
    (f : Function) (t t' : ℕ) → target_for_threadable f t ≡ ok (some t') → OnlyJumps f t t'
unfolding target_for_threadable terminator_statement
target_for_threadable-OnlyJumps f t t' h =
    let found = bind-ok (index f.arena t) _ h in
    let only = one_statement (found.0).statement_arena (found.0).statements t' (found.2) in
    (found.0, only.0, found.1, only.1, only.2)

module _ (M : Model)
    (call_function : ℕ → List Value → RegisterFile → Outcome (Option Value × RegisterFile)) where
  -- what `blocks_from` does from the state with no values
  clear_values :
      (n : ℕ) (f : Function) (k : ℕ) (i : Interpreter)
      → blocks_from M call_function n f k (record i { statement_values = λ ref. none })
        ≡ blocks_from M call_function n f k i
  unfolding blocks_from interpret_block
  clear_values zero f k i = refl
  clear_values (suc n) f k i = refl

  jump_once :
      (n : ℕ) (f : Function) (t t' : ℕ) (i : Interpreter)
      → OnlyJumps f t t'
      → blocks_from M call_function (suc n) f t i ≡ blocks_from M call_function n f t' i
  unfolding blocks_from interpret_block statements_from step
  jump_once n f t t' i (b, ref, h, hs, hj) = rw (h, hs, hj) (clear_values n f t' i)

  skip :
      (n : ℕ) (f : Function) (t t' : ℕ) (i : Interpreter)
      → target_for_threadable f t ≡ ok (some t')
      → Extends (blocks_from M call_function n f t i) (blocks_from M call_function n f t' i)
  unfolding blocks_from
  skip zero f t t' i h = λ ne. absurd (ne refl)
  skip (suc n) f t t' i h =
      let once : blocks_from M call_function (suc n) f t i ≡ blocks_from M call_function n f t' i =
        jump_once n f t t' i (target_for_threadable-OnlyJumps f t t' h) in
      let more : Extends (blocks_from M call_function n f t' i)
          (blocks_from M call_function (n + 1) f t' i) =
        blocks-Extends M call_function call_function (λ name vs file. unchanged) n 1 f t' i in
      let one : n + 1 ≡ suc n = omega arith in
      subst (λ r. Extends r (blocks_from M call_function (suc n) f t' i)) (sym once)
        (subst
          (λ m.
            Extends (blocks_from M call_function n f t' i) (blocks_from M call_function m f t' i))
          one more)

  module _ (f f' : Function) (threaded : IsThreaded f f') where
    go_on :
        (n : ℕ) (out out' : Outcome (BlockResult × Interpreter))
        → Follows f out out'
        → ((k : ℕ) (i : Interpreter)
            → Extends (blocks_from M call_function n f k i) (blocks_from M call_function n f' k i))
        → Extends
            (out >>= λ result. elim (result.0) [
              | next_block next ↦ blocks_from M call_function n f next (result.1)
              | return_value v ↦ ok (v, (result.1).register_file)
            ])
            (out' >>= λ result. elim (result.0) [
              | next_block next ↦ blocks_from M call_function n f' next (result.1)
              | return_value v ↦ ok (v, (result.1).register_file)
            ])
    unfolding Follows
    go_on n out out' follows ih = elim follows [
      | inl extends ↦
          bind-Extends out out' _ _ extends
            (λ result. result-Extends (result.0) _ _ _ (λ next. ih next (result.1)))
      | inr (t, t', i, h, e, e') ↦ rw (e, e') (trans-Extends (skip n f t t' i h) (ih t' i))
    ]

    pub blocks-IsThreaded :
        (n k : ℕ) (i : Interpreter)
        → Extends (blocks_from M call_function n f k i) (blocks_from M call_function n f' k i)
    unfolding blocks_from interpret_block IsThreaded
    blocks-IsThreaded zero k i = λ ne. absurd (ne refl)
    blocks-IsThreaded (suc n) k i = elim (threaded k) [
      | inl e ↦ rw e (
          bind-Extends (index f.arena k) (index f.arena k) _ _ unchanged (λ b.
            bind-Extends (interpret_block M call_function i b) (interpret_block M call_function i b)
              _ _ unchanged
              (λ result.
                result-Extends (result.0) _ _ _ (λ next. blocks-IsThreaded n next (result.1)))))
      | inr (b, b', h, h', hs, hl, ht) ↦
          rw (h, h', hs)
            (go_on n _ _
              (statements-Follows M call_function f b.statement_arena b'.statement_arena hl ht
                b.statements (record i { statement_values = λ ref. none }))
              (blocks-IsThreaded n))
    ]
