-- ===== src/Opt/Eliminated.antt =====
-- dead_stmt_elimination.rs as a whole, against the interpreter.
use icewind.Common.{
  ℕ, zero, suc, ◌≡◌, ◌⊎◌, inl, inr, refl, ◌∙◌, Bool, false, List, length, Option, none, Outcome, ok,
  index,
}
use icewind.Rudder.Statements.{Statement, Block, Function}
use icewind.Interpreter.Values.{Value}
use icewind.Interpreter.RegisterFile.{RegisterFile}
use icewind.Interpreter.Blocks.{Model, Interpreter, BlockResult, next_block, return_value}
use icewind.Interpreter.Run.{statements_from, interpret_block, blocks_from}
use icewind.Opt.Typed.{bind-ok}
use icewind.Opt.Uses.{has_side_effects}
use icewind.Opt.Dead.{remove}
use icewind.Opt.Effects.{is_carry, IsHonest}
use icewind.Opt.Killed.{Unused, statements-remove}

-- No block has an addition with carry.
abbrev pub HasNoCarry : Function → Type 0
HasNoCarry f =
    (k : ℕ) (b : Block) (j : ℕ) (s : Statement)
    → index f.arena k ≡ ok b
    → index b.statement_arena j ≡ ok s
    → is_carry s ≡ false

-- Every block of the second function is the one of the first, or that without a dead statement.
unfoldable pub IsKilled : (ℕ → Outcome Bool) → (f g : Function) → Type 0
IsKilled is_pure f g =
    (k : ℕ)
    → (index g.arena k ≡ index f.arena k)
      ⊎ ((b : Block) × (b' : Block) × (d : ℕ) × (dead : Statement) × (index f.arena k ≡ ok b)
          × (index g.arena k ≡ ok b')
          × (b'.statement_arena ≡ b.statement_arena)
          × (remove b.statements d ≡ ok b'.statements)
          × Unused b.statement_arena d b.statements
          × (index b.statement_arena d ≡ ok dead)
          × (has_side_effects is_pure dead ≡ ok false))

-- Whatever a run of the first function returns, a run of the second one with the same fuel returns.
pub record Keeps (M : Model)
    (call_function : ℕ → List Value → RegisterFile → Outcome (Option Value × RegisterFile))
    (f g : Function) : Type 0 where
  pub entry : g.entry_block ≡ f.entry_block
  pub parameters : g.parameters ≡ f.parameters
  pub size : length g.arena ≡ length f.arena
  pub returns :
      (n k : ℕ) (i : Interpreter) (out : Option Value × RegisterFile)
      → blocks_from M call_function n f k i ≡ ok out
      → blocks_from M call_function n g k i ≡ ok out

module _ (is_pure : ℕ → Outcome Bool) (M : Model)
    (call_function : ℕ → List Value → RegisterFile → Outcome (Option Value × RegisterFile))
    (honest : IsHonest is_pure call_function) (f g : Function) (no_carry : HasNoCarry f)
    (killed : IsKilled is_pure f g) where
  clear_values :
      (n k : ℕ) (j : Interpreter) (m : ℕ → Option Value)
      → blocks_from M call_function n g k (record j { statement_values = m })
        ≡ blocks_from M call_function n g k j
  unfolding blocks_from interpret_block
  clear_values zero k j m = refl
  clear_values (suc n) k j m = refl

  go_on :
      (n : ℕ) (result : BlockResult) (j : Interpreter) (m : ℕ → Option Value)
      (out : Option Value × RegisterFile)
      → ((k : ℕ)
          → blocks_from M call_function n f k j ≡ ok out
          → blocks_from M call_function n g k j ≡ ok out)
      → (elim result [
        | next_block next ↦ blocks_from M call_function n f next j
        | return_value v ↦ ok (v, j.register_file)
      ])
        ≡ ok out
      → (elim result [
        | next_block next ↦ blocks_from M call_function n g next (record j { statement_values = m })
        | return_value v ↦ ok (v, j.register_file)
      ])
        ≡ ok out
  go_on n (next_block next) j m out ih e = clear_values n next j m ∙ ih next e
  go_on n (return_value v) j m out ih e = e

  pub blocks-IsKilled :
      (n k : ℕ) (i : Interpreter) (out : Option Value × RegisterFile)
      → blocks_from M call_function n f k i ≡ ok out
      → blocks_from M call_function n g k i ≡ ok out
  unfolding blocks_from interpret_block IsKilled
  blocks-IsKilled zero k i out e = absurd cc
  blocks-IsKilled (suc n) k i out e = elim (killed k) [
    | inl same ↦
        let found = bind-ok (index f.arena k) _ e in
        let ran = bind-ok (interpret_block M call_function i (found.0)) _ (found.2) in
        let j : Interpreter = ran.0.1 in
        rw (same, found.1, ran.1)
          (go_on n (ran.0.0) j j.statement_values out (λ next. blocks-IsKilled n next j out)
            (ran.2))
    | inr (b, b', d, dead, h, h', ha, hr, hu, at, free) ↦
        let start : Interpreter = record i { statement_values = λ ref. none } in
        let ran =
          bind-ok (statements_from M call_function b.statement_arena b.statements start) _
            (rw h at e) in
        let j : Interpreter = ran.0.1 in
        let without =
          statements-remove M call_function b.statement_arena d is_pure honest dead at free
            (no_carry k b d dead h at) b.statements b'.statements start (λ ref. none) (ran.0) hr
            (λ ref ne. refl) hu (ran.1) in
        rw (h', ha, without.1)
          (go_on n (ran.0.0) j (without.0) out (λ next. blocks-IsKilled n next j out) (ran.2))
  ]

module _ (M : Model)
    (call_function : ℕ → List Value → RegisterFile → Outcome (Option Value × RegisterFile)) where
  pub refl-Keeps : (f : Function) → Keeps M call_function f f
  refl-Keeps f = record { entry = refl; parameters = refl; size = refl; returns = λ n k i out e. e }

  pub trans-Keeps :
      (f g h : Function)
      → Keeps M call_function f g
      → Keeps M call_function g h
      → Keeps M call_function f h
  trans-Keeps f g h r r' = record {
    entry = r'.entry ∙ r.entry;
    parameters = r'.parameters ∙ r.parameters;
    size = r'.size ∙ r.size;
    returns = λ n k i out e. r'.returns n k i out (r.returns n k i out e);
  }
