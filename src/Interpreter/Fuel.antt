-- ===== src/Interpreter/Fuel.antt =====
-- `interpret` with different amounts of fuel.
use icewind.Common.{
  ℕ, zero, suc, ◌+◌, List, [], ◌∷◌, ◌≡◌, ◌≢◌, refl, arith, Outcome, hang, unwrap, index, Option,
  none,
}
use icewind.Rudder.Statements.{Statement, Function}
use icewind.Interpreter.Values.{Value}
use icewind.Interpreter.RegisterFile.{RegisterFile}
use icewind.Interpreter.Blocks.{Model, Interpreter}
use icewind.Interpreter.Run.{step, keep, statements_from, interpret_block, blocks_from, interpret}
use icewind.Interpreter.Extends.{
  Extends, unchanged, bind-Extends, done-Extends, result-Extends, step-Extends,
}

suc_more : (fuel more : ℕ) → suc fuel + more ≡ suc (fuel + more)
suc_more fuel more = omega arith

module _ (M : Model)
    (before after : ℕ → List Value → RegisterFile → Outcome (Option Value × RegisterFile))
    (calls : (name : ℕ) (vs : List Value) (file : RegisterFile)
      → Extends (before name vs file) (after name vs file)) where
  statements-Extends :
      (arena : List Statement) (refs : List ℕ) (i : Interpreter)
      → Extends (statements_from M before arena refs i) (statements_from M after arena refs i)
  unfolding statements_from
  statements-Extends arena [] i = unchanged
  statements-Extends arena (ref ∷ refs) i =
      bind-Extends (index arena ref) (index arena ref) _ _ unchanged (λ s.
        bind-Extends (step M before arena i s) (step M after arena i s) _ _
          (step-Extends M before after calls arena arena (λ v. unchanged) i s)
          (λ done. done-Extends done _ _ _ (λ v i'. statements-Extends arena refs (keep ref v i'))))

  pub blocks-Extends :
      (fuel more : ℕ) (function : Function) (block : ℕ) (i : Interpreter)
      → Extends
          (blocks_from M before fuel function block i)
          (blocks_from M after (fuel + more) function block i)
  unfolding blocks_from interpret_block
  blocks-Extends zero more function block i = λ ne. absurd (ne refl)
  blocks-Extends (suc fuel) more function block i = rw (suc_more fuel more) (
      bind-Extends (index function.arena block) (index function.arena block) _ _ unchanged (λ b.
        bind-Extends (interpret_block M before i b) (interpret_block M after i b) _ _
          (statements-Extends b.statement_arena b.statements
            (record i { statement_values = λ ref. none }))
          (λ result.
            result-Extends (result.0) _ _ _
              (λ next. blocks-Extends fuel more function next (result.1)))))

-- A call that returns or panics with some fuel does the same with more, for calls and for the
-- blocks of each call.
pub interpret_more_fuel :
    (M : Model) (fuel more blocks extra name : ℕ) (arguments : List Value) (file : RegisterFile)
    → interpret M fuel blocks name arguments file ≢ hang
    → interpret M (fuel + more) (blocks + extra) name arguments file
      ≡ interpret M fuel blocks name arguments file
unfolding interpret
interpret_more_fuel M zero more blocks extra name arguments file = λ ne. absurd (ne refl)
interpret_more_fuel M (suc fuel) more blocks extra name arguments file = rw (suc_more fuel more) (
    bind-Extends (unwrap (M.functions name)) (unwrap (M.functions name)) _ _ unchanged (λ function.
      blocks-Extends M (interpret M fuel blocks) (interpret M (fuel + more) (blocks + extra))
        (interpret_more_fuel M fuel more blocks extra) blocks extra function _ _))
