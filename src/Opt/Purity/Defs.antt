-- ===== src/Opt/Purity/Defs.antt =====
-- `PurityAnalysis`. The results so far are a function from names; the set of functions under way is
-- a list, which a call extends and its return restores.
use icewind.Common.{
  ℕ, zero, suc, ◌==◌, if◌then◌else◌, Bool, true, false, List, [], ◌∷◌, Option, none, some, Outcome,
  ok, hang, ◌>>=◌, index, unwrap,
}
use icewind.Rudder.Statements
use icewind.Rudder.Statements.{Statement, Block, Function}
use icewind.Interpreter.Blocks.{Model}
use icewind.Opt.Blocks.{contains, block_iter}

abbrev pub Results : Type 0
Results = ℕ → Option Bool

unfoldable pub record_result : Results → ℕ → Bool → Results
record_result m name pure k = if k == name then some pure else m k

-- the closure in `all`, where `determine` is the recursive call. A panic and an assertion are pure,
-- as `TREAT_PANICS_AS_PURE_DANGEROUS_UNSAFE` has it.
unfoldable pub is_pure_statement :
    (ℕ → Results → Outcome (Bool × Results))
    → List ℕ
    → Statement
    → Results
    → Outcome (Bool × Results)
is_pure_statement determine seen (Statements.call target args t) m =
    if contains seen target then ok (false, m) else determine target m
is_pure_statement determine seen (Statements.write_memory address v) m = ok (false, m)
is_pure_statement determine seen (Statements.write_pc v) m = ok (false, m)
is_pure_statement determine seen (Statements.write_register offset v) m = ok (false, m)
is_pure_statement determine seen (Statements.read_memory address size) m = ok (false, m)
is_pure_statement determine seen _ m = ok (true, m)

unfoldable pub all_statements :
    (ℕ → Results → Outcome (Bool × Results))
    → List ℕ
    → List Statement
    → List ℕ
    → Results
    → Outcome (Bool × Results)
all_statements determine seen arena [] m = ok (true, m)
all_statements determine seen arena (ref ∷ refs) m = do
  s ← index arena ref
  out ← is_pure_statement determine seen s m
  elim (out.0) [
    | true ↦ all_statements determine seen arena refs (out.1)
    | false ↦ ok (false, out.1)
  ]

unfoldable pub all_blocks :
    (ℕ → Results → Outcome (Bool × Results))
    → List ℕ
    → List Block
    → List ℕ
    → Results
    → Outcome (Bool × Results)
all_blocks determine seen arena [] m = ok (true, m)
all_blocks determine seen arena (block ∷ blocks) m = do
  b ← index arena block
  out ← all_statements determine seen b.statement_arena b.statements m
  elim (out.0) [ true ↦ all_blocks determine seen arena blocks (out.1) | false ↦ ok (false, out.1) ]

-- with fuel for the depth of calls
unfoldable pub determine_purity_recursive :
    ℕ → Model → List ℕ → ℕ → Results → Outcome (Bool × Results)
determine_purity_recursive zero M seen name m = hang
determine_purity_recursive (suc fuel) M seen name m = elim (m name) [
  | some pure ↦ ok (pure, m)
  | none ↦ do
    function ← unwrap (M.functions name)
    blocks ← block_iter function
    out ←
        all_blocks (determine_purity_recursive fuel M (name ∷ seen)) (name ∷ seen) function.arena
          blocks m
    ok (out.0, record_result (out.1) name (out.0))
]

unfoldable pub determine_all : ℕ → Model → List ℕ → Results → Outcome Results
determine_all fuel M [] m = ok m
determine_all fuel M (name ∷ names) m = do
  out ← determine_purity_recursive fuel M [] name m
  determine_all fuel M names (out.1)

unfoldable pub assume_impure : List ℕ → Results
assume_impure [] = λ name. none
assume_impure (name ∷ names) = record_result (assume_impure names) name false

-- `new`, for the names of the functions of the model and of the intrinsics
unfoldable pub analyse_purity : ℕ → Model → List ℕ → List ℕ → Outcome Results
analyse_purity fuel M intrinsics names = determine_all fuel M names (assume_impure intrinsics)

unfoldable pub is_pure : Results → ℕ → Outcome Bool
is_pure m name = unwrap (m name)
