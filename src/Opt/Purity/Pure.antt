-- ===== src/Opt/Purity/Pure.antt =====
-- What a purity says of the statements of a function, for the results of the analysis so far.
use icewind.Common.{ℕ, ◌≡◌, Bool, true, List, [], ◌∷◌, some, ok, index}
use icewind.Rudder.Statements
use icewind.Rudder.Statements.{Statement, Block, Function}
use icewind.Interpreter.Blocks.{Model}
use icewind.Opt.Blocks.{block_iter}
use icewind.Opt.Purity.Defs.{Results}

-- no write, and calls of pure functions only
abbrev pub IsPure : Results → Statement → Type 0
IsPure m (Statements.call target args t) = m target ≡ some true
IsPure m (Statements.write_memory address v) = ⊥
IsPure m (Statements.write_pc v) = ⊥
IsPure m (Statements.write_register offset v) = ⊥
IsPure m (Statements.read_memory address size) = ⊥
IsPure m _ = Unit {0}

abbrev pub ArePure : Results → List Statement → List ℕ → Type 0
ArePure m arena [] = Unit {0}
ArePure m arena (ref ∷ refs) =
    ((s : Statement) → index arena ref ≡ ok s → IsPure m s) × ArePure m arena refs

abbrev pub BlocksArePure : Results → List Block → List ℕ → Type 0
BlocksArePure m arena [] = Unit {0}
BlocksArePure m arena (k ∷ ks) =
    ((b : Block) → index arena k ≡ ok b → ArePure m b.statement_arena b.statements)
    × BlocksArePure m arena ks

-- a function of the model with pure blocks
pub record IsPureFunction (M : Model) (m : Results) (name : ℕ) : Type 0 where
  pub function : Function
  pub named : M.functions name ≡ some function
  pub blocks : List ℕ
  pub iterated : block_iter function ≡ ok blocks
  pub pure : BlocksArePure m function.arena blocks

-- The results call only functions pure whose reachable statements are.
abbrev pub Closed : Model → Results → Type 0
Closed M m = (name : ℕ) → m name ≡ some true → IsPureFunction M m name

abbrev pub Grows : Results → Results → Type 0
Grows m m' = (name : ℕ) (pure : Bool) → m name ≡ some pure → m' name ≡ some pure

pub IsPure-Grows : (m m' : Results) → Grows m m' → (s : Statement) → IsPure m s → IsPure m' s
IsPure-Grows m m' g (Statements.call target args t) p = g target true p
IsPure-Grows m m' g (Statements.write_memory address v) p = elim p [ ]
IsPure-Grows m m' g (Statements.write_pc v) p = elim p [ ]
IsPure-Grows m m' g (Statements.write_register offset v) p = elim p [ ]
IsPure-Grows m m' g (Statements.read_memory address size) p = elim p [ ]
IsPure-Grows m m' g _ p = tt

pub ArePure-Grows :
    (m m' : Results)
    → Grows m m'
    → (arena : List Statement) (refs : List ℕ) → ArePure m arena refs
    → ArePure m' arena refs
ArePure-Grows m m' g arena [] p = tt
ArePure-Grows m m' g arena (ref ∷ refs) p =
    (λ s e. IsPure-Grows m m' g s (p.0 s e), ArePure-Grows m m' g arena refs (p.1))

pub BlocksArePure-Grows :
    (m m' : Results)
    → Grows m m'
    → (arena : List Block) (ks : List ℕ) → BlocksArePure m arena ks
    → BlocksArePure m' arena ks
BlocksArePure-Grows m m' g arena [] p = tt
BlocksArePure-Grows m m' g arena (k ∷ ks) p = (
  λ b e. ArePure-Grows m m' g b.statement_arena b.statements (p.0 b e),
  BlocksArePure-Grows m m' g arena ks (p.1),
)

pub IsPureFunction-Grows :
    (M : Model) (m m' : Results) (name : ℕ)
    → Grows m m'
    → IsPureFunction M m name
    → IsPureFunction M m' name
IsPureFunction-Grows M m m' name g p = record {
  function = p.function;
  named = p.named;
  blocks = p.blocks;
  iterated = p.iterated;
  pure = BlocksArePure-Grows m m' g p.function.arena p.blocks p.pure;
}
