-- ===== src/Opt/Dead.antt =====
-- dead_stmt_elimination.rs, with `kill_statement` of a block.
use icewind.Common.{
  ℕ, ◌==◌, ◌||◌, Bool, true, false, List, [], ◌∷◌, set, Option, none, some, Outcome, ok, panic,
  ◌>>=◌, index,
}
use icewind.Rudder.Statements.{Statement, Block, Function}
use icewind.Opt.Blocks.{block_iter}
use icewind.Opt.Uses.{analyse, is_dead}

-- `index_of_statement` and `remove`
unfoldable pub remove : List ℕ → ℕ → Outcome (List ℕ)
remove [] stmt = panic
remove (x ∷ xs) stmt = elim (x == stmt) [
  | true ↦ ok xs
  | false ↦ do rest ← remove xs stmt; ok (x ∷ rest)
]

unfoldable pub kill_statement : Block → ℕ → Outcome Block
kill_statement b stmt = do
  statements ← remove b.statements stmt
  ok (record b { statements = statements })

module _ (is_pure : ℕ → Outcome Bool) where
  unfoldable pub first_dead : List Statement → List ℕ → List ℕ → Outcome (Option ℕ)
  first_dead arena keys [] = ok none
  first_dead arena keys (stmt ∷ stmts) = do
    dead ← is_dead is_pure arena keys stmt
    elim dead [ true ↦ ok (some stmt) | false ↦ first_dead arena keys stmts ]

  unfoldable pub kill_dead : Function → ℕ → Block → Option ℕ → Outcome (Function × Bool)
  kill_dead f block b none = ok (f, false)
  kill_dead f block b (some stmt) = do
    b' ← kill_statement b stmt
    ok (record f { arena = set f.arena block b' }, true)

  unfoldable pub run_on_block : Function → ℕ → Outcome (Function × Bool)
  run_on_block f block = do
    b ← index f.arena block
    keys ← analyse b.statement_arena b.statements
    dead ← first_dead b.statement_arena keys b.statements
    kill_dead f block b dead

  unfoldable pub run_on_blocks : Function → List ℕ → Outcome (Function × Bool)
  run_on_blocks f [] = ok (f, false)
  run_on_blocks f (block ∷ blocks) = do
    first ← run_on_block f block
    rest ← run_on_blocks (first.0) blocks
    ok (rest.0, first.1 || rest.1)

  unfoldable pub dead_stmt_elimination : Function → Outcome (Function × Bool)
  dead_stmt_elimination f = block_iter f >>= run_on_blocks f
