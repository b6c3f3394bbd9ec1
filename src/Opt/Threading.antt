-- ===== src/Opt/Threading.antt =====
-- jump_threading.rs: a jump to a block that only jumps goes to the target of that block.
use icewind.Common.{
  ℕ, ◌==◌, Bool, true, false, ◌||◌, if◌then◌else◌, List, [], ◌∷◌, length, set, Option, none, some,
  Outcome, ok, ◌>>=◌, index, unwrap,
}
use icewind.Rudder.Statements
use icewind.Rudder.Statements.{Statement, Block, Function}
use icewind.Opt.Blocks.{terminator_statement, block_iter}

unfoldable pub jump_target : Statement → Option ℕ
jump_target (Statements.jump target) = some target
jump_target _ = none

unfoldable pub target_for_threadable : Function → ℕ → Outcome (Option ℕ)
target_for_threadable f block = do
  b ← index f.arena block
  if length b.statements == 1
      then (do
        ref ← unwrap (terminator_statement b)
        s ← index b.statement_arena ref
        ok (jump_target s))
      else ok none

unfoldable pub threaded_jump : Option ℕ → Option Statement
threaded_jump none = none
threaded_jump (some to) = some (Statements.jump to)

unfoldable pub threaded_branch : ℕ → ℕ → ℕ → Option ℕ → Option ℕ → Option Statement
threaded_branch c t f none none = none
threaded_branch c t f (some t') none = some (Statements.branch c t' f)
threaded_branch c t f none (some f') = some (Statements.branch c t f')
threaded_branch c t f (some t') (some f') = some (Statements.branch c t' f')

-- the statement that replaces the terminator
unfoldable pub thread : Function → Statement → Outcome (Option Statement)
thread f (Statements.jump target) = do to ← target_for_threadable f target; ok (threaded_jump to)
thread f (Statements.branch c true_target false_target) = do
  to ← target_for_threadable f true_target
  to' ← target_for_threadable f false_target
  ok (threaded_branch c true_target false_target to to')
thread f _ = ok none

-- `replace` of a statement of a block
unfoldable pub replace : Function → ℕ → Block → ℕ → Statement → Function
replace f block b ref s = record f {
  arena = set f.arena block (record b { statement_arena = set b.statement_arena ref s });
}

unfoldable pub replaced : Function → ℕ → Block → ℕ → Option Statement → Function × Bool
replaced f block b ref none = (f, false)
replaced f block b ref (some s) = (replace f block b ref s, true)

unfoldable pub run_on_block : Function → ℕ → Outcome (Function × Bool)
run_on_block f block = do
  b ← index f.arena block
  ref ← unwrap (terminator_statement b)
  s ← index b.statement_arena ref
  s' ← thread f s
  ok (replaced f block b ref s')

unfoldable pub run_on_blocks : Function → List ℕ → Outcome (Function × Bool)
run_on_blocks f [] = ok (f, false)
run_on_blocks f (block ∷ blocks) = do
  first ← run_on_block f block
  rest ← run_on_blocks (first.0) blocks
  ok (rest.0, first.1 || rest.1)

unfoldable pub jump_threading : Function → Outcome (Function × Bool)
jump_threading f = block_iter f >>= run_on_blocks f
