-- ===== src/Opt/Blocks.antt =====
-- `Block` and `BlockIterator`, without the edits of a block.
use icewind.Common.{
  ℕ, zero, suc, ◌+◌, ◌*◌, ◌==◌, ◌||◌, Bool, true, false, List, [], ◌∷◌, ◌++◌, length, Option, none,
  some, Outcome, ok, hang, ◌>>=◌, index,
}
use icewind.Rudder.Statements
use icewind.Rudder.Statements.{Statement, Block, Function}

unfoldable pub last_of : List ℕ → Option ℕ
last_of [] = none
last_of (x ∷ []) = some x
last_of (x ∷ y ∷ xs) = last_of (y ∷ xs)

unfoldable pub terminator_statement : Block → Option ℕ
terminator_statement b = last_of b.statements

-- the targets of a statement
unfoldable pub targets_of : Statement → List ℕ
targets_of (Statements.jump target) = target ∷ []
targets_of (Statements.branch c t f) = t ∷ f ∷ []
targets_of _ = []

unfoldable pub targets_from : List Statement → List ℕ → Outcome (List ℕ)
targets_from arena [] = ok []
targets_from arena (ref ∷ refs) = do
  s ← index arena ref
  rest ← targets_from arena refs
  ok (targets_of s ++ rest)

unfoldable pub block_targets : Block → Outcome (List ℕ)
block_targets b = targets_from b.statement_arena b.statements

unfoldable pub contains : List ℕ → ℕ → Bool
contains [] k = false
contains (x ∷ xs) k = x == k || contains xs k

-- on top of a stack, the last one first
unfoldable pub push_all : List ℕ → List ℕ → List ℕ
push_all [] stack = stack
push_all (x ∷ xs) stack = push_all xs (x ∷ stack)

-- `BlockIterator` until it ends, with fuel for the blocks it takes off `remaining`
unfoldable pub iterate : ℕ → List Block → List ℕ → List ℕ → Outcome (List ℕ)
iterate zero arena visited remaining = hang
iterate (suc fuel) arena visited [] = ok []
iterate (suc fuel) arena visited (current ∷ remaining) = elim (contains visited current) [
  | true ↦ iterate fuel arena visited remaining
  | false ↦ do
    b ← index arena current
    ts ← block_targets b
    rest ← iterate fuel arena (current ∷ visited) (push_all ts remaining)
    ok (current ∷ rest)
]

-- no statement has more than two targets
unfoldable pub most_targets : List Block → ℕ
most_targets [] = 0
most_targets (b ∷ bs) = 2 * length b.statements + most_targets bs

unfoldable pub block_iter : Function → Outcome (List ℕ)
block_iter f = iterate (2 + most_targets f.arena) f.arena [] (f.entry_block ∷ [])
