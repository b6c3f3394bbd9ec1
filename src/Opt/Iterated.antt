-- ===== src/Opt/Iterated.antt =====
-- The iterator over blocks, jump_threading.rs as a whole, and what the theorem on it needs.
use icewind.Common.{
  ℕ, zero, suc, ◌+◌, ◌*◌, ◌==◌, ◌<◌, ◌≤◌, false, List, [], ◌∷◌, ◌++◌, length, ◌≡◌, inl, inr, refl,
  sym, ap, subst, arith, some, ok, index, Bool-cases, ==_of_eq, Returns, get_elem?, if◌then◌else◌,
}
use icewind.Rudder.Statements
use icewind.Rudder.Statements.{Statement, Block, Function}
use icewind.Opt.Blocks.{
  targets_of, targets_from, block_targets, contains, push_all, iterate, most_targets, block_iter,
}
use icewind.Opt.Threading.{jump_threading}
use icewind.Opt.Formed.{Within, IsFormedBlock, IsFormed, index_total}
use icewind.Opt.Passed.{Refines, run_on_blocks_total, unwrap-some}

append-Within : (n : ℕ) (xs ys : List ℕ) → Within n xs → Within n ys → Within n (xs ++ ys)
unfolding Within
append-Within n [] ys w w' = w'
append-Within n (x ∷ xs) ys w w' = (w.0, append-Within n xs ys (w.1) w')

length-append : (xs ys : List ℕ) → length (xs ++ ys) ≡ length xs + length ys
length-append [] ys = omega arith
length-append (x ∷ xs) ys = let rest = length-append xs ys in omega arith

push_all-Within :
    (n : ℕ) (xs stack : List ℕ) → Within n xs → Within n stack → Within n (push_all xs stack)
unfolding Within push_all
push_all-Within n [] stack w w' = w'
push_all-Within n (x ∷ xs) stack w w' = push_all-Within n xs (x ∷ stack) (w.1) (w.0, w')

length-push_all : (xs stack : List ℕ) → length (push_all xs stack) ≡ length xs + length stack
unfolding push_all
length-push_all [] stack = omega arith
length-push_all (x ∷ xs) stack = let rest = length-push_all xs (x ∷ stack) in omega arith

targets_of-le : (s : Statement) → length (targets_of s) ≤ 2
unfolding targets_of
targets_of-le (Statements.jump t) = omega arith
targets_of-le (Statements.branch c t e) = omega arith
targets_of-le _ = omega arith

targets_from_total :
    (n : ℕ) (arena : List Statement) (refs : List ℕ)
    → Within (length arena) refs
    → ((j : ℕ) (s : Statement) → index arena j ≡ ok s → Within n (targets_of s))
    → (ts : List ℕ) × (targets_from arena refs ≡ ok ts)
      × Within n ts
      × (length ts ≤ 2 * length refs)
unfolding targets_from Within
targets_from_total n arena [] w inside = ([], refl, tt, omega arith)
targets_from_total n arena (ref ∷ refs) w inside =
    let found = index_total arena ref (w.0) in
    let rest = targets_from_total n arena refs (w.1) inside in
    let all : List ℕ = targets_of (found.0) ++ rest.0 in
    let both : length all ≡ length (targets_of (found.0)) + length (rest.0) =
      length-append (targets_of (found.0)) (rest.0) in
    (
      all,
      rw (found.1, rest.1) refl,
      append-Within n (targets_of (found.0)) (rest.0) (inside ref (found.0) (found.1)) (rest.2),
      omega (arith, both, targets_of-le (found.0), rest.3),
    )

-- the room that blocks not yet visited may take, the first block at `start`
weight : List ℕ → ℕ → Block → ℕ
weight visited k b = if contains visited k then 0 else 2 * length b.statements

unseen : List Block → ℕ → List ℕ → ℕ
unseen [] start visited = 0
unseen (b ∷ bs) start visited = weight visited start b + unseen bs (start + 1) visited

unseen-most_targets : (bs : List Block) (start : ℕ) → unseen bs start [] ≡ most_targets bs
unfolding unseen weight most_targets contains
unseen-most_targets [] start = refl
unseen-most_targets (b ∷ bs) start = let rest = unseen-most_targets bs (start + 1) in omega arith

weight-le :
    (c : ℕ) (visited : List ℕ) (k : ℕ) (b : Block) → weight (c ∷ visited) k b ≤ weight visited k b
unfolding weight contains
weight-le c visited k b = elim (Bool-cases (c == k)) [
  | inl e ↦ rw e (omega arith)
  | inr n ↦ rw n (omega arith)
]

unseen-le :
    (c : ℕ) (visited : List ℕ) (bs : List Block) (start : ℕ)
    → unseen bs start (c ∷ visited) ≤ unseen bs start visited
unfolding unseen
unseen-le c visited [] start = omega arith
unseen-le c visited (b ∷ bs) start =
    omega (arith, weight-le c visited start b, unseen-le c visited bs (start + 1))

weight_visited :
    (c : ℕ) (visited : List ℕ) (k : ℕ) (b : Block) → c ≡ k → weight (c ∷ visited) k b ≡ 0
unfolding weight contains
weight_visited c visited k b e = rw (==_of_eq c k e) refl

weight_new :
    (c : ℕ) (visited : List ℕ) (k : ℕ) (b : Block)
    → k ≡ c
    → contains visited c ≡ false
    → weight visited k b ≡ 2 * length b.statements
unfolding weight
weight_new c visited k b e new = rw (ap (contains visited) e, new) refl

unseen-visit :
    (c : ℕ) (visited : List ℕ) (bs : List Block) (start k : ℕ) {b : Block}
    → start + k ≡ c
    → contains visited c ≡ false
    → get_elem? bs k ≡ some b
    → unseen bs start (c ∷ visited) + 2 * length b.statements ≤ unseen bs start visited
unfolding unseen
unseen-visit c visited [] start k e new h = absurd cc
unseen-visit c visited (x ∷ bs) start zero {b} e new h =
    let at : start ≡ c = omega arith in
    let same : x ≡ b = cc in
    subst
      (λ y.
        weight (c ∷ visited) start x + unseen bs (start + 1) (c ∷ visited) + 2 * length y.statements
        ≤ weight visited start x + unseen bs (start + 1) visited)
      same
      (omega (
        arith,
        weight_visited c visited start x (sym at),
        weight_new c visited start x at new,
        unseen-le c visited bs (start + 1),
      ))
unseen-visit c visited (x ∷ bs) start (suc k) e new h = omega (
  arith,
  weight-le c visited start x,
  unseen-visit c visited bs (start + 1) k (omega arith) new h,
)

iterate_total :
    (n fuel : ℕ) (arena : List Block) (visited remaining : List ℕ)
    → ((k : ℕ) (b : Block) → index arena k ≡ ok b → IsFormedBlock n b)
    → n ≡ length arena
    → Within n remaining
    → length remaining + unseen arena 0 visited < fuel
    → (out : List ℕ) × (iterate fuel arena visited remaining ≡ ok out) × Within n out
unfolding iterate block_targets Within
iterate_total n zero arena visited remaining formed size w h = absurd (omega arith)
iterate_total n (suc fuel) arena visited [] formed size w h = ([], refl, tt)
iterate_total n (suc fuel) arena visited (c ∷ remaining) formed size w h =
    elim (Bool-cases (contains visited c)) [
      | inl old ↦
          let rest = iterate_total n fuel arena visited remaining formed size (w.1) (omega arith) in
          (rest.0, rw (iterate, old, rest.1) refl, rest.2)
      | inr new ↦
          let found = index_total arena c (subst (λ m. c < m) size (w.0)) in
          let b : Block = found.0 in
          let inside = formed c b (found.1) in
          let ts =
            targets_from_total n b.statement_arena b.statements inside.statements_in
              inside.targets_in in
          let pushed : length (push_all (ts.0) remaining) ≡ length (ts.0) + length remaining =
            length-push_all (ts.0) remaining in
          let fewer : unseen arena 0 (c ∷ visited) + 2 * length b.statements
              ≤ unseen arena 0 visited =
            unseen-visit c visited arena 0 c (omega arith) new
              (unwrap-some (get_elem? arena c) (found.1)) in
          let rest =
            iterate_total n fuel arena (c ∷ visited) (push_all (ts.0) remaining) formed size
              (push_all-Within n (ts.0) remaining (ts.2) (w.1))
              (omega (arith, pushed, fewer, ts.3, h)) in
          (c ∷ rest.0, rw (iterate, new, found.1, ts.1, rest.1) refl, (w.0, rest.2))
    ]

pub block_iter_total :
    (f : Function)
    → IsFormed f
    → (blocks : List ℕ) × (block_iter f ≡ ok blocks) × Within (length f.arena) blocks
unfolding block_iter Within
block_iter_total f formed =
    iterate_total (length f.arena) (2 + most_targets f.arena) f.arena [] (f.entry_block ∷ [])
      formed.blocks_formed refl (formed.entry_in, tt)
      (let all = unseen-most_targets f.arena 0 in omega arith)

-- On a function whose references all stand, jump threading returns. The references of the result
-- stand too, and it runs like the function given: with the same blocks of fuel, each run from a
-- block and a state that returns or panics does the same.
pub jump_threading-Refines :
    (f : Function)
    → IsFormed f
    → Returns (jump_threading f) (λ out. IsFormed (out.0) × Refines f (out.0))
unfolding jump_threading
jump_threading-Refines f formed =
    let found = block_iter_total f formed in
    let done = run_on_blocks_total f (found.0) formed (found.2) in
    rw (found.1, done.1) (done.2, done.3)
