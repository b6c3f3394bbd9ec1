-- ===== src/Opt/Swept.antt =====
-- The run of dead_stmt_elimination.rs over the blocks of a function.
use icewind.Common.{
  ℕ, arith, ◌<◌, ◌==◌, ◌||◌, ◌&&◌, not, ◌≡◌, inl, inr, refl, sym, ap, ◌∙◌, subst, Bool, true, false,
  Bool-cases, ==_iff, List, [], ◌∷◌, ◌++◌, length, set, length-set, Option, none, some, Outcome, ok,
  index, Returns,
}
use icewind.Rudder.Statements.{Statement, Block, Function}
use icewind.Opt.Uses.{used_by, analyse, has_uses, has_side_effects, is_dead}
use icewind.Opt.Blocks.{contains}
use icewind.Opt.Dead.{
  remove, kill_statement, first_dead, kill_dead, run_on_block, run_on_blocks, dead_stmt_elimination,
}
use icewind.Opt.Formed.{Within, IsFormed, index_total}
use icewind.Opt.Passed.{index_lt, index-set}
use icewind.Opt.Iterated.{block_iter_total}
use icewind.Interpreter.Values.{Value}
use icewind.Interpreter.RegisterFile.{RegisterFile}
use icewind.Interpreter.Blocks.{Model}
use icewind.Opt.Effects.{is_carry, IsHonest}
use icewind.Opt.Killed.{Unused}
use icewind.Opt.Eliminated.{HasNoCarry, IsKilled, Keeps, blocks-IsKilled, refl-Keeps, trans-Keeps}

has_uses-append :
    (xs ys : List ℕ) (d : ℕ)
    → has_uses (xs ++ ys) d ≡ false
    → (has_uses xs d ≡ false) × (has_uses ys d ≡ false)
unfolding has_uses
has_uses-append [] ys d h = (refl, h)
has_uses-append (x ∷ xs) ys d h = elim (Bool-cases (x == d)) [
  | inl e ↦ let never : true ≡ false = rw e at h in absurd cc
  | inr n ↦ let rest = has_uses-append xs ys d (rw n at h) in (rw n (rest.0), rest.1)
]

analyse_total :
    (arena : List Statement) (refs : List ℕ)
    → Within (length arena) refs
    → (keys : List ℕ) × (analyse arena refs ≡ ok keys)
      × ((d : ℕ) → has_uses keys d ≡ false → Unused arena d refs)
unfolding analyse Within
analyse_total arena [] w = ([], refl, λ d h. tt)
analyse_total arena (ref ∷ refs) w =
    let found = index_total arena ref (w.0) in
    let rest = analyse_total arena refs (w.1) in
    (
      used_by (found.0) ++ rest.0,
      rw (found.1, rest.1) refl,
      λ d h.
          let both = has_uses-append (used_by (found.0)) (rest.0) d h in
          (
            λ s e.
                let eq : ok (found.0) ≡ ok s = sym (found.1) ∙ e in
                let same : found.0 ≡ s = cc in
                subst (λ t. has_uses (used_by t) d ≡ false) same (both.0),
            rest.2 d (both.1),
          ),
    )

-- what `first_dead` finds: a statement of the block without effects and uses
abbrev IsFound : (ℕ → Outcome Bool) → List Statement → List ℕ → List ℕ → ℕ → Type 0
IsFound is_pure arena keys refs d =
    (dead : Statement) × (index arena d ≡ ok dead)
    × (has_side_effects is_pure dead ≡ ok false)
    × (has_uses keys d ≡ false)
    × (contains refs d ≡ true)

not_and_not : (a b : Bool) → (not a && not b) ≡ true → (a ≡ false) × (b ≡ false)
not_and_not false false h = (refl, refl)
not_and_not false true h = absurd cc
not_and_not true false h = absurd cc
not_and_not true true h = absurd cc

contains_here : (d : ℕ) (refs : List ℕ) → contains (d ∷ refs) d ≡ true
unfolding contains
contains_here d refs = rw ((==_iff d d).1 refl) refl

contains_later : (x d : ℕ) (refs : List ℕ) → contains refs d ≡ true → contains (x ∷ refs) d ≡ true
unfolding contains
contains_later x d refs h = ground (arith, h)

-- `has_side_effects` of a statement returns
abbrev pub Answered : (ℕ → Outcome Bool) → Statement → Type 0
Answered is_pure s = (effects : Bool) × (has_side_effects is_pure s ≡ ok effects)

abbrev AllStatements : (Statement → Type 0) → Function → Type 0
AllStatements P f =
    (k : ℕ) (b : Block) (j : ℕ) (s : Statement)
    → index f.arena k ≡ ok b
    → index b.statement_arena j ≡ ok s
    → P s

-- The purity is known of every function that is called.
abbrev pub AllAnswered : (ℕ → Outcome Bool) → Function → Type 0
AllAnswered is_pure f = AllStatements (Answered is_pure) f

first_dead_total :
    (is_pure : ℕ → Outcome Bool) (arena : List Statement) (keys refs : List ℕ)
    → Within (length arena) refs
    → ((j : ℕ) (s : Statement) → index arena j ≡ ok s → Answered is_pure s)
    → (o : Option ℕ) × (first_dead is_pure arena keys refs ≡ ok o)
      × ((d : ℕ) → o ≡ some d → IsFound is_pure arena keys refs d)
unfolding first_dead is_dead Within
first_dead_total is_pure arena keys [] w answered = (none, refl, λ d e. absurd cc)
first_dead_total is_pure arena keys (ref ∷ refs) w answered =
    let found = index_total arena ref (w.0) in
    let s : Statement = found.0 in
    let effects = answered ref s (found.1) in
    elim (Bool-cases (not (effects.0) && not (has_uses keys ref))) [
      | inl dead ↦
          let both = not_and_not (effects.0) (has_uses keys ref) dead in
          (
            some ref,
            rw (found.1, effects.1, dead) refl,
            λ d e.
                let here : ref ≡ d = cc in
                subst (IsFound is_pure arena keys (ref ∷ refs)) here
                  (s, found.1, effects.1 ∙ ap ok (both.0), both.1, contains_here ref refs),
          )
      | inr alive ↦
          let rest = first_dead_total is_pure arena keys refs (w.1) answered in
          (
            rest.0,
            rw (found.1, effects.1, alive) (rest.1),
            λ d e.
                let at = rest.2 d e in (at.0, at.1, at.2, at.3, contains_later ref d refs (at.4)),
          )
    ]

remove_total :
    (n d : ℕ) (refs : List ℕ)
    → contains refs d ≡ true
    → Within n refs
    → (refs' : List ℕ) × (remove refs d ≡ ok refs') × Within n refs'
unfolding contains remove Within
remove_total n d [] h w = absurd cc
remove_total n d (x ∷ xs) h w = elim (Bool-cases (x == d)) [
  | inl e ↦ (xs, rw (remove, e) refl, w.1)
  | inr ne ↦
      let rest = remove_total n d xs (rw ne at h) (w.1) in
      (x ∷ rest.0, rw (remove, ne, rest.1) refl, (w.0, rest.2))
]

-- the statements of every block are in its arena
abbrev StatementsIn : Function → Type 0
StatementsIn f =
    (k : ℕ) (b : Block) → index f.arena k ≡ ok b → Within (length b.statement_arena) b.statements

module _ (is_pure : ℕ → Outcome Bool) (M : Model)
    (call_function : ℕ → List Value → RegisterFile → Outcome (Option Value × RegisterFile))
    (honest : IsHonest is_pure call_function) where
  module _ (f : Function) (block : ℕ) (b b' : Block) (d : ℕ) (dead : Statement)
      (found : index f.arena block ≡ ok b) (arenas : b'.statement_arena ≡ b.statement_arena)
      (removed : remove b.statements d ≡ ok b'.statements)
      (unused : Unused b.statement_arena d b.statements) (at : index b.statement_arena d ≡ ok dead)
      (free : has_side_effects is_pure dead ≡ ok false) where
    -- the function with the second block in place of the first
    abbrev without : Function
    without = record f { arena = set f.arena block b' }

    without-IsKilled : IsKilled is_pure f without
    unfolding IsKilled
    without-IsKilled k = elim (index-set f.arena block b' (index_lt f.arena block found) k) [
      | inl same ↦ inl same
      | inr (e, h) ↦
          inr (b, b', d, dead, ap (index f.arena) e ∙ found, h, arenas, removed, unused, at, free)
    ]

    without-Keeps : HasNoCarry f → Keeps M call_function f without
    without-Keeps no_carry = record {
      entry = refl;
      parameters = refl;
      size = length-set f.arena block b';
      returns = λ n k i out e.
          blocks-IsKilled is_pure M call_function honest f without no_carry without-IsKilled n k i
            out e;
    }

    AllStatements-without : (P : Statement → Type 0) → AllStatements P f → AllStatements P without
    AllStatements-without P all k c j s h hs =
        elim (index-set f.arena block b' (index_lt f.arena block found) k) [
          | inl same ↦ all k c j s (sym same ∙ h) hs
          | inr (e, h') ↦
              let same : b' ≡ c = cc in
              let there : index b.statement_arena j ≡ ok s =
                ap (λ l. index l j) (sym arenas ∙ ap (λ z. z.statement_arena) same) ∙ hs in
              all block b j s found there
        ]

    without-StatementsIn :
        StatementsIn f → Within (length b.statement_arena) b'.statements → StatementsIn without
    without-StatementsIn inside w k c h =
        elim (index-set f.arena block b' (index_lt f.arena block found) k) [
          | inl same ↦ inside k c (sym same ∙ h)
          | inr (e, h') ↦
              let same : b' ≡ c = cc in
              subst (λ z. Within (length z.statement_arena) z.statements) same
                (subst (λ l. Within (length l) b'.statements) (sym arenas) w)
        ]

  -- what a part of the pass keeps
  abbrev IsSwept : Function → Function → Type 0
  IsSwept f g = StatementsIn g × HasNoCarry g × AllAnswered is_pure g × Keeps M call_function f g

  kill_dead_total :
      (f : Function) (block : ℕ) (b : Block) (keys : List ℕ)
      → StatementsIn f
      → HasNoCarry f
      → AllAnswered is_pure f
      → index f.arena block ≡ ok b
      → ((d : ℕ) → has_uses keys d ≡ false → Unused b.statement_arena d b.statements)
      → (o : Option ℕ)
      → ((d : ℕ) → o ≡ some d → IsFound is_pure b.statement_arena keys b.statements d)
      → (out : Function × Bool) × (kill_dead is_pure f block b o ≡ ok out) × IsSwept f (out.0)
  unfolding kill_dead kill_statement
  kill_dead_total f block b keys inside no_carry answered found unused none h =
      ((f, false), refl, (inside, no_carry, answered, refl-Keeps M call_function f))
  kill_dead_total f block b keys inside no_carry answered found unused (some d) h =
      let at = h d refl in
      let rest =
        remove_total (length b.statement_arena) d b.statements (at.4) (inside block b found) in
      let b' : Block = record b { statements = rest.0 } in
      (
        (without f block b b' d (at.0) found refl (rest.1) (unused d (at.3)) (at.1) (at.2), true),
        rw (rest.1) refl,
        (
          without-StatementsIn f block b b' d (at.0) found refl (rest.1) (unused d (at.3)) (at.1)
              (at.2) inside (rest.2),
          AllStatements-without f block b b' d (at.0) found refl (rest.1) (unused d (at.3)) (at.1)
              (at.2) (λ s. is_carry s ≡ false) no_carry,
          AllStatements-without f block b b' d (at.0) found refl (rest.1) (unused d (at.3)) (at.1)
              (at.2) (Answered is_pure) answered,
          without-Keeps f block b b' d (at.0) found refl (rest.1) (unused d (at.3)) (at.1) (at.2)
              no_carry,
        ),
      )

  run_on_block_total :
      (f : Function) (block : ℕ)
      → StatementsIn f
      → HasNoCarry f
      → AllAnswered is_pure f
      → block < length f.arena
      → (out : Function × Bool) × (run_on_block is_pure f block ≡ ok out) × IsSwept f (out.0)
  unfolding run_on_block
  run_on_block_total f block inside no_carry answered h =
      let found = index_total f.arena block h in
      let b : Block = found.0 in
      let within = inside block b (found.1) in
      let keys = analyse_total b.statement_arena b.statements within in
      let dead =
        first_dead_total is_pure b.statement_arena (keys.0) b.statements within
          (λ j s at. answered block b j s (found.1) at) in
      let out =
        kill_dead_total f block b (keys.0) inside no_carry answered (found.1) (keys.2) (dead.0)
          (dead.2) in
      (out.0, rw (found.1, keys.1, dead.1) (out.1), out.2)

  run_on_blocks_total :
      (f : Function) (blocks : List ℕ)
      → StatementsIn f
      → HasNoCarry f
      → AllAnswered is_pure f
      → Within (length f.arena) blocks
      → (out : Function × Bool) × (run_on_blocks is_pure f blocks ≡ ok out) × IsSwept f (out.0)
  unfolding run_on_blocks Within
  run_on_blocks_total f [] inside no_carry answered w =
      ((f, false), refl, (inside, no_carry, answered, refl-Keeps M call_function f))
  run_on_blocks_total f (block ∷ blocks) inside no_carry answered w =
      let first = run_on_block_total f block inside no_carry answered (w.0) in
      let g : Function = first.0.0 in
      let rest =
        run_on_blocks_total g blocks (first.2.0) (first.2.1) (first.2.2)
          (subst (λ m. Within m blocks) (sym (first.2.3).size) (w.1)) in
      (
        (rest.0.0, first.0.1 || rest.0.1),
        rw (first.1, rest.1) refl,
        (
          rest.2.0,
          rest.2.1,
          rest.2.2,
          trans-Keeps M call_function f g (rest.0.0) (first.2.3) (rest.2.3),
        ),
      )

  -- On a function whose references stand and that has no addition with carry,
  -- and calls only functions whose purity is known, dead statement elimination returns, and every run of the function that returns is kept.
  pub dead_stmt_elimination-Keeps :
      (f : Function)
      → IsFormed f
      → HasNoCarry f
      → AllAnswered is_pure f
      → Returns (dead_stmt_elimination is_pure f) (λ out. Keeps M call_function f (out.0))
  unfolding dead_stmt_elimination
  dead_stmt_elimination-Keeps f formed no_carry answered =
      let found = block_iter_total f formed in
      let done =
        run_on_blocks_total f (found.0) (λ k b h. (formed.blocks_formed k b h).statements_in)
          no_carry answered (found.2) in
      rw (found.1, done.1) (done.2.3)
