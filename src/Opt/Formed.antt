-- ===== src/Opt/Formed.antt =====
-- Functions whose references all stand, and the terminators that threading gives them.
use icewind.Common.{
  ℕ, ◌==◌, ◌<◌, List, [], ◌∷◌, length, ◌≡◌, inl, inr, refl, ap, subst, Option, none, some, ok,
  index, unwrap, Bool-cases, get_elem?_total,
}
use icewind.Rudder.Statements
use icewind.Rudder.Statements.{Statement, Block, Function}
use icewind.Opt.Blocks.{terminator_statement, last_of, targets_of}
use icewind.Opt.Threading.{
  target_for_threadable, jump_target, thread, threaded_jump, threaded_branch,
}
use icewind.Opt.Simulated.{Leads, Threads, jumped, branched}
use icewind.Opt.Preserved.{jump_target-some}

-- every number of the list is below `n`
unfoldable pub Within : ℕ → List ℕ → Type 0
Within n [] = Unit {0}
Within n (x ∷ xs) = (x < n) × Within n xs

-- The statements of a block are in its arena, the last one is there, and targets are below `n`.
pub record IsFormedBlock (n : ℕ) (b : Block) : Type 0 where
  pub statements_in : Within (length b.statement_arena) b.statements
  pub terminator : ℕ
  pub terminated : terminator_statement b ≡ some terminator
  pub targets_in :
      (j : ℕ) (s : Statement) → index b.statement_arena j ≡ ok s → Within n (targets_of s)

pub record IsFormed (f : Function) : Type 0 where
  pub entry_in : f.entry_block < length f.arena
  pub blocks_formed :
      (k : ℕ) (b : Block) → index f.arena k ≡ ok b → IsFormedBlock (length f.arena) b

last_of-Within : (n : ℕ) (xs : List ℕ) {x : ℕ} → Within n xs → last_of xs ≡ some x → x < n
unfolding Within last_of
last_of-Within n [] w h = absurd cc
last_of-Within n (x ∷ []) {x = y} w h = let same : x ≡ y = cc in subst (λ z. z < n) same (w.0)
last_of-Within n (x ∷ y ∷ xs) w h = last_of-Within n (y ∷ xs) (w.1) h

pub index_total {ℓ} :
    {A : Type ℓ} (xs : List A) (k : ℕ) → k < length xs → (x : A) × (index xs k ≡ ok x)
index_total xs k h = let found = get_elem?_total xs k h in (found.0, ap unwrap (found.1))

pub terminator_in :
    {n : ℕ} (b : Block)
    → (formed : IsFormedBlock n b)
    → (s : Statement) × (index b.statement_arena formed.terminator ≡ ok s)
unfolding terminator_statement
terminator_in b formed =
    index_total b.statement_arena formed.terminator (
      last_of-Within (length b.statement_arena) b.statements formed.statements_in formed.terminated)

-- what `target_for_threadable` gives: nothing, or a block that there is
abbrev IsTarget : Function → ℕ → Option ℕ → Type 0
IsTarget f t o = (target_for_threadable f t ≡ ok o) × ((t' : ℕ) → o ≡ some t' → t' < length f.arena)

IsTarget-total :
    (f : Function) (t : ℕ) → IsFormed f → t < length f.arena → (o : Option ℕ) × IsTarget f t o
unfolding target_for_threadable Within targets_of
IsTarget-total f t formed h =
    let found = index_total f.arena t h in
    let b : Block = found.0 in
    let block = formed.blocks_formed t b (found.1) in
    let final = terminator_in b block in
    elim (Bool-cases (length b.statements == 1)) [
      | inl one ↦ (
        jump_target (final.0),
        (
          rw (found.1, one, block.terminated, final.1) refl,
          λ t' e.
              (subst (λ s. Within (length f.arena) (targets_of s)) (jump_target-some (final.0) e)
                (block.targets_in block.terminator (final.0) (final.1))).0,
        ),
      )
      | inr more ↦ (none, (rw (found.1, more) refl, λ t' e. absurd cc))
    ]

pick : ℕ → Option ℕ → ℕ
pick t none = t
pick t (some t') = t'

pick-Leads :
    (f : Function) (t : ℕ) (o : Option ℕ) → target_for_threadable f t ≡ ok o → Leads f t (pick t o)
unfolding pick Leads
pick-Leads f t none h = inl refl
pick-Leads f t (some t') h = inr h

pick-lt :
    (f : Function) (t : ℕ) (o : Option ℕ)
    → t < length f.arena
    → IsTarget f t o
    → pick t o < length f.arena
unfolding pick
pick-lt f t none h target = h
pick-lt f t (some t') h target = target.1 t' refl

threaded_jump-some :
    (t : ℕ) (o : Option ℕ) {s : Statement}
    → threaded_jump o ≡ some s
    → Statements.jump (pick t o) ≡ s
unfolding threaded_jump pick
threaded_jump-some t none h = absurd cc
threaded_jump-some t (some t') h = cc

threaded_branch-some :
    (c t e : ℕ) (o o' : Option ℕ) {s : Statement}
    → threaded_branch c t e o o' ≡ some s
    → Statements.branch c (pick t o) (pick e o') ≡ s
unfolding threaded_branch pick
threaded_branch-some c t e none none h = absurd cc
threaded_branch-some c t e (some t') none h = cc
threaded_branch-some c t e none (some e') h = cc
threaded_branch-some c t e (some t') (some e') h = cc

-- what `thread` gives: nothing, or a threaded terminator
unfoldable pub IsReplacement : Function → Statement → Option Statement → Type 0
IsReplacement f s o =
    (s' : Statement) → o ≡ some s' → Threads f s s' × Within (length f.arena) (targets_of s')

pub thread_total :
    (f : Function) (s : Statement)
    → IsFormed f
    → Within (length f.arena) (targets_of s)
    → (o : Option Statement) × (thread f s ≡ ok o) × IsReplacement f s o
unfolding thread Within targets_of IsReplacement
thread_total f (Statements.jump t) formed w =
    let out = IsTarget-total f t formed (w.0) in
    (
      threaded_jump (out.0),
      rw (out.1.0) refl,
      λ s' h.
          subst (λ s. Threads f (Statements.jump t) s × Within (length f.arena) (targets_of s))
            (threaded_jump-some t (out.0) h)
            (
              jumped t (pick t (out.0)) (pick-Leads f t (out.0) (out.1.0)),
              (pick-lt f t (out.0) (w.0) (out.1), tt),
            ),
    )
thread_total f (Statements.branch c t e) formed w =
    let out = IsTarget-total f t formed (w.0) in
    let out' = IsTarget-total f e formed (w.1.0) in
    (
      threaded_branch c t e (out.0) (out'.0),
      rw (out.1.0, out'.1.0) refl,
      λ s' h.
          subst
            (λ s. Threads f (Statements.branch c t e) s × Within (length f.arena) (targets_of s))
            (threaded_branch-some c t e (out.0) (out'.0) h)
            (
              branched c t (pick t (out.0)) e (pick e (out'.0)) (pick-Leads f t (out.0) (out.1.0))
                  (pick-Leads f e (out'.0) (out'.1.0)),
              (pick-lt f t (out.0) (w.0) (out.1), (pick-lt f e (out'.0) (w.1.0) (out'.1), tt)),
            ),
    )
thread_total f _ formed w = (none, refl, λ s' h. absurd cc)
