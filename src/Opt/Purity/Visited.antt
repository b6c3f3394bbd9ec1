-- ===== src/Opt/Purity/Visited.antt =====
-- The blocks that `BlockIterator` gives, with their targets.
use icewind.Common.{
  ℕ, zero, suc, ◌+◌, ◌==◌, ◌||◌, ◌≡◌, refl, ◌∙◌, subst, ◌⊎◌, inl, inr, ==_iff, arith, Bool, true,
  false, Bool-cases, List, [], ◌∷◌, ok, ◌>>=◌, index,
}
use icewind.Rudder.Statements.{Block, Function}
use icewind.Opt.Typed.{bind-ok}
use icewind.Opt.Blocks.{contains, push_all, block_targets, iterate, block_iter, most_targets}

-- visited before, or given now
abbrev pub Reached : List ℕ → List ℕ → ℕ → Type 0
Reached visited out k = (contains visited k ≡ true) ⊎ (contains out k ≡ true)

-- a block of the arena with its targets among the blocks reached
pub record Expanded (arena : List Block) (visited out : List ℕ) (k : ℕ) : Type 0 where
  pub block : Block
  pub found : index arena k ≡ ok block
  pub targets : List ℕ
  pub targeted : block_targets block ≡ ok targets
  pub reached : (t : ℕ) → contains targets t ≡ true → Reached visited out t

or_swap : (a b c : Bool) → b || (a || c) ≡ (a || b) || c
or_swap true true c = refl
or_swap true false c = refl
or_swap false b c = refl

or_right : (a : Bool) {b : Bool} → b ≡ true → a || b ≡ true
or_right true h = refl
or_right false h = h

or_left : {a : Bool} (b : Bool) → a ≡ true → a || b ≡ true
or_left b h = rw h refl

contains-push_all :
    (xs stack : List ℕ) (k : ℕ) → contains (push_all xs stack) k ≡ contains xs k || contains stack k
unfolding contains push_all
contains-push_all [] stack k = refl
contains-push_all (x ∷ xs) stack k =
    contains-push_all xs (x ∷ stack) k ∙ or_swap (x == k) (contains xs k) (contains stack k)

Reached-move :
    (c : ℕ) (visited out : List ℕ) (k : ℕ)
    → Reached (c ∷ visited) out k
    → Reached visited (c ∷ out) k
unfolding contains
Reached-move c visited out k r = ground (arith, r)

Expanded-move :
    (arena : List Block) (c : ℕ) (visited out : List ℕ) (k : ℕ)
    → Expanded arena (c ∷ visited) out k
    → Expanded arena visited (c ∷ out) k
Expanded-move arena c visited out k x = record {
  block = x.block;
  found = x.found;
  targets = x.targets;
  targeted = x.targeted;
  reached = λ t h. Reached-move c visited out t (x.reached t h);
}

-- the blocks that a run of the iterator leaves over, and those it gives
abbrev Covers : List Block → List ℕ → List ℕ → List ℕ → Type 0
Covers arena visited remaining out =
    ((k : ℕ) → contains remaining k ≡ true → Reached visited out k)
    × ((k : ℕ) → contains out k ≡ true → Expanded arena visited out k)

visit-Covers :
    (arena : List Block) (c : ℕ) (visited remaining rest : List ℕ) (b : Block)
    → index arena c ≡ ok b
    → (ts : List ℕ) → block_targets b ≡ ok ts
    → Covers arena (c ∷ visited) (push_all ts remaining) rest
    → Covers arena visited (c ∷ remaining) (c ∷ rest)
unfolding contains
visit-Covers arena c visited remaining rest b found ts targeted covers = (
  λ k h. elim (Bool-cases (c == k)) [
    | inl at ↦ inr (rw at refl)
    | inr n ↦
        Reached-move c visited rest k
          (covers.0 k (contains-push_all ts remaining k ∙ or_right (contains ts k) (rw n at h)))
  ],
  λ k h. elim (Bool-cases (c == k)) [
    | inl at ↦ subst (Expanded arena visited (c ∷ rest)) ((==_iff c k).0 at) (record {
      block = b;
      found = found;
      targets = ts;
      targeted = targeted;
      reached = λ t in_targets. Reached-move c visited rest t (
          covers.0 t
            (contains-push_all ts remaining t ∙ or_left (contains remaining t) in_targets));
    })
    | inr n ↦ Expanded-move arena c visited rest k (covers.1 k (rw n at h))
  ],
)

iterate-Covers :
    (fuel : ℕ) (arena : List Block) (visited remaining out : List ℕ)
    → iterate fuel arena visited remaining ≡ ok out
    → Covers arena visited remaining out
unfolding iterate contains
iterate-Covers zero arena visited remaining out e = absurd cc
iterate-Covers (suc fuel) arena visited [] out e =
    let same : [] ≡ out = cc in
    subst (Covers arena visited []) same (λ k h. absurd cc, λ k h. absurd cc)
iterate-Covers (suc fuel) arena visited (c ∷ remaining) out e =
    elim (Bool-cases (contains visited c)) [
      | inl old ↦
          let rest = iterate-Covers fuel arena visited remaining out (rw (iterate, old) at e) in
          (
            λ k h. elim (Bool-cases (c == k)) [
              | inl at ↦ inl (subst (λ z. contains visited z ≡ true) ((==_iff c k).0 at) old)
              | inr n ↦ rest.0 k (rw n at h)
            ],
            rest.1,
          )
      | inr new ↦
          let rest : (index arena c >>= λ b.
          (block_targets b >>= λ ts.
          (iterate fuel arena (c ∷ visited) (push_all ts remaining) >>= λ rest. ok (c ∷ rest))))
              ≡ ok out =
            rw (iterate, new) at e in
          let b = bind-ok (index arena c) _ rest in
          let ts = bind-ok (block_targets (b.0)) _ (b.2) in
          let more =
            bind-ok (iterate fuel arena (c ∷ visited) (push_all (ts.0) remaining)) _ (ts.2) in
          let covers =
            iterate-Covers fuel arena (c ∷ visited) (push_all (ts.0) remaining) (more.0) (more.1) in
          let same : c ∷ more.0 ≡ out = cc in
          subst (Covers arena visited (c ∷ remaining)) same
            (visit-Covers arena c visited remaining (more.0) (b.0) (b.1) (ts.0) (ts.1) covers)
    ]

-- the blocks that the iterator gives from the entry block on are closed under targets
pub block_iter-Covers :
    (f : Function) (blocks : List ℕ)
    → block_iter f ≡ ok blocks
    → (contains blocks f.entry_block ≡ true)
      × ((k : ℕ) → contains blocks k ≡ true → Expanded f.arena [] blocks k)
unfolding block_iter contains
block_iter-Covers f blocks e =
    let covers =
      iterate-Covers (2 + most_targets f.arena) f.arena [] (f.entry_block ∷ []) blocks e in
    elim (covers.0 f.entry_block (rw ((==_iff f.entry_block f.entry_block).1 refl) refl)) [
      | inl never ↦ absurd cc
      | inr given ↦ (given, covers.1)
    ]
