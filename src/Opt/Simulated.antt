-- ===== src/Opt/Simulated.antt =====
-- A block with a threaded terminator, run next to the block as it was.
use icewind.Common.{
  ℕ, ◌==◌, not, Bool, true, false, List, [], ◌∷◌, length, ◌≡◌, ◌⊎◌, inl, inr, refl, sym, ap, ◌∙◌,
  subst, Option, some, Outcome, ok, panic, hang, ◌>>=◌, index, if◌then◌else◌, unwrap,
}
use icewind.Rudder.Statements
use icewind.Rudder.Statements.{Statement, Block, Function, typ_of}
use icewind.Interpreter.Values.{Value}
use icewind.Interpreter.RegisterFile.{RegisterFile}
use icewind.Interpreter.Blocks.{
  Model, Interpreter, BlockResult, next_block, Done, value_of, ended, resolve_u64,
}
use icewind.Interpreter.Run.{step, keep, statements_from, operand_type}
use icewind.Interpreter.Extends.{Extends, unchanged, step-Extends}
use icewind.Opt.Threading.{target_for_threadable}
use icewind.Opt.Typed.{IsEnd, jumps, branches, Alike, at-eq, typ_of-eq}

-- a target in place of another: the same, or the one that its block jumps to
unfoldable pub Leads : Function → ℕ → ℕ → Type 0
Leads f t t' = (t' ≡ t) ⊎ (target_for_threadable f t ≡ ok (some t'))

pub data Threads (f : Function) : Statement → Statement → Type 0 where
  jumped : (t t' : ℕ) → Leads f t t' → Threads f (Statements.jump t) (Statements.jump t')
  branched :
      (c t t' e e' : ℕ)
      → Leads f t t'
      → Leads f e e'
      → Threads f (Statements.branch c t e) (Statements.branch c t' e')

-- both arenas have the same statement at a place, or the second one has it threaded
unfoldable pub Threaded : Function → List Statement → List Statement → ℕ → Type 0
Threaded f arena arena' k =
    (index arena' k ≡ index arena k)
    ⊎ ((s : Statement) × (s' : Statement) × Threads f s s'
        × (index arena k ≡ ok s)
        × (index arena' k ≡ ok s'))

Threads-IsEnd : {f : Function} {s s' : Statement} → Threads f s s' → IsEnd s × IsEnd s'
Threads-IsEnd (jumped t t' h) = (jumps t, jumps t')
Threads-IsEnd (branched c t t' e e' h h') = (branches c t e, branches c t' e')

Threaded-Alike :
    (f : Function) (arena arena' : List Statement) (k : ℕ)
    → Threaded f arena arena' k
    → Alike arena arena' k
unfolding Threaded Alike
Threaded-Alike f arena arena' k (inl e) = inl e
Threaded-Alike f arena arena' k (inr (s, s', th, h, h')) =
    inr (s, s', (Threads-IsEnd th).0, (Threads-IsEnd th).1, h, h')

-- the second result is the first, or that with its target threaded
unfoldable pub Follows : Function → (out out' : Outcome (BlockResult × Interpreter)) → Type 0
Follows f out out' =
    Extends out out'
    ⊎ ((t : ℕ) × (t' : ℕ) × (i : Interpreter) × (target_for_threadable f t ≡ ok (some t'))
        × (out ≡ ok (next_block t, i))
        × (out' ≡ ok (next_block t', i)))

bind_assoc {ℓ κ ι} :
    {A : Type ℓ} {B : Type κ} {C : Type ι} (r : Outcome A) (g : A → Outcome B) (h : B → Outcome C)
    → (r >>= λ a. g a >>= h) ≡ ((r >>= g) >>= h)
bind_assoc (ok a) g h = refl
bind_assoc panic g h = refl
bind_assoc hang g h = refl

module _ (f : Function) where
  bind-Follows {ℓ} :
      {A : Type ℓ} (r r' : Outcome A) (g g' : A → Outcome (BlockResult × Interpreter))
      → Extends r r'
      → ((a : A) → Follows f (g a) (g' a))
      → Follows f (r >>= g) (r' >>= g')
  unfolding Follows
  bind-Follows (ok a) r' g g' h k =
      subst (λ z. Follows f (g a) (z >>= g')) (sym (h (λ e. cc))) (k a)
  bind-Follows panic r' g g' h k = inl (λ ne. ap (λ z. z >>= g') (h (λ e. cc)))
  bind-Follows hang r' g g' h k = inl (λ ne. absurd (ne refl))

  bind2-Follows {ℓ κ} :
      {A : Type ℓ} {B : Type κ} (r : Outcome A) (g g' : A → Outcome B)
      (k k' : B → Outcome (BlockResult × Interpreter))
      → ((a : A) → Follows f (g a >>= k) (g' a >>= k'))
      → Follows f ((r >>= g) >>= k) ((r >>= g') >>= k')
  unfolding Follows
  bind2-Follows (ok a) g g' k k' h = h a
  bind2-Follows panic g g' k k' h = inl unchanged
  bind2-Follows hang g g' k k' h = inl unchanged

  done-Follows :
      (done : Done) (g g' : Option Value → Interpreter → Outcome (BlockResult × Interpreter))
      (h : BlockResult → Interpreter → Outcome (BlockResult × Interpreter))
      → ((v : Option Value) (i : Interpreter) → Follows f (g v i) (g' v i))
      → Follows f
          (elim done [ value_of v i ↦ g v i | ended result i ↦ h result i ])
          (elim done [ value_of v i ↦ g' v i | ended result i ↦ h result i ])
  unfolding Follows
  done-Follows (value_of v i) g g' h k = k v i
  done-Follows (ended result i) g g' h k = inl unchanged

  goto-Follows :
      (t t' : ℕ) (i : Interpreter)
      → Leads f t t'
      → Follows f (ok (next_block t, i)) (ok (next_block t', i))
  unfolding Leads Follows
  goto-Follows t t' i (inl e) = inl (λ ne. ap (λ z. ok (next_block z, i)) e)
  goto-Follows t t' i (inr h) = inr (t, t', i, h, refl, refl)

  choose-Leads :
      (b : Bool) (t t' e e' : ℕ)
      → Leads f t t'
      → Leads f e e'
      → Leads f (if b then t else e) (if b then t' else e')
  choose-Leads true t t' e e' h h' = h
  choose-Leads false t t' e e' h h' = h'

module _ (M : Model)
    (call_function : ℕ → List Value → RegisterFile → Outcome (Option Value × RegisterFile))
    (f : Function) (arena arena' : List Statement) (lengths : length arena' ≡ length arena)
    (threaded : (k : ℕ) → Threaded f arena arena' k) where
  operand_type-eq : (v : ℕ) → operand_type arena' v ≡ operand_type arena v
  unfolding operand_type
  operand_type-eq v = rw lengths (
      bind_assoc (index arena' v) _ _
      ∙ ap (λ r. r >>= unwrap)
          (at-eq arena arena' (λ k. Threaded-Alike f arena arena' k (threaded k)) _
            (typ_of-eq arena arena' (λ k. Threaded-Alike f arena arena' k (threaded k)) _) v)
      ∙ sym (bind_assoc (index arena v) _ _))

  end-Follows :
      (i : Interpreter) (refs : List ℕ) {s s' : Statement} (ref : ℕ)
      → index arena ref ≡ ok s
      → index arena' ref ≡ ok s'
      → Threads f s s'
      → Follows f
          (statements_from M call_function arena (ref ∷ refs) i)
          (statements_from M call_function arena' (ref ∷ refs) i)
  unfolding statements_from step
  end-Follows i refs ref h h' (jumped t t' l) = rw (h, h') (goto-Follows f t t' i l)
  end-Follows i refs ref h h' (branched c t t' e e' l l') =
      rw (h, h')
        (bind2-Follows f (resolve_u64 i c) _ _ _ _ (λ condition.
          goto-Follows f _ _ i (choose-Leads f (not (condition == 0)) t t' e e' l l')))

  pub statements-Follows :
      (refs : List ℕ) (i : Interpreter)
      → Follows f
          (statements_from M call_function arena refs i)
          (statements_from M call_function arena' refs i)
  unfolding statements_from Follows Threaded
  statements-Follows [] i = inl unchanged
  statements-Follows (ref ∷ refs) i = elim (threaded ref) [
    | inl e ↦ rw e (
        bind-Follows f (index arena ref) (index arena ref) _ _ unchanged (λ s.
          bind-Follows f (step M call_function arena i s) (step M call_function arena' i s) _ _
            (step-Extends M call_function call_function (λ name vs file. unchanged) arena arena'
              (λ v ne. operand_type-eq v) i s)
            (λ done. done-Follows f done _ _ _ (λ v i'. statements-Follows refs (keep ref v i')))))
    | inr (s, s', th, h, h') ↦ end-Follows i refs ref h h' th
  ]
