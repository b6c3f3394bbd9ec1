-- ===== src/Opt/Purity/Safe.antt =====
-- A statement that is pure, in the interpreter.
use icewind.Common.{
  unwrap, ℕ, ◌==◌, not, if◌then◌else◌, ==_iff, Bool-cases, ◌≡◌, refl, sym, ap, subst, inl, inr,
  Bool, true, false, hang, List, [], ◌∷◌, Option, none, some, Outcome, ok, panic, ◌>>=◌,
}
use icewind.Rudder.Statements
use icewind.Rudder.Statements.{Statement, Block, Function}
use icewind.Interpreter.Values.{Value}
use icewind.Interpreter.RegisterFile.{RegisterFile}
use icewind.Interpreter.Blocks.{
  Model, Interpreter, BlockResult, next_block, return_value, Done, value_of, ended, resolve,
  resolve_u64,
}
use icewind.Interpreter.Casts.{add_carry}
use icewind.Interpreter.Run.{step}
use icewind.Opt.Blocks.{contains, targets_of}
use icewind.Opt.Effects.{IsHonest, step-Keeps}
use icewind.Opt.Uses.{has_side_effects}
use icewind.Opt.Purity.Defs.{Results, is_pure}
use icewind.Opt.Purity.Pure.{IsPure}

-- the next block is among the targets
abbrev pub Goes : List ℕ → BlockResult → Type 0
Goes ts (next_block t) = contains ts t ≡ true
Goes ts (return_value v) = Unit {0}

-- the register file is kept, and an end is a return or goes to a target
abbrev pub IsSafe : List ℕ → RegisterFile → Done → Type 0
IsSafe ts file (value_of v i) = i.register_file ≡ file
IsSafe ts file (ended r i) = (i.register_file ≡ file) × Goes ts r

pub is_pure-some : (m : Results) (name : ℕ) → m name ≡ some true → is_pure m name ≡ ok true
unfolding is_pure
is_pure-some m name h = ap unwrap h

abbrev Safely : List ℕ → RegisterFile → Outcome Done → Type 0
Safely ts file r = (done : Done) → r ≡ ok done → IsSafe ts file done

ok-Safely :
    (ts : List ℕ) (file : RegisterFile) (d : Done) → IsSafe ts file d → Safely ts file (ok d)
ok-Safely ts file d h done e = let same : d ≡ done = cc in subst (IsSafe ts file) same h

bind-Safely {ℓ} :
    {A : Type ℓ} (ts : List ℕ) (file : RegisterFile) (r : Outcome A) (k : A → Outcome Done)
    → ((a : A) → Safely ts file (k a))
    → Safely ts file (r >>= k)
bind-Safely ts file (ok a) k h = h a
bind-Safely ts file panic k h = λ done e. absurd cc
bind-Safely ts file hang k h = λ done e. absurd cc

contains_head : (t : ℕ) (ts : List ℕ) → contains (t ∷ ts) t ≡ true
unfolding contains
contains_head t ts = rw ((==_iff t t).1 refl) refl

pub contains_tail : (t k : ℕ) (ts : List ℕ) → contains ts k ≡ true → contains (t ∷ ts) k ≡ true
unfolding contains
contains_tail t k ts h = elim (Bool-cases (t == k)) [ inl e ↦ rw e refl | inr n ↦ rw n h ]

contains_either : (b : Bool) (t f : ℕ) → contains (t ∷ f ∷ []) (if b then t else f) ≡ true
contains_either true t f = contains_head t (f ∷ [])
contains_either false t f = contains_tail t f (f ∷ []) (contains_head f [])

check-Safely :
    (b : Bool) (i : Interpreter)
    → Safely [] i.register_file (if b then panic else ok (value_of none i))
check-Safely true i = λ done e. absurd cc
check-Safely false i = ok-Safely [] i.register_file (value_of none i) refl

module _ (M : Model) (m : Results)
    (call_function : ℕ → List Value → RegisterFile → Outcome (Option Value × RegisterFile))
    (honest : IsHonest (is_pure m) call_function) (arena : List Statement) (i : Interpreter) where
  pub step-IsSafe :
      (s : Statement)
      → IsPure m s
      → (done : Done) → step M call_function arena i s ≡ ok done
      → IsSafe (targets_of s) i.register_file done
  unfolding step has_side_effects targets_of contains
  step-IsSafe (Statements.call target args t) p done e =
      let kept =
        step-Keeps M call_function (is_pure m) honest arena i (Statements.call target args t)
          (rw (is_pure-some m target p) refl) refl done e in
      subst (IsSafe [] i.register_file) (sym (kept.1)) refl
  step-IsSafe (Statements.write_memory address v) p done e = elim p [ ]
  step-IsSafe (Statements.write_pc v) p done e = elim p [ ]
  step-IsSafe (Statements.write_register offset v) p done e = elim p [ ]
  step-IsSafe (Statements.read_memory address size) p done e = elim p [ ]
  step-IsSafe (Statements.write_variable symbol v) p done e =
      bind-Safely [] i.register_file (resolve i v) _ (λ x. ok-Safely [] i.register_file _ refl) done
        e
  step-IsSafe (Statements.jump t) p done e =
      ok-Safely (t ∷ []) i.register_file (ended (next_block t) i) (refl, contains_head t []) done e
  step-IsSafe (Statements.branch c t f) p done e =
      bind-Safely (t ∷ f ∷ []) i.register_file (resolve_u64 i c) _
        (λ x. ok-Safely (t ∷ f ∷ []) i.register_file _ (refl, contains_either (not (x == 0)) t f))
        done e
  step-IsSafe (Statements.return none) p done e =
      ok-Safely [] i.register_file (ended (return_value none) i) (refl, tt) done e
  step-IsSafe (Statements.return (some v)) p done e =
      bind-Safely [] i.register_file (resolve i v) _
        (λ x. ok-Safely [] i.register_file _ (refl, tt)) done e
  step-IsSafe (Statements.abort v) p done e = absurd cc
  step-IsSafe (Statements.check c) p done e =
      bind-Safely [] i.register_file (resolve_u64 i c) _ (λ x. check-Safely (x == 0) i) done e
  step-IsSafe (Statements.add_with_carry a b c) p done e =
      bind-Safely [] i.register_file (resolve i a) _
        (λ x. bind-Safely [] i.register_file (resolve i b) _ (λ y.
          bind-Safely [] i.register_file (resolve i c) _ (λ z.
            bind-Safely [] i.register_file (add_carry x y z) _
              (λ sum. ok-Safely [] i.register_file _ refl))))
        done e
  step-IsSafe s p done e =
      let kept = step-Keeps M call_function (is_pure m) honest arena i s refl refl done e in
      subst (IsSafe [] i.register_file) (sym (kept.1)) refl
