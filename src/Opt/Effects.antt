-- ===== src/Opt/Effects.antt =====
-- Steps without side effects: the state they leave is the one they start from.
use icewind.Common.{
  ℕ, ◌==◌, not, ◌≡◌, refl, sym, ap, ◌∙◌, Bool, true, false, List, Outcome, ok, panic, hang, ◌>>=◌,
  if◌then◌else◌, Option, unwrap,
}
use icewind.Rudder.Statements
use icewind.Rudder.Statements.{Statement}
use icewind.Interpreter.Values.{Value}
use icewind.Interpreter.RegisterFile.{RegisterFile}
use icewind.Interpreter.Registers
use icewind.Interpreter.Blocks.{
  Model, Interpreter, Done, value_of, resolve, resolve_u64, resolve_all, unary, binary, extract,
  insert_field, assign_in, access, size_of,
}
use icewind.Interpreter.Casts.{cast_value, cast_bits, shift_value}
use icewind.Interpreter.Run.{step, operand_type}
use icewind.BitFields.Defs.{to_u32}
use icewind.Opt.Uses.{has_side_effects}

-- an addition with carry, which leaves flags behind
abbrev pub is_carry : Statement → Bool
is_carry (Statements.add_with_carry a b c) = true
is_carry _ = false

-- a call of a pure function that returns leaves the register file as it was
abbrev pub IsHonest :
    (ℕ → Outcome Bool)
    → (ℕ → List Value → RegisterFile → Outcome (Option Value × RegisterFile))
    → Type 0
IsHonest is_pure call_function =
    (name : ℕ) (vs : List Value) (file : RegisterFile) (out : Option Value × RegisterFile)
    → is_pure name ≡ ok true
    → call_function name vs file ≡ ok out
    → out.1 ≡ file

-- a step that returns has kept the state
abbrev Keeps : Interpreter → Outcome Done → Type 0
Keeps i r = (done : Done) → r ≡ ok done → (v : Option Value) × (done ≡ value_of v i)

ok-Keeps : (i : Interpreter) (v : Option Value) → Keeps i (ok (value_of v i))
ok-Keeps i v done e = let same : value_of v i ≡ done = cc in (v, sym same)

panic-Keeps : (i : Interpreter) → Keeps i panic
panic-Keeps i done e = absurd cc

bind-Keeps {ℓ} :
    {A : Type ℓ} (i : Interpreter) (r : Outcome A) (k : A → Outcome Done)
    → ((a : A) → Keeps i (k a))
    → Keeps i (r >>= k)
bind-Keeps i (ok a) k h = h a
bind-Keeps i panic k h = panic-Keeps i
bind-Keeps i hang k h = λ done e. absurd cc

pure-target : (r : Outcome Bool) → (r >>= λ pure. ok (not pure)) ≡ ok false → r ≡ ok true
pure-target (ok true) h = refl
pure-target (ok false) h = absurd cc
pure-target panic h = absurd cc
pure-target hang h = absurd cc

call-Keeps :
    (i : Interpreter) (r : Outcome (Option Value × RegisterFile))
    → ((out : Option Value × RegisterFile) → r ≡ ok out → out.1 ≡ i.register_file)
    → Keeps i (r >>= λ result. ok (value_of (result.0) (record i { register_file = result.1 })))
call-Keeps i (ok out) same done e =
    let at : value_of (out.0) (record i { register_file = out.1 }) ≡ done = cc in
    (
      out.0,
      sym at ∙ ap (λ file. value_of (out.0) (record i { register_file = file })) (same out refl),
    )
call-Keeps i panic same done e = absurd cc
call-Keeps i hang same done e = absurd cc

module _ (M : Model)
    (call_function : ℕ → List Value → RegisterFile → Outcome (Option Value × RegisterFile))
    (is_pure : ℕ → Outcome Bool) (honest : IsHonest is_pure call_function) (arena : List Statement)
    (i : Interpreter) where
  pub step-Keeps :
      (s : Statement)
      → has_side_effects is_pure s ≡ ok false
      → is_carry s ≡ false
      → Keeps i (step M call_function arena i s)
  unfolding step has_side_effects
  step-Keeps Statements.read_pc h not_carry = panic-Keeps i
  step-Keeps (Statements.phi_node ms) h not_carry = panic-Keeps i
  step-Keeps (Statements.atomic_operation a b d e) h not_carry = panic-Keeps i
  step-Keeps (Statements.bit_replicate a b) h not_carry = panic-Keeps i
  step-Keeps (Statements.read_element a b) h not_carry = panic-Keeps i
  step-Keeps (Statements.matches_union v b) h not_carry = panic-Keeps i
  step-Keeps (Statements.unwrap_union v b) h not_carry = panic-Keeps i
  step-Keeps (Statements.create_real a b) h not_carry = panic-Keeps i
  step-Keeps (Statements.write_variable a b) h not_carry = absurd cc
  step-Keeps (Statements.write_register a b) h not_carry = absurd cc
  step-Keeps (Statements.write_memory a b) h not_carry = absurd cc
  step-Keeps (Statements.write_pc a) h not_carry = absurd cc
  step-Keeps (Statements.read_memory a b) h not_carry = absurd cc
  step-Keeps (Statements.jump a) h not_carry = absurd cc
  step-Keeps (Statements.branch a b d) h not_carry = absurd cc
  step-Keeps (Statements.return a) h not_carry = absurd cc
  step-Keeps (Statements.abort a) h not_carry = absurd cc
  step-Keeps (Statements.check a) h not_carry = absurd cc
  step-Keeps (Statements.add_with_carry a b d) h not_carry = absurd cc
  step-Keeps (Statements.constant d) h not_carry = ok-Keeps i _
  step-Keeps (Statements.get_flags a) h not_carry = ok-Keeps i _
  step-Keeps (Statements.read_variable symbol) h not_carry =
      bind-Keeps i (unwrap (i.locals symbol.name)) _ (λ x0. ok-Keeps i _)
  step-Keeps (Statements.read_register t a) h not_carry =
      bind-Keeps i (resolve_u64 i a) _
        (λ x0. bind-Keeps i (Registers.read_register i.register_file t x0) _ (λ x1. ok-Keeps i _))
  step-Keeps (Statements.unary_operation kind v) h not_carry =
      bind-Keeps i (resolve i v) _ (λ x0. bind-Keeps i (unary kind x0) _ (λ x1. ok-Keeps i _))
  step-Keeps (Statements.binary_operation kind l r) h not_carry =
      bind-Keeps i (resolve i l) _ (λ x0.
        bind-Keeps i (resolve i r) _
          (λ x1. bind-Keeps i (binary kind x0 x1) _ (λ x2. ok-Keeps i _)))
  step-Keeps (Statements.cast kind t v) h not_carry = bind-Keeps i (operand_type arena v) _ (λ x0.
      bind-Keeps i (resolve i v) _
        (λ x1. bind-Keeps i (cast_value kind t x0 x1) _ (λ x2. ok-Keeps i _)))
  step-Keeps (Statements.bits_cast kind t v w) h not_carry = bind-Keeps i (resolve i v) _ (λ x0.
      bind-Keeps i (resolve_u64 i w) _ (λ x1.
        bind-Keeps i (to_u32 x1) _
          (λ x2. bind-Keeps i (cast_bits kind t x2 x0) _ (λ x3. ok-Keeps i _))))
  step-Keeps (Statements.call target args t) h not_carry =
      bind-Keeps i (resolve_all i args) _ (λ x0.
        call-Keeps i (call_function target x0 i.register_file)
          (λ out e. honest target x0 i.register_file out (pure-target (is_pure target) h) e))
  step-Keeps (Statements.bit_extract v a b) h not_carry = bind-Keeps i (resolve i v) _ (λ x0.
      bind-Keeps i (resolve_u64 i a) _ (λ x1.
        bind-Keeps i (resolve_u64 i b) _
          (λ x2. bind-Keeps i (extract x0 x1 x2) _ (λ x3. ok-Keeps i _))))
  step-Keeps (Statements.shift_operation kind v a) h not_carry =
      bind-Keeps i (resolve_u64 i a) _ (λ x0.
        bind-Keeps i (resolve i v) _
          (λ x1. bind-Keeps i (shift_value kind x0 x1) _ (λ x2. ok-Keeps i _)))
  step-Keeps (Statements.bit_insert a b d e) h not_carry = bind-Keeps i (resolve i a) _ (λ x0.
      bind-Keeps i (resolve_u64 i b) _ (λ x1. bind-Keeps i (resolve_u64 i d) _ (λ x2.
        bind-Keeps i (resolve_u64 i e) _
          (λ x3. bind-Keeps i (insert_field x0 x1 x2 x3) _ (λ x4. ok-Keeps i _)))))
  step-Keeps (Statements.size_of v) h not_carry =
      bind-Keeps i (resolve i v) _ (λ x0. bind-Keeps i (size_of x0) _ (λ x1. ok-Keeps i _))
  step-Keeps (Statements.select a t f) h not_carry =
      bind-Keeps i (resolve_u64 i a) _
        (λ x0. bind-Keeps i (resolve i (if not (x0 == 0) then t else f)) _ (λ x1. ok-Keeps i _))
  step-Keeps (Statements.assign_element v a b) h not_carry = bind-Keeps i (resolve i v) _ (λ x0.
      bind-Keeps i (resolve i a) _ (λ x1.
        bind-Keeps i (resolve_u64 i b) _
          (λ x2. bind-Keeps i (assign_in x0 x2 x1) _ (λ x3. ok-Keeps i _))))
  step-Keeps (Statements.create_bits v w) h not_carry = bind-Keeps i (resolve_u64 i v) _ (λ x0.
      bind-Keeps i (resolve_u64 i w) _ (λ x1. bind-Keeps i (to_u32 x1) _ (λ x2. ok-Keeps i _)))
  step-Keeps (Statements.tuple_access n source) h not_carry =
      bind-Keeps i (resolve i source) _ (λ x0. bind-Keeps i (access x0 n) _ (λ x1. ok-Keeps i _))
  step-Keeps (Statements.create_tuple vs) h not_carry =
      bind-Keeps i (resolve_all i vs) _ (λ x0. ok-Keeps i _)
