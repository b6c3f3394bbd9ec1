-- ===== src/Opt/Agreed.antt =====
-- A step of the interpreter from states whose values differ where the statement does not look.
use icewind.Common.{
  ℕ, ◌==◌, not, ◌≡◌, refl, Bool, true, false, List, [], ◌∷◌, none, some, Outcome, ok, panic, hang,
  ◌>>=◌, if◌then◌else◌, Option, unwrap,
}
use icewind.Rudder.Statements
use icewind.Rudder.Statements.{Statement}
use icewind.Interpreter.Values.{Value}
use icewind.Interpreter.RegisterFile.{RegisterFile}
use icewind.Interpreter.Blocks.{
  Model, Interpreter, Done, value_of, ended, resolve, resolve_u64, resolve_all, unary, binary,
  extract, insert_field, assign_in, access, size_of,
}
use icewind.Interpreter.Run.{step, operand_type}
use icewind.Interpreter.RegisterFile.{write_raw}
use icewind.Interpreter.Registers
use icewind.Interpreter.Casts.{cast_value, cast_bits, shift_value, add_carry}
use icewind.BitFields.Defs.{to_u32}
use icewind.Opt.Uses.{used_by}

-- the values agree at the places of the list
abbrev pub Agree : (m m' : ℕ → Option Value) → List ℕ → Type 0
Agree m m' [] = Unit {0}
Agree m m' (x ∷ xs) = (m' x ≡ m x) × Agree m m' xs

unfoldable pub with_values : (ℕ → Option Value) → Done → Done
with_values m (value_of v i) = value_of v (record i { statement_values = m })
with_values m (ended result i) = ended result (record i { statement_values = m })

-- an outcome with other values in its state
unfoldable pub retarget : (ℕ → Option Value) → Outcome Done → Outcome Done
retarget m r = r >>= λ done. ok (with_values m done)

bind-retarget {ℓ} :
    {A : Type ℓ} (m : ℕ → Option Value) (r : Outcome A) (k k' : A → Outcome Done)
    → ((a : A) → k' a ≡ retarget m (k a))
    → (r >>= k') ≡ retarget m (r >>= k)
unfolding retarget
bind-retarget m (ok a) k k' h = h a
bind-retarget m panic k k' h = refl
bind-retarget m hang k k' h = refl

resolve_all-Agree :
    (i : Interpreter) (m : ℕ → Option Value) (vs : List ℕ)
    → Agree i.statement_values m vs
    → resolve_all (record i { statement_values = m }) vs ≡ resolve_all i vs
unfolding resolve_all resolve
resolve_all-Agree i m [] u = refl
resolve_all-Agree i m (v ∷ vs) u = rw (u.0, resolve_all-Agree i m vs (u.1)) refl

module _ (M : Model)
    (call_function : ℕ → List Value → RegisterFile → Outcome (Option Value × RegisterFile))
    (arena : List Statement) (i : Interpreter) (m : ℕ → Option Value) where
  select-retarget :
      (b : Bool) (t f : ℕ)
      → m t ≡ i.statement_values t
      → m f ≡ i.statement_values f
      → (resolve (record i { statement_values = m }) (if b then t else f) >>= λ v.
          ok (value_of (some v) (record i { statement_values = m })))
        ≡ retarget m (resolve i (if b then t else f) >>= λ v. ok (value_of (some v) i))
  unfolding resolve retarget with_values
  select-retarget true t f h h' = rw h (
      bind-retarget m (resolve i t) (λ v. ok (value_of (some v) i))
        (λ v. ok (value_of (some v) (record i { statement_values = m }))) (λ v. refl))
  select-retarget false t f h h' = rw h' (
      bind-retarget m (resolve i f) (λ v. ok (value_of (some v) i))
        (λ v. ok (value_of (some v) (record i { statement_values = m }))) (λ v. refl))

  check-retarget :
      (b : Bool)
      → (if b then panic else ok (value_of none (record i { statement_values = m })))
        ≡ retarget m (if b then panic else ok (value_of none i))
  unfolding retarget with_values
  check-retarget true = refl
  check-retarget false = refl

  pub step-retarget :
      (s : Statement)
      → Agree i.statement_values m (used_by s)
      → step M call_function arena (record i { statement_values = m }) s
        ≡ retarget m (step M call_function arena i s)
  unfolding step used_by retarget with_values resolve_u64 resolve
  step-retarget Statements.read_pc u = refl
  step-retarget (Statements.jump t) u = refl
  step-retarget (Statements.phi_node ms) u = refl
  step-retarget (Statements.constant d) u = refl
  step-retarget (Statements.return none) u = refl
  step-retarget (Statements.read_memory a b) u = refl
  step-retarget (Statements.write_memory a b) u = refl
  step-retarget (Statements.atomic_operation a b d e) u = refl
  step-retarget (Statements.bit_replicate a b) u = refl
  step-retarget (Statements.read_element a b) u = refl
  step-retarget (Statements.abort v) u = refl
  step-retarget (Statements.matches_union v b) u = refl
  step-retarget (Statements.unwrap_union v b) u = refl
  step-retarget (Statements.create_real a b) u = refl
  step-retarget (Statements.get_flags a) u = refl
  step-retarget (Statements.read_variable symbol) u =
      bind-retarget m (unwrap (i.locals symbol.name)) _ _ (λ x0. refl)
  step-retarget (Statements.return (some v)) u =
      rw (u.0) (bind-retarget m (resolve i v) _ _ (λ x0. refl))
  step-retarget (Statements.branch a t f) u =
      rw (u.0) (bind-retarget m (resolve_u64 i a) _ _ (λ x0. refl))
  step-retarget (Statements.write_variable symbol v) u =
      rw (u.0) (bind-retarget m (resolve i v) _ _ (λ x0. refl))
  step-retarget (Statements.read_register t a) u = rw (u.0) (
      bind-retarget m (resolve_u64 i a) _ _
        (λ x0. bind-retarget m (Registers.read_register i.register_file t x0) _ _ (λ x1. refl)))
  step-retarget (Statements.add_with_carry a b d) u =
      rw (u.0, u.1.0, u.1.1.0)
        (bind-retarget m (resolve i a) _ _ (λ x0. bind-retarget m (resolve i b) _ _ (λ x1.
          bind-retarget m (resolve i d) _ _
            (λ x2. bind-retarget m (add_carry x0 x1 x2) _ _ (λ x3. refl)))))
  step-retarget (Statements.unary_operation kind v) u =
      rw (u.0)
        (bind-retarget m (resolve i v) _ _ (λ x0. bind-retarget m (unary kind x0) _ _ (λ x1. refl)))
  step-retarget (Statements.binary_operation kind l r) u =
      rw (u.0, u.1.0)
        (bind-retarget m (resolve i l) _ _ (λ x0.
          bind-retarget m (resolve i r) _ _
            (λ x1. bind-retarget m (binary kind x0 x1) _ _ (λ x2. refl))))
  step-retarget (Statements.cast kind t v) u = rw (u.0) (
      bind-retarget m (operand_type arena v) _ _ (λ x0.
        bind-retarget m (resolve i v) _ _
          (λ x1. bind-retarget m (cast_value kind t x0 x1) _ _ (λ x2. refl))))
  step-retarget (Statements.bits_cast kind t v w) u =
      rw (u.0, u.1.0)
        (bind-retarget m (resolve i v) _ _ (λ x0. bind-retarget m (resolve_u64 i w) _ _ (λ x1.
          bind-retarget m (to_u32 x1) _ _
            (λ x2. bind-retarget m (cast_bits kind t x2 x0) _ _ (λ x3. refl)))))
  step-retarget (Statements.call target args t) u = rw (resolve_all-Agree i m args u) (
      bind-retarget m (resolve_all i args) _ _
        (λ x0. bind-retarget m (call_function target x0 i.register_file) _ _ (λ x1. refl)))
  step-retarget (Statements.bit_extract v a b) u =
      rw (u.0, u.1.0, u.1.1.0)
        (bind-retarget m (resolve i v) _ _ (λ x0. bind-retarget m (resolve_u64 i a) _ _ (λ x1.
          bind-retarget m (resolve_u64 i b) _ _
            (λ x2. bind-retarget m (extract x0 x1 x2) _ _ (λ x3. refl)))))
  step-retarget (Statements.check a) u =
      rw (u.0) (bind-retarget m (resolve_u64 i a) _ _ (λ x0. check-retarget (x0 == 0)))
  step-retarget (Statements.shift_operation kind v a) u =
      rw (u.0, u.1.0)
        (bind-retarget m (resolve_u64 i a) _ _ (λ x0.
          bind-retarget m (resolve i v) _ _
            (λ x1. bind-retarget m (shift_value kind x0 x1) _ _ (λ x2. refl))))
  step-retarget (Statements.write_register a v) u =
      rw (u.0, u.1.0)
        (bind-retarget m (resolve_u64 i a) _ _ (λ x0. bind-retarget m (resolve i v) _ _ (λ x1.
          bind-retarget m (Registers.write_register i.register_file x1 x0) _ _ (λ x2. refl))))
  step-retarget (Statements.bit_insert a b d e) u =
      rw (u.0, u.1.0, u.1.1.0, u.1.1.1.0)
        (bind-retarget m (resolve i a) _ _ (λ x0. bind-retarget m (resolve_u64 i b) _ _ (λ x1.
          bind-retarget m (resolve_u64 i d) _ _ (λ x2.
            bind-retarget m (resolve_u64 i e) _ _
              (λ x3. bind-retarget m (insert_field x0 x1 x2 x3) _ _ (λ x4. refl))))))
  step-retarget (Statements.size_of v) u =
      rw (u.0)
        (bind-retarget m (resolve i v) _ _ (λ x0. bind-retarget m (size_of x0) _ _ (λ x1. refl)))
  step-retarget (Statements.select a t f) u = rw (u.0) (
      bind-retarget m (resolve_u64 i a) _ _
        (λ x0. select-retarget (not (x0 == 0)) t f (u.1.0) (u.1.1.0)))
  step-retarget (Statements.assign_element v a b) u =
      rw (u.0, u.1.0, u.1.1.0)
        (bind-retarget m (resolve i v) _ _ (λ x0. bind-retarget m (resolve i a) _ _ (λ x1.
          bind-retarget m (resolve_u64 i b) _ _
            (λ x2. bind-retarget m (assign_in x0 x2 x1) _ _ (λ x3. refl)))))
  step-retarget (Statements.write_pc v) u = rw (u.0) (
      bind-retarget m (resolve_u64 i v) _ _
        (λ x0. bind-retarget m (write_raw i.register_file 8 M.pc_offset x0) _ _ (λ x1. refl)))
  step-retarget (Statements.create_bits v w) u =
      rw (u.0, u.1.0)
        (bind-retarget m (resolve_u64 i v) _ _ (λ x0.
          bind-retarget m (resolve_u64 i w) _ _
            (λ x1. bind-retarget m (to_u32 x1) _ _ (λ x2. refl))))
  step-retarget (Statements.tuple_access n source) u = rw (u.0) (
      bind-retarget m (resolve i source) _ _ (λ x0. bind-retarget m (access x0 n) _ _ (λ x1. refl)))
  step-retarget (Statements.create_tuple vs) u =
      rw (resolve_all-Agree i m vs u) (bind-retarget m (resolve_all i vs) _ _ (λ x0. refl))
