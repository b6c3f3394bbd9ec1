-- ===== src/Interpreter/Extends.antt =====
-- Outcomes that agree unless one of them ran out of fuel, for the steps of the interpreter.
use icewind.Common.{
  ℕ, List, ◌≡◌, ◌≢◌, refl, ap, sym, ◌∙◌, Outcome, ok, panic, hang, ◌>>=◌, Option, none, some,
}
use icewind.Rudder.Statements
use icewind.Rudder.Statements.{Statement}
use icewind.Interpreter.Values.{Value}
use icewind.Interpreter.RegisterFile.{RegisterFile}
use icewind.Interpreter.Blocks.{
  Model, Interpreter, BlockResult, next_block, return_value, Done, value_of, ended, resolve_all,
}
use icewind.Interpreter.Run.{step, operand_type}

-- `after` is `before`, unless that ran out of fuel
abbrev pub Extends {ℓ} : {A : Type ℓ} → Outcome A → Outcome A → Type ℓ
Extends before after = before ≢ hang → after ≡ before

pub unchanged {ℓ} : {A : Type ℓ} {a : Outcome A} → Extends a a
unchanged ne = refl

pub trans-Extends {ℓ} : {A : Type ℓ} {a b c : Outcome A} → Extends a b → Extends b c → Extends a c
trans-Extends h k ne = k (λ e. ne (sym (h ne) ∙ e)) ∙ h ne

pub bind-Extends {ℓ κ} :
    {A : Type ℓ} {B : Type κ} (before after : Outcome A) (f g : A → Outcome B)
    → Extends before after
    → ((a : A) → Extends (f a) (g a))
    → Extends (before >>= f) (after >>= g)
bind-Extends (ok a) after f g h k ne = ap (λ r. r >>= g) (h (λ e. cc)) ∙ k a ne
bind-Extends panic after f g h k ne = ap (λ r. r >>= g) (h (λ e. cc))
bind-Extends hang after f g h k ne = absurd (ne refl)

pub done-Extends {ℓ} :
    {A : Type ℓ} (done : Done) (f g : Option Value → Interpreter → Outcome A)
    (h : BlockResult → Interpreter → Outcome A)
    → ((v : Option Value) (i : Interpreter) → Extends (f v i) (g v i))
    → Extends
        (elim done [ value_of v i ↦ f v i | ended result i ↦ h result i ])
        (elim done [ value_of v i ↦ g v i | ended result i ↦ h result i ])
done-Extends (value_of v i) f g h k = k v i
done-Extends (ended result i) f g h k = unchanged

pub result-Extends {ℓ} :
    {A : Type ℓ} (result : BlockResult) (f g : ℕ → Outcome A) (h : Option Value → Outcome A)
    → ((next : ℕ) → Extends (f next) (g next))
    → Extends
        (elim result [ next_block next ↦ f next | return_value v ↦ h v ])
        (elim result [ next_block next ↦ g next | return_value v ↦ h v ])
result-Extends (next_block next) f g h k = k next
result-Extends (return_value v) f g h k = unchanged

module _ (M : Model)
    (before after : ℕ → List Value → RegisterFile → Outcome (Option Value × RegisterFile))
    (calls : (name : ℕ) (vs : List Value) (file : RegisterFile)
      → Extends (before name vs file) (after name vs file))
    (arena arena' : List Statement)
    (types : (v : ℕ) → Extends (operand_type arena v) (operand_type arena' v)) where
  pub step-Extends :
      (i : Interpreter) (s : Statement)
      → Extends (step M before arena i s) (step M after arena' i s)
  unfolding step
  step-Extends i (Statements.call target args t) =
      bind-Extends (resolve_all i args) (resolve_all i args) _ _ (λ ne. refl)
        (λ vs.
          bind-Extends (before target vs i.register_file) (after target vs i.register_file) _ _
            (calls target vs i.register_file) (λ result ne. refl))
  step-Extends i (Statements.read_variable a) = unchanged
  step-Extends i (Statements.write_variable a b) = unchanged
  step-Extends i (Statements.read_register a b) = unchanged
  step-Extends i (Statements.write_register a b) = unchanged
  step-Extends i (Statements.read_memory a b) = unchanged
  step-Extends i (Statements.write_memory a b) = unchanged
  step-Extends i (Statements.atomic_operation a b c d) = unchanged
  step-Extends i Statements.read_pc = unchanged
  step-Extends i (Statements.write_pc a) = unchanged
  step-Extends i (Statements.get_flags a) = unchanged
  step-Extends i (Statements.unary_operation a b) = unchanged
  step-Extends i (Statements.binary_operation a b c) = unchanged
  step-Extends i (Statements.add_with_carry a b c) = unchanged
  step-Extends i (Statements.shift_operation a b c) = unchanged
  step-Extends i (Statements.cast kind t v) =
      bind-Extends (operand_type arena v) (operand_type arena' v) _ _ (types v)
        (λ source. unchanged)
  step-Extends i (Statements.bits_cast a b c d) = unchanged
  step-Extends i (Statements.jump a) = unchanged
  step-Extends i (Statements.branch a b c) = unchanged
  step-Extends i (Statements.phi_node a) = unchanged
  step-Extends i (Statements.select a b c) = unchanged
  step-Extends i (Statements.bit_extract a b c) = unchanged
  step-Extends i (Statements.bit_insert a b c d) = unchanged
  step-Extends i (Statements.bit_replicate a b) = unchanged
  step-Extends i (Statements.read_element a b) = unchanged
  step-Extends i (Statements.assign_element a b c) = unchanged
  step-Extends i (Statements.abort a) = unchanged
  step-Extends i (Statements.check a) = unchanged
  step-Extends i (Statements.create_bits a b) = unchanged
  step-Extends i (Statements.size_of a) = unchanged
  step-Extends i (Statements.matches_union a b) = unchanged
  step-Extends i (Statements.unwrap_union a b) = unchanged
  step-Extends i (Statements.create_real a b) = unchanged
  step-Extends i (Statements.create_tuple a) = unchanged
  step-Extends i (Statements.tuple_access a b) = unchanged
  step-Extends i (Statements.constant a) = unchanged
  step-Extends i (Statements.return none) = unchanged
  step-Extends i (Statements.return (some v)) = unchanged
