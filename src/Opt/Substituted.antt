-- ===== src/Opt/Substituted.antt =====
-- A statement whose operand is replaced by another of the same value, in the interpreter.
use icewind.Common.{
  ℕ, ◌==◌, not, ◌≡◌, refl, sym, ap, inl, inr, subst, Bool, true, false, Bool-cases, ==_iff, List,
  [], ◌∷◌, none, some, Outcome, ok, ◌>>=◌, if◌then◌else◌, Returns, Option,
}
use icewind.Rudder.Statements
use icewind.Rudder.Statements.{Statement}
use icewind.Rudder.Replaced.{swap, swap_all, replace_use}
use icewind.Interpreter.Values.{Value}
use icewind.Interpreter.RegisterFile.{RegisterFile}
use icewind.Interpreter.Blocks.{
  Model, Interpreter, resolve, resolve_u64, resolve_all, as_u64, value_of,
}
use icewind.Interpreter.Run.{step, operand_type}
use icewind.Opt.Typed.{bind-eq}
use icewind.Opt.Uses.{used_by, has_uses}

-- `replace_use` gives up on a read of a register, whose offset is a use.
abbrev pub is_register_read : Statement → Bool
is_register_read (Statements.read_register t offset) = true
is_register_read _ = false

module _ (M : Model)
    (call_function : ℕ → List Value → RegisterFile → Outcome (Option Value × RegisterFile))
    (arena : List Statement) (i : Interpreter) (use_of with : ℕ)
    (value : resolve i with ≡ resolve i use_of)
    (type : operand_type arena with ≡ operand_type arena use_of) where
  swap-resolve : (v : ℕ) → resolve i (swap use_of with v) ≡ resolve i v
  unfolding swap
  swap-resolve v = elim (Bool-cases (v == use_of)) [
    | inl e ↦ rw e (subst (λ u. resolve i with ≡ resolve i u) (sym ((==_iff v use_of).0 e)) value)
    | inr n ↦ rw n refl
  ]

  swap-resolve_u64 : (v : ℕ) → resolve_u64 i (swap use_of with v) ≡ resolve_u64 i v
  unfolding resolve_u64
  swap-resolve_u64 v = ap (λ r. r >>= as_u64) (swap-resolve v)

  swap-operand_type : (v : ℕ) → operand_type arena (swap use_of with v) ≡ operand_type arena v
  unfolding swap
  swap-operand_type v = elim (Bool-cases (v == use_of)) [
    | inl e ↦ rw e (
        subst (λ u. operand_type arena with ≡ operand_type arena u) (sym ((==_iff v use_of).0 e))
          type)
    | inr n ↦ rw n refl
  ]

  swap-resolve_if :
      (b : Bool) (t f : ℕ)
      → resolve i (if b then swap use_of with t else swap use_of with f)
        ≡ resolve i (if b then t else f)
  swap-resolve_if true t f = swap-resolve t
  swap-resolve_if false t f = swap-resolve f

  swap-resolve_all : (vs : List ℕ) → resolve_all i (swap_all use_of with vs) ≡ resolve_all i vs
  unfolding swap_all resolve_all
  swap-resolve_all [] = refl
  swap-resolve_all (v ∷ vs) = rw (swap-resolve v, swap-resolve_all vs) refl

  -- Let two statements have the same value in the interpreter and the same type in the arena.
  -- For a statement that the analysis counts as a use of the second, and that is not a register
  -- read, the replacement of the second by the first returns, and a step of the new statement is
  -- that of the old one.
  pub replace_use_lem :
      (s : Statement)
      → has_uses (used_by s) use_of ≡ true
      → is_register_read s ≡ false
      → Returns
          (replace_use use_of with s)
          (λ s'. step M call_function arena i s' ≡ step M call_function arena i s)
  unfolding replace_use used_by has_uses step
  replace_use_lem (Statements.read_variable symbol) u n = absurd cc
  replace_use_lem Statements.read_pc u n = absurd cc
  replace_use_lem (Statements.jump t) u n = absurd cc
  replace_use_lem (Statements.phi_node ms) u n = absurd cc
  replace_use_lem (Statements.constant d) u n = absurd cc
  replace_use_lem (Statements.read_register t o) u n = absurd cc
  replace_use_lem (Statements.return none) u n = absurd cc
  replace_use_lem (Statements.read_memory a b) u n = refl
  replace_use_lem (Statements.write_memory a b) u n = refl
  replace_use_lem (Statements.atomic_operation a b d e) u n = refl
  replace_use_lem (Statements.bit_replicate a b) u n = refl
  replace_use_lem (Statements.read_element a b) u n = refl
  replace_use_lem (Statements.abort v) u n = refl
  replace_use_lem (Statements.matches_union v b) u n = refl
  replace_use_lem (Statements.unwrap_union v b) u n = refl
  replace_use_lem (Statements.create_real a b) u n = refl
  replace_use_lem (Statements.get_flags a) u n = refl
  replace_use_lem (Statements.return (some v)) u n = rw (swap-resolve v) refl
  replace_use_lem (Statements.branch a t f) u n = rw (swap-resolve_u64 a) refl
  replace_use_lem (Statements.write_variable symbol v) u n = rw (swap-resolve v) refl
  replace_use_lem (Statements.add_with_carry a b d) u n =
      rw (swap-resolve a, swap-resolve b, swap-resolve d) refl
  replace_use_lem (Statements.unary_operation kind v) u n = rw (swap-resolve v) refl
  replace_use_lem (Statements.cast kind t v) u n = rw (swap-operand_type v, swap-resolve v) refl
  replace_use_lem (Statements.bits_cast kind t v w) u n =
      rw (swap-resolve v, swap-resolve_u64 w) refl
  replace_use_lem (Statements.call target args t) u n = rw (swap-resolve_all args) refl
  replace_use_lem (Statements.bit_extract v a b) u n =
      rw (swap-resolve v, swap-resolve_u64 a, swap-resolve_u64 b) refl
  replace_use_lem (Statements.check a) u n = rw (swap-resolve_u64 a) refl
  replace_use_lem (Statements.shift_operation kind v a) u n =
      rw (swap-resolve_u64 a, swap-resolve v) refl
  replace_use_lem (Statements.write_register a v) u n = rw (swap-resolve_u64 a, swap-resolve v) refl
  replace_use_lem (Statements.bit_insert a b d e) u n =
      rw (swap-resolve a, swap-resolve_u64 b, swap-resolve_u64 d, swap-resolve_u64 e) refl
  replace_use_lem (Statements.size_of v) u n = rw (swap-resolve v) refl
  replace_use_lem (Statements.select a t f) u n = rw (swap-resolve_u64 a) (
      bind-eq (resolve_u64 i a) (λ condition.
        ap (λ r. r >>= λ result. ok (value_of (some result) i))
          (swap-resolve_if (not (condition == 0)) t f)))
  replace_use_lem (Statements.assign_element v a b) u n =
      rw (swap-resolve v, swap-resolve a, swap-resolve_u64 b) refl
  replace_use_lem (Statements.write_pc v) u n = rw (swap-resolve_u64 v) refl
  replace_use_lem (Statements.create_bits v w) u n =
      rw (swap-resolve_u64 v, swap-resolve_u64 w) refl
  replace_use_lem (Statements.tuple_access n' source) u n = rw (swap-resolve source) refl
  replace_use_lem (Statements.create_tuple vs) u n = rw (swap-resolve_all vs) refl
  replace_use_lem (Statements.binary_operation kind l r) u n = elim (Bool-cases (l == use_of)) [
    | inl e ↦
        let left : resolve i with ≡ resolve i l =
          subst (λ v. resolve i with ≡ resolve i v) (sym ((==_iff l use_of).0 e)) value in
        rw (e, left) refl
    | inr n' ↦ elim (Bool-cases (r == use_of)) [
      | inl e ↦
          let right : resolve i with ≡ resolve i r =
            subst (λ v. resolve i with ≡ resolve i v) (sym ((==_iff r use_of).0 e)) value in
          rw (n', e, right) refl
      | inr n'' ↦ let never : false ≡ true = rw (n', n'') at u in absurd cc
    ]
  ]
