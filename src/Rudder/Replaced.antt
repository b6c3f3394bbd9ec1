-- ===== src/Rudder/Replaced.antt =====
-- `Statement::replace_use`.
use icewind.Common.{ℕ, ◌==◌, if◌then◌else◌, List, [], ◌∷◌, none, some, Outcome, ok, panic}
use icewind.Rudder.Statements
use icewind.Rudder.Statements.{Statement}

module _ (use_of with : ℕ) where
  unfoldable pub swap : ℕ → ℕ
  swap v = if v == use_of then with else v

  unfoldable pub swap_all : List ℕ → List ℕ
  swap_all [] = []
  swap_all (v ∷ vs) = swap v ∷ swap_all vs

  unfoldable pub replace_use : Statement → Outcome Statement
  replace_use (Statements.return none) = ok (Statements.return none)
  replace_use (Statements.return (some v)) = ok (Statements.return (some (swap v)))
  replace_use (Statements.branch c t f) = ok (Statements.branch (swap c) t f)
  replace_use (Statements.write_variable symbol v) = ok (Statements.write_variable symbol (swap v))
  replace_use (Statements.binary_operation kind l r) =
      if l == use_of
      then ok (Statements.binary_operation kind with r)
      else if r == use_of
      then ok (Statements.binary_operation kind l with)
      else panic
  replace_use (Statements.add_with_carry a b c) =
      ok (Statements.add_with_carry (swap a) (swap b) (swap c))
  replace_use (Statements.unary_operation kind v) = ok (Statements.unary_operation kind (swap v))
  replace_use (Statements.cast kind t v) = ok (Statements.cast kind t (swap v))
  replace_use (Statements.bits_cast kind t v width) =
      ok (Statements.bits_cast kind t (swap v) (swap width))
  replace_use (Statements.call target args t) = ok (Statements.call target (swap_all args) t)
  replace_use (Statements.bit_extract v start width) =
      ok (Statements.bit_extract (swap v) (swap start) (swap width))
  replace_use (Statements.bit_replicate pattern count) =
      ok (Statements.bit_replicate (swap pattern) (swap count))
  replace_use (Statements.check c) = ok (Statements.check (swap c))
  replace_use (Statements.shift_operation kind v amount) =
      ok (Statements.shift_operation kind (swap v) (swap amount))
  replace_use (Statements.write_register offset v) =
      ok (Statements.write_register (swap offset) (swap v))
  replace_use (Statements.write_memory address v) =
      ok (Statements.write_memory (swap address) (swap v))
  replace_use (Statements.read_memory address size) =
      ok (Statements.read_memory (swap address) (swap size))
  replace_use (Statements.atomic_operation address compare operand kind) =
      ok (Statements.atomic_operation (swap address) (swap compare) (swap operand) (swap kind))
  replace_use (Statements.read_element v place) = ok (Statements.read_element (swap v) (swap place))
  replace_use (Statements.bit_insert target source start width) =
      ok (Statements.bit_insert (swap target) (swap source) (swap start) (swap width))
  replace_use (Statements.size_of v) = ok (Statements.size_of (swap v))
  replace_use (Statements.select c t f) = ok (Statements.select (swap c) (swap t) (swap f))
  replace_use (Statements.assign_element v value place) =
      ok (Statements.assign_element (swap v) (swap value) (swap place))
  replace_use (Statements.write_pc v) = ok (Statements.write_pc (swap v))
  replace_use (Statements.abort v) = ok (Statements.abort (swap v))
  replace_use (Statements.create_bits v width) = ok (Statements.create_bits (swap v) (swap width))
  replace_use (Statements.matches_union v variant) = ok (Statements.matches_union (swap v) variant)
  replace_use (Statements.unwrap_union v variant) = ok (Statements.unwrap_union (swap v) variant)
  replace_use (Statements.constant c) = panic
  replace_use (Statements.read_variable symbol) = panic
  replace_use (Statements.read_register t offset) = panic
  replace_use Statements.read_pc = panic
  replace_use (Statements.jump target) = panic
  replace_use (Statements.phi_node members) = panic
  replace_use (Statements.tuple_access n source) = ok (Statements.tuple_access n (swap source))
  replace_use (Statements.create_tuple vs) = ok (Statements.create_tuple (swap_all vs))
  replace_use (Statements.get_flags operation) = ok (Statements.get_flags (swap operation))
  replace_use (Statements.create_real n d) = ok (Statements.create_real (swap n) (swap d))
