-- ===== src/Rudder/Statements.antt =====
-- `Statement` with its `typ`, common/src/rudder/statement.rs, and the blocks and functions that have
-- statements.
use icewind.Common.{
  ℕ, zero, suc, ◌^◌, ltb, List, [], ◌∷◌, Bool, true, false, if◌then◌else◌, Outcome, ok, panic, hang,
  ◌>>=◌, index, Option, none, some, unwrap,
}
use icewind.Rudder.Types.{
  Typ, Typs, primitive, unsigned_integer, signed_integer, vector, tuple, bits, real, end, and,
}
use icewind.Rudder.Constants
use icewind.Rudder.Constants.{Constant, unsigned, signed}

pub data UnaryOperationKind : Type 0 where
  complement_bits : UnaryOperationKind
  not : UnaryOperationKind
  negate : UnaryOperationKind
  power2 : UnaryOperationKind
  absolute : UnaryOperationKind
  ceil : UnaryOperationKind
  floor : UnaryOperationKind
  square_root : UnaryOperationKind

pub data BinaryOperationKind : Type 0 where
  add : BinaryOperationKind
  sub : BinaryOperationKind
  multiply : BinaryOperationKind
  divide : BinaryOperationKind
  modulo : BinaryOperationKind
  conjunction : BinaryOperationKind
  disjunction : BinaryOperationKind
  xor : BinaryOperationKind
  pow_i : BinaryOperationKind
  compare_equal : BinaryOperationKind
  compare_not_equal : BinaryOperationKind
  compare_less_than : BinaryOperationKind
  compare_less_than_or_equal : BinaryOperationKind
  compare_greater_than : BinaryOperationKind
  compare_greater_than_or_equal : BinaryOperationKind

pub data CastOperationKind : Type 0 where
  zero_extend : CastOperationKind
  sign_extend : CastOperationKind
  truncate : CastOperationKind
  reinterpret : CastOperationKind
  convert : CastOperationKind
  broadcast : CastOperationKind

pub data ShiftOperationKind : Type 0 where
  logical_shift_left : ShiftOperationKind
  logical_shift_right : ShiftOperationKind
  arithmetic_shift_right : ShiftOperationKind
  rotate_right : ShiftOperationKind
  rotate_left : ShiftOperationKind

pub record Symbol : Type 0 where
  pub name : ℕ
  pub typ : Typ

-- References to statements and blocks are places in their arenas, and names are interned. The one
-- kind of ternary operation is in the name of its constructor.
pub data Statement : Type 0 where
  constant : Constant → Statement
  read_variable : Symbol → Statement
  write_variable : Symbol → ℕ → Statement
  read_register : Typ → ℕ → Statement
  write_register : ℕ → ℕ → Statement
  read_memory : ℕ → ℕ → Statement
  write_memory : ℕ → ℕ → Statement
  atomic_operation : ℕ → ℕ → ℕ → ℕ → Statement
  read_pc : Statement
  write_pc : ℕ → Statement
  get_flags : ℕ → Statement
  unary_operation : UnaryOperationKind → ℕ → Statement
  binary_operation : BinaryOperationKind → ℕ → ℕ → Statement
  add_with_carry : ℕ → ℕ → ℕ → Statement
  shift_operation : ShiftOperationKind → ℕ → ℕ → Statement
  call : ℕ → List ℕ → Option Typ → Statement
  cast : CastOperationKind → Typ → ℕ → Statement
  bits_cast : CastOperationKind → Typ → ℕ → ℕ → Statement
  jump : ℕ → Statement
  branch : ℕ → ℕ → ℕ → Statement
  phi_node : List (ℕ × ℕ) → Statement
  return : Option ℕ → Statement
  select : ℕ → ℕ → ℕ → Statement
  bit_extract : ℕ → ℕ → ℕ → Statement
  bit_insert : ℕ → ℕ → ℕ → ℕ → Statement
  bit_replicate : ℕ → ℕ → Statement
  read_element : ℕ → ℕ → Statement
  assign_element : ℕ → ℕ → ℕ → Statement
  abort : ℕ → Statement  -- `Panic`
  check : ℕ → Statement  -- `Assert`
  create_bits : ℕ → ℕ → Statement
  size_of : ℕ → Statement
  matches_union : ℕ → ℕ → Statement
  unwrap_union : ℕ → ℕ → Statement
  create_real : ℕ → ℕ → Statement
  create_tuple : List ℕ → Statement
  tuple_access : ℕ → ℕ → Statement

pub record Block : Type 0 where
  pub statement_arena : List Statement
  pub statements : List ℕ

pub record Function : Type 0 where
  pub parameters : List Symbol
  pub entry_block : ℕ
  pub arena : List Block

unfoldable pub is_comparison : BinaryOperationKind → Bool
is_comparison compare_equal = true
is_comparison compare_not_equal = true
is_comparison compare_less_than = true
is_comparison compare_less_than_or_equal = true
is_comparison compare_greater_than = true
is_comparison compare_greater_than_or_equal = true
is_comparison _ = false

abbrev unsigned_typ : ℕ → Typ
unsigned_typ w = primitive (unsigned_integer w)

-- the types of the parts of a tuple, each of which has one
unfoldable pub part_types : (ℕ → Outcome (Option Typ)) → List ℕ → Outcome Typs
part_types at [] = ok end
part_types at (v ∷ vs) = do found ← at v; t ← unwrap found; ts ← part_types at vs; ok (and t ts)

-- `ts[index]`
unfoldable pub part : Typs → ℕ → Outcome Typ
part end n = panic
part (and t ts) zero = ok t
part (and t ts) (suc n) = part ts n

unfoldable pub element_of : Option Typ → Outcome (Option Typ)
element_of (some (vector n t)) = ok (some t)
element_of _ = panic

unfoldable pub part_of : ℕ → Option Typ → Outcome (Option Typ)
part_of n (some (tuple ts)) = do t ← part ts n; ok (some t)
part_of n _ = panic

-- the type of an extracted field: of the width, where that is a constant
unfoldable pub field_typ : Outcome (Option Typ) → Statement → Outcome (Option Typ)
field_typ whole (constant (unsigned l w)) =
    if ltb l (2 ^ 32) then ok (some (unsigned_typ l)) else panic
field_typ whole (constant (signed l w)) =
    if ltb l (2 ^ 32) then ok (some (unsigned_typ l)) else panic
field_typ whole (constant (Constants.floating v w)) = panic
field_typ whole (constant (Constants.text s)) = panic
field_typ whole (constant (Constants.tuple_of cs)) = panic
field_typ whole (constant (Constants.vector_of cs)) = panic
field_typ whole _ = whole

-- `typ`, with fuel for the chain of statements that refer to one another
unfoldable pub typ_of : ℕ → List Statement → Statement → Outcome (Option Typ)
typ_of zero arena s = hang
typ_of (suc fuel) arena (constant c) = do t ← Constants.typ c; ok (some t)
typ_of (suc fuel) arena (read_variable symbol) = ok (some symbol.typ)
typ_of (suc fuel) arena (read_register t offset) = ok (some t)
typ_of (suc fuel) arena (read_memory address size) = ok (some bits)
typ_of (suc fuel) arena (atomic_operation a b c d) = ok (some bits)
typ_of (suc fuel) arena (binary_operation kind l r) =
    let operand : Outcome (Option Typ) = index arena l >>= typ_of fuel arena in
    if is_comparison kind then ok (some (unsigned_typ 1)) else operand
typ_of (suc fuel) arena (add_with_carry a b c) = index arena a >>= typ_of fuel arena
typ_of (suc fuel) arena (unary_operation ceil v) = ok (some (primitive (signed_integer 64)))
typ_of (suc fuel) arena (unary_operation floor v) = ok (some (primitive (signed_integer 64)))
typ_of (suc fuel) arena (unary_operation _ v) = index arena v >>= typ_of fuel arena
typ_of (suc fuel) arena (shift_operation kind v amount) = index arena v >>= typ_of fuel arena
typ_of (suc fuel) arena (call target args return_type) = ok return_type
typ_of (suc fuel) arena (cast kind t v) = ok (some t)
typ_of (suc fuel) arena (bits_cast kind t v w) = ok (some t)
typ_of (suc fuel) arena (phi_node []) = ok none
typ_of (suc fuel) arena (phi_node ((b, s) ∷ members)) = index arena s >>= typ_of fuel arena
typ_of (suc fuel) arena (select c t f) = index arena t >>= typ_of fuel arena
typ_of (suc fuel) arena read_pc = ok (some (unsigned_typ 64))
typ_of (suc fuel) arena (bit_extract v start width) = do
  length ← index arena width
  field_typ (index arena v >>= typ_of fuel arena) length
typ_of (suc fuel) arena (bit_insert target source start width) =
    index arena target >>= typ_of fuel arena
typ_of (suc fuel) arena (bit_replicate pattern count) = ok (some bits)
typ_of (suc fuel) arena (read_element v i) = do
  found ← index arena v >>= typ_of fuel arena
  element_of found
typ_of (suc fuel) arena (assign_element v value i) = index arena v >>= typ_of fuel arena
typ_of (suc fuel) arena (size_of v) = ok (some (unsigned_typ 16))
typ_of (suc fuel) arena (create_bits v w) = ok (some bits)
typ_of (suc fuel) arena (matches_union v variant) = ok (some (unsigned_typ 1))
typ_of (suc fuel) arena (unwrap_union v variant) = panic
typ_of (suc fuel) arena (tuple_access i source) = do
  found ← index arena source >>= typ_of fuel arena
  part_of i found
typ_of (suc fuel) arena (get_flags operation) = ok (some (unsigned_typ 4))
typ_of (suc fuel) arena (create_tuple vs) = do
  ts ← part_types (λ v. index arena v >>= typ_of fuel arena) vs
  ok (some (tuple ts))
typ_of (suc fuel) arena (create_real n d) = ok (some real)
typ_of (suc fuel) arena _ = ok none
