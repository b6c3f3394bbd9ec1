-- ===== src/Interpreter/Blocks.antt =====
-- `interpret` and `Interpreter`: the statements of a block, and blocks and calls until a return.
use icewind.Common.{
  ℕ, zero, suc, List, [], ◌∷◌, ◌==◌, not, if◌then◌else◌, Bool, true, false, complement, of_bool,
  Outcome, ok, panic, ◌>>=◌, unwrap, Option, some,
}
use icewind.BitFields.Defs.{to_u32, bit_extract, bit_insert}
use icewind.Rudder.Integers.{Ordering, less, greater, neg, unsigned_as}
use icewind.Rudder.Statements
use icewind.Rudder.Statements.{
  Statement, Symbol, Block, Function, UnaryOperationKind, BinaryOperationKind, typ_of,
}
use icewind.Interpreter.Values
use icewind.Interpreter.Values.{
  Value, Values, unsigned_integer, signed_integer, vector, tuple, empty, item, from_constant, same,
  partial_cmp,
}
use icewind.Interpreter.RegisterFile.{RegisterFile}

-- The functions of the model by name, and the offset of the register `_PC`.
pub record Model : Type 0 where
  pub functions : ℕ → Option Function
  pub pc_offset : ℕ

pub record Interpreter : Type 0 where
  pub locals : ℕ → Option Value
  pub statement_values : ℕ → Option Value
  pub register_file : RegisterFile
  pub flags : ℕ

-- `insert` of a map
unfoldable pub insert : (ℕ → Option Value) → ℕ → Value → ℕ → Option Value
insert m key value k = if k == key then some value else m k

pub data BlockResult : Type 0 where
  next_block : ℕ → BlockResult
  return_value : Option Value → BlockResult

-- What a statement does: it may have a value, or end the block.
pub data Done : Type 0 where
  value_of : Option Value → Interpreter → Done
  ended : BlockResult → Interpreter → Done

abbrev bit_value : Bool → Value
bit_value b = unsigned_integer (of_bool b) 1

unfoldable pub resolve : Interpreter → ℕ → Outcome Value
resolve i ref = unwrap (i.statement_values ref)

unfoldable pub as_u64 : Value → Outcome ℕ
as_u64 (unsigned_integer v w) = ok v
as_u64 (signed_integer v w) = unsigned_as v
as_u64 _ = panic

unfoldable pub resolve_u64 : Interpreter → ℕ → Outcome ℕ
resolve_u64 i ref = resolve i ref >>= as_u64

unfoldable pub resolve_all : Interpreter → List ℕ → Outcome (List Value)
resolve_all i [] = ok []
resolve_all i (r ∷ rs) = do v ← resolve i r; vs ← resolve_all i rs; ok (v ∷ vs)

unfoldable pub unary : UnaryOperationKind → Value → Outcome Value
unary Statements.not (unsigned_integer v w) = ok (bit_value (v == 0))
unary Statements.complement_bits (unsigned_integer v w) = ok (unsigned_integer (complement 64 v) w)
unary Statements.negate (signed_integer v w) = ok (signed_integer (neg v) w)
unary _ _ = panic

-- the comparisons that hold for an ordering
abbrev is_less : Ordering → Bool
is_less less = true
is_less _ = false

abbrev is_greater : Ordering → Bool
is_greater greater = true
is_greater _ = false

abbrev compared : Value → Value → (Ordering → Bool) → Outcome Value
compared l r test = partial_cmp l r >>= λ o. ok (bit_value (test o))

unfoldable pub binary : BinaryOperationKind → Value → Value → Outcome Value
binary Statements.compare_equal l r = ok (bit_value (same l r))
binary Statements.compare_not_equal l r = ok (bit_value (not (same l r)))
binary Statements.compare_less_than l r = compared l r is_less
binary Statements.compare_less_than_or_equal l r = compared l r (λ o. not (is_greater o))
binary Statements.compare_greater_than l r = compared l r is_greater
binary Statements.compare_greater_than_or_equal l r = compared l r (λ o. not (is_less o))
binary Statements.sub l r = Values.sub l r
binary Statements.add l r = Values.add l r
binary Statements.multiply l r = Values.mul l r
binary Statements.disjunction l r = Values.bitor l r
binary Statements.conjunction l r = Values.bitand l r
binary Statements.divide l r = Values.div l r
binary _ l r = panic

unfoldable pub extract : Value → ℕ → ℕ → Outcome Value
extract (unsigned_integer v w) start width = do
  field ← bit_extract v start width
  width' ← to_u32 width
  ok (unsigned_integer field width')
extract (signed_integer v w) start width = do
  field ← bit_extract v start width
  width' ← to_u32 width
  ok (signed_integer field width')
extract _ start width = panic

unfoldable pub insert_field : Value → ℕ → ℕ → ℕ → Outcome Value
insert_field (unsigned_integer target w) source start width = do
  word ← bit_insert target source start width
  ok (unsigned_integer word w)
insert_field _ source start width = panic

-- `vec[index] = value`
unfoldable pub assign : Values → ℕ → Value → Outcome Values
assign empty n value = panic
assign (item v vs) zero value = ok (item value vs)
assign (item v vs) (suc n) value = do vs' ← assign vs n value; ok (item v vs')

unfoldable pub assign_in : Value → ℕ → Value → Outcome Value
assign_in (vector vs) n value = do vs' ← assign vs n value; ok (vector vs')
assign_in _ n value = panic

unfoldable pub nth : Values → ℕ → Outcome Value
nth empty n = panic
nth (item v vs) zero = ok v
nth (item v vs) (suc n) = nth vs n

unfoldable pub access : Value → ℕ → Outcome Value
access (tuple vs) n = nth vs n
access _ n = panic

unfoldable pub size_of : Value → Outcome Value
size_of (unsigned_integer v w) = ok (unsigned_integer w 16)
size_of _ = panic

unfoldable pub from_list : List Value → Values
from_list [] = empty
from_list (v ∷ vs) = item v (from_list vs)
