-- ===== src/Interpreter/Values.antt =====
-- `Value` and its operators.
use icewind.Common.{
  ℕ, ◌+◌, ◌*◌, ◌%◌, ◌^◌, ◌==◌, leb, not, ◌&&◌, ◌||◌, Bool, true, false, u64, bit_or, bit_and,
  Outcome, ok, panic, ◌>>=◌,
}
use Prim.Native.Nat.{max}
use icewind.Rudder.Integers.{
  Ordering, wrapping_sub, unsigned_as, divide_signed, compare_unsigned, compare_signed,
}
use icewind.Rudder.Constants.{
  Constant, Constants, unsigned, signed, floating, text, tuple_of, vector_of, nil, cons,
}

-- The constructors are those of the source, `UnsignedInteger` to `Tuple`. An `i64` is its word, an
-- `f64` its bits.
mutual
  pub data Value : Type 0 where
    unsigned_integer : ℕ → ℕ → Value
    signed_integer : ℕ → ℕ → Value
    floating_point : ℕ → Value
    string : ℕ → Value
    vector : Values → Value
    tuple : Values → Value

  pub data Values : Type 0 where
    empty : Values
    item : Value → Values → Values

unfoldable mutual
  pub from_constant : Constant → Value
  from_constant (unsigned value width) = unsigned_integer value width
  from_constant (signed value width) = signed_integer value width
  from_constant (floating value width) = floating_point value
  from_constant (text s) = string s
  from_constant (tuple_of cs) = tuple (from_constants cs)
  from_constant (vector_of cs) = vector (from_constants cs)

  pub from_constants : Constants → Values
  from_constants nil = empty
  from_constants (cons c cs) = item (from_constant c) (from_constants cs)

-- `==` of two `f64`: no number equals a NaN, and both zeros are equal
abbrev is_nan : ℕ → Bool
is_nan x = not (leb (x % 2 ^ 63) (0x7ff * 2 ^ 52))

abbrev same_float : ℕ → ℕ → Bool
same_float l r =
    not (is_nan l) && not (is_nan r) && (l == r || (l % 2 ^ 63 == 0 && r % 2 ^ 63 == 0))

unfoldable mutual
  pub same : Value → Value → Bool
  same (unsigned_integer l w) (unsigned_integer r w') = l == r && w == w'
  same (signed_integer l w) (signed_integer r w') = l == r && w == w'
  same (floating_point l) (floating_point r) = same_float l r
  same (string l) (string r) = l == r
  same (vector ls) (vector rs) = all_same ls rs
  same (tuple ls) (tuple rs) = all_same ls rs
  same _ _ = false

  pub all_same : Values → Values → Bool
  all_same empty empty = true
  all_same (item l ls) (item r rs) = same l r && all_same ls rs
  all_same _ _ = false

unfoldable pub partial_cmp : Value → Value → Outcome Ordering
partial_cmp (unsigned_integer l w) (unsigned_integer r w') = ok (compare_unsigned l r)
partial_cmp (signed_integer l w) (signed_integer r w') = ok (compare_signed l r)
partial_cmp (signed_integer l w) (unsigned_integer r w') = do
  r' ← unsigned_as r
  ok (compare_signed l r')
partial_cmp _ _ = panic

unfoldable pub sub : Value → Value → Outcome Value
sub (signed_integer l w) (signed_integer r w') = ok (signed_integer (wrapping_sub l r) (max w w'))
sub (unsigned_integer l w) (unsigned_integer r w') =
    ok (unsigned_integer (wrapping_sub l r) (max w w'))
sub (signed_integer l w) (unsigned_integer r w') = do
  r' ← unsigned_as r
  ok (signed_integer (wrapping_sub l r') (max w w'))
sub _ _ = panic

unfoldable pub add : Value → Value → Outcome Value
add (signed_integer l w) (signed_integer r w') = ok (signed_integer (u64 (l + r)) (max w w'))
add (unsigned_integer l w) (signed_integer r w') = do
  l' ← unsigned_as l
  ok (signed_integer (u64 (l' + r)) (max w w'))
add (signed_integer l w) (unsigned_integer r w') = do
  r' ← unsigned_as r
  ok (signed_integer (u64 (l + r')) (max w w'))
add _ _ = panic

unfoldable pub mul : Value → Value → Outcome Value
mul (signed_integer l w) (signed_integer r w') = ok (signed_integer (u64 (l * r)) (max w w'))
mul (signed_integer l w) (unsigned_integer r w') = do
  r' ← unsigned_as r
  ok (signed_integer (u64 (l * r')) (max w w'))
mul (unsigned_integer l w) (unsigned_integer r w') = ok (unsigned_integer (u64 (l * r)) (max w w'))
mul _ _ = panic

unfoldable pub bitor : Value → Value → Outcome Value
bitor (unsigned_integer l w) (unsigned_integer r w') = ok (unsigned_integer (bit_or l r) (max w w'))
bitor _ _ = panic

unfoldable pub bitand : Value → Value → Outcome Value
bitand (unsigned_integer l w) (unsigned_integer r w') =
    ok (unsigned_integer (bit_and l r) (max w w'))
bitand _ _ = panic

unfoldable pub div : Value → Value → Outcome Value
div (signed_integer l w) (signed_integer r w') = do
  q ← divide_signed l r
  ok (signed_integer q (max w w'))
div _ _ = panic
