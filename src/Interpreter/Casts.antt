-- ===== src/Interpreter/Casts.antt =====
-- The casts and shifts of the interpreter, and its addition with carry.
use icewind.Common.{
  ℕ, ◌+◌, ◌-◌, ◌%◌, ◌^◌, ltb, ◌==◌, if◌then◌else◌, bit_or, bit_and, u64, ◌<<<◌, ◌>>>◌, of_bool, not,
  Outcome, ok, panic, ◌>>=◌, ◌>>◌, assert,
}
use icewind.BitFields.Defs.{mask, to_u32}
use icewind.Rudder.Types
use icewind.Rudder.Types.{Typ, primitive, width_bits}
use icewind.Rudder.Integers.{shift_right_signed, unsigned_as, is_negative}
use icewind.Rudder.Statements.{
  CastOperationKind, zero_extend, sign_extend, truncate, reinterpret, convert, ShiftOperationKind,
  logical_shift_left, logical_shift_right,
}
use icewind.Interpreter.Values.{Value, unsigned_integer, signed_integer}

-- the function `sign_extend`
unfoldable pub extend_sign : ℕ → ℕ → ℕ → ℕ
extend_sign value source_width dest_width =
    let shift_amount : ℕ = (2 ^ 32 + 64 - source_width) % 2 ^ 32 % 64 in
    bit_and (shift_right_signed (u64 (value <<< shift_amount)) shift_amount) (mask dest_width)

-- `Cast`, with the type of the operand
unfoldable pub cast_value : CastOperationKind → Typ → Typ → Value → Outcome Value
cast_value sign_extend (primitive (Types.signed_integer width)) source (signed_integer v w) = do
  source_width ← width_bits source
  ok (signed_integer (extend_sign v source_width width) width)
cast_value truncate (primitive (Types.unsigned_integer width)) source (unsigned_integer v w) =
    ok (unsigned_integer (bit_and v (mask width)) width)
cast_value truncate (primitive (Types.signed_integer width)) source (signed_integer v w) =
    ok (signed_integer (bit_and v (mask width)) width)
cast_value reinterpret (primitive (Types.signed_integer width)) source (unsigned_integer v w) = do
  v' ← unsigned_as (bit_and v (mask width))
  ok (signed_integer v' width)
cast_value reinterpret (primitive (Types.signed_integer width)) source (signed_integer v w) = do
  v' ← unsigned_as (bit_and v (mask width))
  ok (signed_integer v' width)
cast_value zero_extend Types.bits source (unsigned_integer v w) = ok (unsigned_integer v w)
cast_value zero_extend (primitive (Types.unsigned_integer width)) source (unsigned_integer v w) =
    ok (unsigned_integer v width)
cast_value reinterpret (primitive (Types.unsigned_integer width)) source (unsigned_integer v w) =
    if width == w then ok (unsigned_integer v w) else panic
cast_value zero_extend (primitive (Types.signed_integer width)) source (unsigned_integer v w) = do
  v' ← unsigned_as v
  ok (signed_integer v' width)
cast_value zero_extend (primitive (Types.unsigned_integer width)) source (signed_integer v w) = do
  v' ← unsigned_as v
  ok (unsigned_integer v' width)
cast_value truncate (primitive (Types.unsigned_integer width)) source (signed_integer v w) = do
  v' ← unsigned_as v
  ok (unsigned_integer (bit_and v' (mask width)) width)
cast_value convert Types.bits source (unsigned_integer v w) = ok (unsigned_integer v w)
cast_value reinterpret (primitive (Types.unsigned_integer width)) source (signed_integer v w) =
    ok (unsigned_integer (bit_and v (mask width)) width)
cast_value _ _ source _ = panic

-- `BitsCast` to `target` bits
unfoldable pub cast_bits : CastOperationKind → Typ → ℕ → Value → Outcome Value
cast_bits zero_extend Types.bits target (unsigned_integer v w) =
    if ltb w target then ok (unsigned_integer (bit_and v (mask target)) target) else panic
cast_bits sign_extend Types.bits target (unsigned_integer v w) =
    if ltb w target then ok (unsigned_integer (bit_and v (mask target)) target) else panic
cast_bits _ _ target _ = panic

-- `ShiftOperation`; a shift by a word takes the amount modulo 64
unfoldable pub shift_value : ShiftOperationKind → ℕ → Value → Outcome Value
shift_value logical_shift_left amount (unsigned_integer v w) = do
  amount' ← to_u32 amount
  ok (unsigned_integer (bit_and (u64 (v <<< (amount' % 64))) (mask w)) w)
shift_value logical_shift_right amount (unsigned_integer v w) = do
  amount' ← to_u32 amount
  ok (unsigned_integer (bit_and (v >>> (amount' % 64)) (mask w)) w)
shift_value logical_shift_left amount (signed_integer v w) =
    ok (signed_integer (u64 (v <<< (amount % 64))) w)
shift_value _ amount _ = panic

-- `i128::from` of an `i64`, as a word of 128 bits
unfoldable pub to_i128 : ℕ → ℕ
to_i128 x = if is_negative x then x + 2 ^ 128 - 2 ^ 64 else x

-- The flags of an addition with carry: negative, zero, carry and overflow.
unfoldable pub nzcv : ℕ → ℕ → ℕ → ℕ
nzcv a b c =
    let unsigned_sum : ℕ = a + b + c in
    let signed_sum : ℕ = (to_i128 a + to_i128 b + to_i128 c) % 2 ^ 128 in
    let result : ℕ = u64 unsigned_sum in
    let n : ℕ = result >>> 63 in
    let z : ℕ = of_bool (result == 0) in
    let carry : ℕ = of_bool (not (result == unsigned_sum)) in
    let v : ℕ = of_bool (not (to_i128 result == signed_sum)) in
    bit_or (bit_or (bit_or (n <<< 3) (z <<< 2)) (carry <<< 1)) v

-- the sum and the flags
unfoldable pub add_carry : Value → Value → Value → Outcome (Value × ℕ)
add_carry (unsigned_integer a wa) (unsigned_integer b wb) (unsigned_integer c wc) = do
  assert (wa == 64)
  assert (wb == 64)
  assert (wc == 1)
  ok (unsigned_integer (u64 (a + b + c)) 64, nzcv a b c)
add_carry _ _ _ = panic
