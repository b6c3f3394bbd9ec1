-- ===== src/Rudder/Constants.antt =====
-- `Constant` and its methods.
use icewind.Common.{
  ℕ, ◌+◌, ◌-◌, ◌%◌, ◌^◌, ◌==◌, Bool, true, false, if◌then◌else◌, bit_and, u64, ◌<<<◌, Outcome, ok,
  panic, ◌>>=◌, Option, none, some,
}
use icewind.BitFields.Defs.{mask, next_exponent}
use icewind.Rudder.Types.{
  Typ, Typs, primitive, unsigned_integer, signed_integer, floating_point, vector, tuple, string,
  end, and,
}
use icewind.Rudder.Integers.{shift_right_signed, Ordering}

-- The constructors with the initial letters of their names: `UnsignedInteger`, `SignedInteger`,
-- `FloatingPoint`, `String`, `Tuple` and `Vector`. An `i64` is its word, an `f64` its bits.
mutual
  pub data Constant : Type 0 where
    unsigned : ℕ → ℕ → Constant
    signed : ℕ → ℕ → Constant
    floating : ℕ → ℕ → Constant
    text : ℕ → Constant
    tuple_of : Constants → Constant
    vector_of : Constants → Constant

  pub data Constants : Type 0 where
    nil : Constants
    cons : Constant → Constants → Constants

-- The operations on `f64`, which are not modelled further.
pub record Floats : Type 0 where
  pub add : ℕ → ℕ → ℕ
  pub sub : ℕ → ℕ → ℕ
  pub mul : ℕ → ℕ → ℕ
  pub div : ℕ → ℕ → ℕ
  pub is_zero : ℕ → Bool
  pub compare : ℕ → ℕ → Option Ordering

unfoldable pub new_float : ℕ → ℕ → Outcome Constant
new_float value width = if width == 64 then ok (floating value width) else panic

-- the sign extension of the low `width` bits
unfoldable pub extend : ℕ → ℕ → ℕ
extend value width =
    let masked : ℕ = bit_and value (mask width) in
    let shift_amount : ℕ = (2 ^ 32 + 64 - width) % 2 ^ 32 % 64 in
    shift_right_signed (u64 (masked <<< shift_amount)) shift_amount

unfoldable pub new_signed : ℕ → ℕ → Constant
new_signed value width = signed (extend value width) width

unfoldable pub new_unsigned : ℕ → ℕ → Constant
new_unsigned value width = unsigned (bit_and value (mask width)) width

unfoldable pub count : Constants → ℕ
count nil = 0
count (cons c cs) = 1 + count cs

unfoldable mutual
  pub typ : Constant → Outcome Typ
  typ (unsigned value width) = ok (primitive (unsigned_integer width))
  typ (signed value width) = ok (primitive (signed_integer width))
  typ (floating value width) = ok (primitive (floating_point width))
  typ (text s) = ok string
  typ (vector_of nil) = panic
  typ (vector_of (cons c cs)) = do element ← typ c; ok (vector (1 + count cs) element)
  typ (tuple_of cs) = do ts ← typs cs; ok (tuple ts)

  pub typs : Constants → Outcome Typs
  typs nil = ok end
  typs (cons c cs) = do t ← typ c; ts ← typs cs; ok (and t ts)

unfoldable pub is_zero : Floats → Constant → Option Bool
is_zero F (unsigned value width) = some (value == 0)
is_zero F (signed value width) = some (value == 0)
is_zero F (floating value width) = some (F.is_zero value)
is_zero F _ = none

-- `64 - leading_zeros()`: the place after the highest one
abbrev bit_length : ℕ → ℕ
bit_length value = next_exponent 64 0 (value + 1)

unfoldable pub smallest_width : Constant → Outcome ℕ
smallest_width (unsigned value width) = ok (bit_length value)
smallest_width (signed value width) = ok (bit_length value)
smallest_width _ = panic

unfoldable pub is_unsigned : Constant → Bool
is_unsigned (unsigned value width) = true
is_unsigned _ = false

unfoldable pub is_signed : Constant → Bool
is_signed (signed value width) = true
is_signed _ = false
