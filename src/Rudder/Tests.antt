-- ===== src/Rudder/Tests.antt =====
-- Constants of a byte, and the one difference that is not normalised.
use icewind.Common.{◌-◌, ◌^◌, ◌≡◌, refl, inl, arith, ok, Returns, false, none}
use icewind.BitFields.Defs.{mask}
use icewind.Rudder.Types.{signed_integer, primitive}
use icewind.Rudder.Integers.{
  shift_right_signed, wrapping_sub, divide_signed, quotient, neg, unsigned_as,
}
use icewind.Rudder.Constants.{Floats, signed, unsigned, typ, new_signed, extend}
use icewind.Rudder.Operations.{add, sub, div}
use icewind.Rudder.Typed.{HasType, signed_value, IsSigned, plus, apply, IsDefined, apply-HasType}

abbrev no_floats : Floats
no_floats = record {
  add = λ l r. 0;
  sub = λ l r. 0;
  mul = λ l r. 0;
  div = λ l r. 0;
  is_zero = λ x. false;
  compare = λ l r. none;
}

apply-HasType_example :
    Returns
      (apply no_floats plus (signed 100 8) (signed 100 8))
      (λ c. HasType c (signed_integer 8) × (typ c ≡ ok (primitive (signed_integer 8))))
unfolding IsSigned IsDefined
apply-HasType_example =
    apply-HasType no_floats plus (signed 100 8) (signed 100 8) (signed_integer 8)
      (signed_value (omega arith) (omega arith) (inl (omega arith)))
      (signed_value (omega arith) (omega arith) (inl (omega arith))) tt

wraps : add no_floats (signed 100 8) (signed 100 8) ≡ ok (signed (2 ^ 64 - 56) 8)
unfolding add new_signed extend mask shift_right_signed
wraps = refl

divides : div no_floats (signed (2 ^ 64 - 7) 8) (signed 2 8) ≡ ok (signed (2 ^ 64 - 3) 8)
unfolding div divide_signed quotient neg new_signed extend mask shift_right_signed
divides = refl

-- An unsigned minus a signed constant keeps a value that 8 bits do not have.
not_normalised : sub no_floats (unsigned 200 8) (signed 1 8) ≡ ok (signed 199 8)
unfolding sub unsigned_as wrapping_sub
not_normalised = refl
