-- ===== src/Rudder/Typed.antt =====
-- The types of the results of arithmetic on constants.
use icewind.Common.{
  ℕ, ◌+◌, ◌-◌, ◌*◌, ◌/◌, ◌%◌, ◌^◌, ◌<◌, ◌≤◌, ◌≡◌, ◌≢◌, ◌⊎◌, inl, inr, refl, ap, ◌∙◌, arith, leb,
  ◌==◌, Bool-cases, leb→le, leb→lt, ==_of_ne, bit_and, u64, ◌<<<◌, Outcome, ok, Returns,
}
use icewind.Common.Bits.{bit_and_mask, two-pow-add}
use native.Mathlib.Nat.{mod-lt, div-lt_iff_lt-mul, one-le-pow}
use icewind.BitFields.Defs.{mask}
use icewind.BitFields.Insert.{mask_lem}
use icewind.Rudder.Types.{PrimitiveType, primitive, unsigned_integer, signed_integer}
use icewind.Rudder.Integers.{shift_right_signed, divide, divide_signed, quotient}
use icewind.Rudder.Constants.{
  Constant, unsigned, signed, Floats, extend, new_signed, new_unsigned, typ,
}
use icewind.Rudder.Operations.{add, sub, mul, div}

-- the word of an `i64` that needs no more than `w` bits
unfoldable pub IsSigned : ℕ → ℕ → Type 0
IsSigned value w = (value < 2 ^ (w - 1)) ⊎ ((2 ^ 64 ≤ value + 2 ^ (w - 1)) × (value < 2 ^ 64))

-- A constant of an integer type, with a value that the type has.
pub data HasType : Constant → PrimitiveType → Type 0 where
  unsigned_value : {v w : ℕ} → w ≤ 64 → v < 2 ^ w → HasType (unsigned v w) (unsigned_integer w)
  signed_value : {v w : ℕ} → 0 < w → w ≤ 64 → IsSigned v w → HasType (signed v w) (signed_integer w)

new_unsigned-HasType : (value w : ℕ) → w ≤ 64 → HasType (new_unsigned value w) (unsigned_integer w)
unfolding new_unsigned
new_unsigned-HasType value w h =
    let masked : bit_and value (mask w) ≡ value % 2 ^ w =
      ap (bit_and value) (mask_lem w h) ∙ bit_and_mask w value in
    unsigned_value h (omega (arith, masked, mod-lt value (one-le-pow w 2 (omega arith))))

-- The word that a sign extension over `s` places gives.
shift_right_signed-IsSigned :
    (y w s : ℕ) → 0 < w → w + s ≡ 64 → y < 2 ^ 64 → IsSigned (shift_right_signed y s) w
unfolding IsSigned shift_right_signed
shift_right_signed-IsSigned y w s pos sum small =
    let one : 0 < 2 ^ s = one-le-pow s 2 (omega arith) in
    let sums : 63 ≡ w - 1 + s = omega arith in
    let half : 2 ^ 63 ≡ 2 ^ (w - 1) * 2 ^ s = ap (λ k. 2 ^ k) sums ∙ two-pow-add (w - 1) s in
    elim (Bool-cases (leb (2 ^ 63) y)) [
      | inl high ↦ rw high (
          let below : (2 ^ 64 - 1 - y) / 2 ^ s < 2 ^ (w - 1) =
            (div-lt_iff_lt-mul one).1 (omega (arith, half, leb→le (2 ^ 63) y high)) in
          inr (omega (arith, below), omega (arith, below)))
      | inr low ↦
          rw low (inl ((div-lt_iff_lt-mul one).1 (omega (arith, half, leb→lt (2 ^ 63) y low))))
    ]

new_signed-HasType :
    (value w : ℕ) → 0 < w → w ≤ 64 → HasType (new_signed value w) (signed_integer w)
unfolding new_signed extend
new_signed-HasType value w pos h =
    let s : ℕ = (2 ^ 32 + 64 - w) % 2 ^ 32 % 64 in
    signed_value pos h (
      shift_right_signed-IsSigned (u64 (bit_and value (mask w) <<< s)) w s pos (omega arith)
        (omega arith))

-- The operators that keep the type of their operands.
pub data Operator : Type 0 where
  plus : Operator
  minus : Operator
  times : Operator
  over : Operator

unfoldable pub apply : Floats → Operator → Constant → Constant → Outcome Constant
apply F plus = add F
apply F minus = sub F
apply F times = mul F
apply F over = div F

-- A division is by something else than zero, and not of the least `i64` by -1.
unfoldable pub IsDefined : Operator → Constant → Constant → Type 0
IsDefined over (unsigned l w) (unsigned r w') = r ≢ 0
IsDefined over (signed l w) (signed r w') = (r ≢ 0) × ((l ≢ 2 ^ 63) ⊎ (r ≢ 2 ^ 64 - 1))
IsDefined _ _ _ = Unit

typ-HasType : (c : Constant) (p : PrimitiveType) → HasType c p → typ c ≡ ok (primitive p)
unfolding typ
typ-HasType c p (unsigned_value h h') = refl
typ-HasType c p (signed_value pos h h') = refl

unsigned_result :
    (value w : ℕ)
    → w ≤ 64
    → HasType (new_unsigned value w) (unsigned_integer w)
      × (typ (new_unsigned value w) ≡ ok (primitive (unsigned_integer w)))
unsigned_result value w h =
    let result = new_unsigned-HasType value w h in (result, typ-HasType _ _ result)

signed_result :
    (value w : ℕ)
    → 0 < w
    → w ≤ 64
    → HasType (new_signed value w) (signed_integer w)
      × (typ (new_signed value w) ≡ ok (primitive (signed_integer w)))
signed_result value w pos h =
    let result = new_signed-HasType value w pos h in (result, typ-HasType _ _ result)

divide_returns : (l r : ℕ) → r ≢ 0 → divide l r ≡ ok (l / r)
unfolding divide
divide_returns l r h = rw (==_of_ne r 0 h) refl

divide_signed_returns :
    (l r : ℕ) → r ≢ 0 → (l ≢ 2 ^ 63) ⊎ (r ≢ 2 ^ 64 - 1) → divide_signed l r ≡ ok (quotient l r)
unfolding divide_signed
divide_signed_returns l r h (inl other) = rw (==_of_ne r 0 h, ==_of_ne l (2 ^ 63) other) refl
divide_signed_returns l r h (inr other) = elim (Bool-cases (l == 2 ^ 63)) [
  | inl least ↦ rw (==_of_ne r 0 h, least, ==_of_ne r (2 ^ 64 - 1) other) refl
  | inr more ↦ rw (==_of_ne r 0 h, more) refl
]

-- For two constants of the same integer type, with values that the type has, the sum, the
-- difference, the product and, where it is defined, the quotient return a constant of that type,
-- with a value that the type has.
pub apply-HasType :
    (F : Floats) (op : Operator) (a b : Constant) (p : PrimitiveType)
    → HasType a p
    → HasType b p
    → IsDefined op a b
    → Returns (apply F op a b) (λ c. HasType c p × (typ c ≡ ok (primitive p)))
unfolding apply add sub mul div IsDefined
apply-HasType F plus a b p (unsigned_value h v) (unsigned_value h' v') d = unsigned_result _ _ h
apply-HasType F plus a b p (signed_value pos h v) (signed_value pos' h' v') d =
    signed_result _ _ pos h
apply-HasType F minus a b p (unsigned_value h v) (unsigned_value h' v') d = unsigned_result _ _ h
apply-HasType F minus a b p (signed_value pos h v) (signed_value pos' h' v') d =
    signed_result _ _ pos h
apply-HasType F times a b p (unsigned_value h v) (unsigned_value h' v') d = unsigned_result _ _ h
apply-HasType F times a b p (signed_value pos h v) (signed_value pos' h' v') d =
    signed_result _ _ pos h
apply-HasType F over a b p (unsigned_value {v = l} {w} h v) (unsigned_value {v = r} h' v') d =
    rw (divide_returns l r d) (unsigned_result (l / r) w h)
apply-HasType F over a b p (signed_value {v = l} {w} pos h v) (signed_value {v = r} pos' h' v') d =
    rw (divide_signed_returns l r (d.0) (d.1)) (signed_result (quotient l r) w pos h)
