-- ===== src/Rudder/Operations.antt =====
-- The operators on constants, common/src/rudder/constant/operations.rs.
use icewind.Common.{
  ◌+◌, ◌*◌, ◌==◌, u64, complement, bit_xor, Outcome, ok, panic, ◌>>=◌, ◌>>◌, assert, Option, none,
  some,
}
use icewind.Rudder.Integers.{
  Ordering, wrapping_sub, unsigned_as, divide, divide_signed, compare_unsigned, compare_signed,
}
use icewind.Rudder.Constants.{
  Constant, unsigned, signed, floating, Floats, new_float, new_signed, new_unsigned,
}

module _ (F : Floats) where
  unfoldable pub add : Constant → Constant → Outcome Constant
  add (unsigned l l_width) (unsigned r r_width) = ok (new_unsigned (u64 (l + r)) l_width)
  add (signed l l_width) (unsigned r r_width) = do
    r' ← unsigned_as r
    ok (new_signed (u64 (l + r')) l_width)
  add (unsigned l l_width) (signed r r_width) = do
    l' ← unsigned_as l
    ok (new_signed (u64 (l' + r)) l_width)
  add (signed l l_width) (signed r r_width) = ok (new_signed (u64 (l + r)) l_width)
  add (floating l l_width) (floating r r_width) = new_float (F.add l r) l_width
  add _ _ = panic

  unfoldable pub sub : Constant → Constant → Outcome Constant
  sub (unsigned l l_width) (unsigned r r_width) = ok (new_unsigned (wrapping_sub l r) l_width)
  sub (signed l l_width) (signed r r_width) = ok (new_signed (wrapping_sub l r) l_width)
  sub (floating l l_width) (floating r r_width) = new_float (F.sub l r) l_width
  sub (unsigned l l_width) (signed r r_width) = do
    assert (l_width == r_width)
    l' ← unsigned_as l
    ok (signed (wrapping_sub l' r) l_width)
  sub _ _ = panic

  unfoldable pub mul : Constant → Constant → Outcome Constant
  mul (unsigned l l_width) (unsigned r r_width) = ok (new_unsigned (u64 (l * r)) l_width)
  mul (signed l l_width) (signed r r_width) = ok (new_signed (u64 (l * r)) l_width)
  mul (signed l l_width) (unsigned r r_width) = do
    r' ← unsigned_as r
    ok (new_signed (u64 (l * r')) l_width)
  mul (floating l l_width) (floating r r_width) = new_float (F.mul l r) l_width
  mul _ _ = panic

  unfoldable pub div : Constant → Constant → Outcome Constant
  div (unsigned l l_width) (unsigned r r_width) = do q ← divide l r; ok (new_unsigned q l_width)
  div (signed l l_width) (signed r r_width) = do q ← divide_signed l r; ok (new_signed q l_width)
  div (floating l l_width) (floating r r_width) = new_float (F.div l r) l_width
  div _ _ = panic

  unfoldable pub partial_cmp : Constant → Constant → Option Ordering
  partial_cmp (unsigned l l_width) (unsigned r r_width) = some (compare_unsigned l r)
  partial_cmp (signed l l_width) (signed r r_width) = some (compare_signed l r)
  partial_cmp (floating l l_width) (floating r r_width) = F.compare l r
  partial_cmp _ _ = none

unfoldable pub not : Constant → Outcome Constant
not (unsigned value width) = ok (new_unsigned (complement 64 value) width)
not _ = panic

unfoldable pub bitxor : Constant → Constant → Outcome Constant
bitxor (unsigned l l_width) (unsigned r r_width) = ok (new_unsigned (bit_xor l r) l_width)
bitxor _ _ = panic
