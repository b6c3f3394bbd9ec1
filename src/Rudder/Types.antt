-- ===== src/Rudder/Types.antt =====
-- `PrimitiveType` and `Type`, with their widths.
use icewind.Common.{
  ℕ, ◌+◌, ◌*◌, ◌/◌, ◌^◌, ltb, Bool, true, false, ◌==◌, if◌then◌else◌, Outcome, ok, panic, ◌>>=◌,
  Option, none, some, u32, u64,
}

pub data PrimitiveType : Type 0 where
  unsigned_integer : ℕ → PrimitiveType
  signed_integer : ℕ → PrimitiveType
  floating_point : ℕ → PrimitiveType

-- `Type`, with lists of them for tuples
mutual
  pub data Typ : Type 0 where
    primitive : PrimitiveType → Typ
    vector : ℕ → Typ → Typ
    tuple : Typs → Typ
    bits : Typ
    int : Typ
    string : Typ
    real : Typ

  pub data Typs : Type 0 where
    end : Typs
    and : Typ → Typs → Typs

unfoldable pub width : PrimitiveType → ℕ
width (unsigned_integer w) = w
width (signed_integer w) = w
width (floating_point w) = w

-- `u32::try_from(n).unwrap()`
abbrev to_u32 : ℕ → Outcome ℕ
to_u32 n = if ltb n (2 ^ 32) then ok n else panic

-- `div_ceil(8)`
abbrev bytes : ℕ → ℕ
bytes n = (n + 7) / 8

-- `width_bits_alinged` of a type of `n` bits
abbrev aligned_width : ℕ → ℕ
aligned_width n = u32 (bytes n * 8)

unfoldable mutual
  pub width_bits : Typ → Outcome ℕ
  width_bits (primitive p) = ok (width p)
  width_bits (vector element_count element_type) = do
    element ← width_bits element_type
    to_u32 (u64 (aligned_width element * element_count))
  width_bits bits = ok 64
  width_bits int = ok 64
  width_bits string = ok 32
  width_bits (tuple ts) = widths ts
  width_bits real = panic

  -- the sum of the widths in whole bytes
  pub widths : Typs → Outcome ℕ
  widths end = ok 0
  widths (and t ts) = do
    first ← width_bits t
    rest ← widths ts
    ok (u32 (aligned_width first + rest))

unfoldable pub width_bytes : Typ → Outcome ℕ
width_bytes t = do w ← width_bits t; ok (bytes w)

unfoldable pub byte_offset : Typ → ℕ → Outcome (Option ℕ)
byte_offset (vector n element_type) element_field = do
  w ← width_bytes element_type
  ok (some (element_field * w))
byte_offset _ element_field = ok none

unfoldable pub is_bits : Typ → Bool
is_bits bits = true
is_bits _ = false

unfoldable pub is_u1 : Typ → Bool
is_u1 (primitive (unsigned_integer w)) = w == 1
is_u1 _ = false

unfoldable pub is_unknown_length_vector : Typ → Bool
is_unknown_length_vector (vector n t) = n == 0
is_unknown_length_vector _ = false
