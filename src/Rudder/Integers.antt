-- ===== src/Rudder/Integers.antt =====
-- The operations of `i64` on words of 64 bits in two's complement, and of `u64`.
use icewind.Common.{
  ℕ, ◌+◌, ◌-◌, ◌/◌, ◌^◌, leb, ltb, ◌==◌, ◌&&◌, Bool, if◌then◌else◌, u64, ◌>>>◌, Outcome, ok, panic,
}

-- `std::cmp::Ordering`
pub data Ordering : Type 0 where
  less : Ordering
  equal : Ordering
  greater : Ordering

abbrev pub is_negative : ℕ → Bool
is_negative x = leb (2 ^ 63) x

unfoldable pub neg : ℕ → ℕ
neg x = u64 (2 ^ 64 - x)

unfoldable pub wrapping_sub : ℕ → ℕ → ℕ
wrapping_sub l r = u64 (l + 2 ^ 64 - r)

-- `i64::try_from` of a `u64`, and back, with `unwrap`
unfoldable pub unsigned_as : ℕ → Outcome ℕ
unsigned_as x = if is_negative x then panic else ok x

-- `>>` of an `i64`
unfoldable pub shift_right_signed : ℕ → ℕ → ℕ
shift_right_signed x k = if is_negative x then 2 ^ 64 - 1 - ((2 ^ 64 - 1 - x) >>> k) else x >>> k

abbrev magnitude : ℕ → ℕ
magnitude x = if is_negative x then 2 ^ 64 - x else x

abbrev same_sign : ℕ → ℕ → Bool
same_sign l r = if is_negative l then is_negative r else leb r (2 ^ 63 - 1)

-- the quotient of two `i64`, rounded towards zero
unfoldable pub quotient : ℕ → ℕ → ℕ
quotient l r = let size : ℕ = magnitude l / magnitude r in if same_sign l r then size else neg size

-- `/` of two `i64`, which panics for a zero and for the one quotient that has no room
unfoldable pub divide_signed : ℕ → ℕ → Outcome ℕ
divide_signed l r =
    if r == 0 then panic else if l == 2 ^ 63 && r == 2 ^ 64 - 1 then panic else ok (quotient l r)

unfoldable pub divide : ℕ → ℕ → Outcome ℕ
divide l r = if r == 0 then panic else ok (l / r)

-- `partial_cmp` of two `u64`, and of two `i64`
unfoldable pub compare_unsigned : ℕ → ℕ → Ordering
compare_unsigned l r = if ltb l r then less else if l == r then equal else greater

unfoldable pub compare_signed : ℕ → ℕ → Ordering
compare_signed l r = compare_unsigned (u64 (l + 2 ^ 63)) (u64 (r + 2 ^ 63))
