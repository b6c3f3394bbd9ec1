-- ===== src/BitFields/Tests.antt =====
-- A byte in the middle of a word, and the widths of small and large values.
use icewind.Common.{
  ℕ, ◌+◌, ◌-◌, ◌^◌, ◌%◌, ◌<◌, ◌≤◌, ◌≡◌, ◌≢◌, ◌⊎◌, refl, arith, ok, panic, Returns, bit,
}
use icewind.BitFields.Defs.{
  bit_insert, bit_extract, unsigned_smallest_width_of_value, signed_smallest_width_of_value,
  ilog2_of_next_power, next_exponent,
}
use icewind.BitFields.Insert.{extract-insert}
use icewind.BitFields.Width.{IsLeastWidth, width-IsLeastWidth}

extract-insert_example : Returns (bit_insert 0xabcdef 0x12 8 8) (λ word.
    (bit_extract word 8 8 ≡ ok (0x12 % 2 ^ 8))
    × ((i : ℕ) → i < 64 → (i < 8) ⊎ (8 + 8 ≤ i) → bit word i ≡ bit 0xabcdef i))
extract-insert_example = extract-insert 0xabcdef 0x12 8 8 (omega arith) (omega arith) (omega arith)

width-IsLeastWidth_example :
    (5 < 2 ^ 63 → Returns (unsigned_smallest_width_of_value 5) (IsLeastWidth 5))
    × (2 ^ 63 ≤ 5 → 5 ≢ 2 ^ 64 - 1 → unsigned_smallest_width_of_value 5 ≡ panic)
    × (5 ≡ 2 ^ 64 - 1 → unsigned_smallest_width_of_value 5 ≡ ok 0)
width-IsLeastWidth_example = width-IsLeastWidth 5 (omega arith)

width_of_minus_one : signed_smallest_width_of_value (2 ^ 64 - 1) ≡ ok 1
unfolding signed_smallest_width_of_value unsigned_smallest_width_of_value ilog2_of_next_power
    next_exponent
width_of_minus_one = refl

width_of_32 : signed_smallest_width_of_value 32 ≡ ok 7
unfolding signed_smallest_width_of_value unsigned_smallest_width_of_value ilog2_of_next_power
    next_exponent
width_of_32 = refl
