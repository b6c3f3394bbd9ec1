-- ===== src/Virtio/Addresses.antt =====
-- The guest writes a queue's address in two halves.
use icewind.Common.{ℕ, ◌+◌, ◌-◌, ◌*◌, ◌/◌, ◌%◌, ◌^◌, ◌<◌, ◌≡◌, ◌∙◌, ap, arith, bit, bit_and, ◌<<<◌}
use icewind.Common.Bits.{
  bit-and, bit-or, bit-shl_low, bit-shl_high, bit-shr, bit_high, bit_ext, bit-le, bit_and_mask,
  bit-mod_low, bit-complement, bit_or_lt, bit_and_lt,
}
use icewind.Virtio.Queue.{with_low, with_high}

-- the bits of the mask of the upper half
upper_low : (i : ℕ) → i < 32 → bit 0xffffffff00000000 i ≡ 0
upper_low = bit-shl_low 0xffffffff 32

upper_high : (i : ℕ) → i < 32 → bit 0xffffffff00000000 (32 + i) ≡ 1
upper_high i h =
    bit-shl_high 0xffffffff 32 i
    ∙ bit-complement 32 0 i (omega arith) h
    ∙ ap (λ b. 1 - b) (bit_high 0 0 i (omega arith) (omega arith))

with_low-low : (addr v i : ℕ) → i < 32 → bit (with_low addr v) i ≡ bit v i
unfolding with_low
with_low-low addr v i h = omega (
  arith,
  bit-or (bit_and addr 0xffffffff00000000) v i,
  bit-and addr 0xffffffff00000000 i,
  upper_low i h,
  bit-le v i,
)

with_low-high :
    (addr v i : ℕ) → v < 2 ^ 32 → i < 32 → bit (with_low addr v) (32 + i) ≡ bit addr (32 + i)
unfolding with_low
with_low-high addr v i small h = omega (
  arith,
  bit-or (bit_and addr 0xffffffff00000000) v (32 + i),
  bit-and addr 0xffffffff00000000 (32 + i),
  upper_high i h,
  bit_high v 32 (32 + i) small (omega arith),
  bit-le addr (32 + i),
)

with_high-low : (addr v i : ℕ) → i < 32 → bit (with_high addr v) i ≡ bit addr i
unfolding with_high
with_high-low addr v i h = omega (
  arith,
  bit-or (bit_and addr 0xffffffff) (v <<< 32) i,
  ap (λ x. bit x i) (bit_and_mask 32 addr),
  bit-mod_low addr 32 i h,
  bit-shl_low v 32 i h,
  bit-le addr i,
)

with_high-high : (addr v i : ℕ) → bit (with_high addr v) (32 + i) ≡ bit v i
unfolding with_high
with_high-high addr v i = omega (
  arith,
  bit-or (bit_and addr 0xffffffff) (v <<< 32) (32 + i),
  ap (λ x. bit x (32 + i)) (bit_and_mask 32 addr),
  bit_high (addr % 2 ^ 32) 32 (32 + i) (omega arith) (omega arith),
  bit-shl_high v 32 i,
  bit-le v i,
)

-- A number whose bits are those of the two halves is their join.
join :
    (x low high : ℕ)
    → x < 2 ^ 64
    → low < 2 ^ 32
    → high < 2 ^ 32
    → ((i : ℕ) → i < 32 → bit x i ≡ bit low i)
    → ((i : ℕ) → i < 32 → bit x (32 + i) ≡ bit high i)
    → x ≡ low + high * 2 ^ 32
join x low high hx hl hh lows highs =
    let lower : x % 2 ^ 32 ≡ low =
      bit_ext 32 (x % 2 ^ 32) low (omega arith) hl (λ i h. bit-mod_low x 32 i h ∙ lows i h) in
    let upper : x / 2 ^ 32 ≡ high =
      bit_ext 32 (x / 2 ^ 32) high (omega arith) hh (λ i h. bit-shr x 32 i ∙ highs i h) in
    omega (arith, lower, upper)

with_low_lt : (a v : ℕ) → a < 2 ^ 64 → v < 2 ^ 32 → with_low a v < 2 ^ 64
unfolding with_low
with_low_lt a v ha' hv =
    bit_or_lt 64 (bit_and a 0xffffffff00000000) v (bit_and_lt 64 a 0xffffffff00000000 ha')
      (omega arith)

with_high_lt : (a v : ℕ) → v < 2 ^ 32 → with_high a v < 2 ^ 64
unfolding with_high
with_high_lt a v hv =
    bit_or_lt 64 (bit_and a 0xffffffff) (v <<< 32) (omega (arith, bit_and_mask 32 a)) (omega arith)

-- For an address of 64 bits and halves of 32, writing the low half and then the high one, or the
-- other way round, gives the number that the two halves make up.
pub with_high-with_low :
    (addr low high : ℕ)
    → addr < 2 ^ 64
    → low < 2 ^ 32
    → high < 2 ^ 32
    → (with_high (with_low addr low) high ≡ low + high * 2 ^ 32)
      × (with_low (with_high addr high) low ≡ low + high * 2 ^ 32)
with_high-with_low addr low high ha hl hh = (
  join (with_high (with_low addr low) high) low high (with_high_lt (with_low addr low) high hh) hl
      hh (λ i h. with_high-low (with_low addr low) high i h ∙ with_low-low addr low i h)
      (λ i h. with_high-high (with_low addr low) high i),
  join (with_low (with_high addr high) low) low high
      (with_low_lt (with_high addr high) low (with_high_lt addr high hh) hl) hl hh
      (λ i h. with_low-low (with_high addr high) low i h)
      (λ i h. with_low-high (with_high addr high) low i hl h ∙ with_high-high addr high i),
)
