-- ===== src/BitFields/Insert.antt =====
-- A field that is inserted is extracted again, and the bits around it stay.
use icewind.Common.{
  ℕ, ◌+◌, ◌-◌, ◌^◌, ◌%◌, ◌<◌, ◌≤◌, ◌≡◌, ◌⊎◌, refl, sym, ap, ◌∙◌, arith, leb, if◌then◌else◌, inl,
  inr, lt→ltb, lt→leb, ok, Returns, u64, subst, bit, bit_or, bit_and, ◌<<<◌, ◌>>>◌, complement, min,
}
use icewind.Common.Bits.{
  bit-and, bit-or, bit-complement, bit_ext, bit-le, bit_and_mask, bit-shl_low, bit-shl_high,
  bit-shr, bit-mod_low, bit_high,
}
use icewind.BitFields.Defs.{mask, to_u32, bit_insert, bit_extract}
use Prim.Native.Nat.{max}
use native.Mathlib.Decide.{dec_lt}
use native.Mathlib.Nat.{mod-lt, one-le-pow}

-- a mask of `k` ones, up to 64
pub mask_lem : (k : ℕ) → k ≤ 64 → mask k ≡ 2 ^ k - 1
unfolding mask
mask_lem k h = elim (dec_lt k 64) [
  | yes below ↦ rw (lt→leb k 64 below) (omega arith)
  | no all ↦
      let full : 64 ≡ k = omega arith in
      subst (λ k. (if leb 64 k then 2 ^ 64 - 1 else (1 <<< k) - 1) ≡ 2 ^ k - 1) full refl
]

ones_low : (k i : ℕ) → i < k → bit (2 ^ k - 1) i ≡ 1
ones_low k i h =
    ap (λ y. bit y i) (omega arith)
    ∙ bit-complement k 0 i (omega (arith, one-le-pow k 2 (omega arith))) h
    ∙ ap (λ y. 1 - y) (bit_high 0 0 i (omega arith) (omega arith))

ones_high : (k i : ℕ) → k ≤ i → bit (2 ^ k - 1) i ≡ 0
ones_high k i h = bit_high (2 ^ k - 1) k i (omega (arith, one-le-pow k 2 (omega arith))) h

-- a shifted word of which `w` bits are kept
shifted_low : (x s i : ℕ) → i < s → bit (u64 (x <<< s)) i ≡ 0
shifted_low x s i h = elim (dec_lt i 64) [
  | yes low ↦ bit-mod_low (x <<< s) 64 i low ∙ bit-shl_low x s i h
  | no high ↦ bit_high (u64 (x <<< s)) 64 i (omega arith) (omega arith)
]

shifted_high : (x s i : ℕ) → s ≤ i → i < 64 → bit (u64 (x <<< s)) i ≡ bit x (i - s)
shifted_high x s i h h' =
    bit-mod_low (x <<< s) 64 i h' ∙ ap (bit (x <<< s)) (omega arith) ∙ bit-shl_high x s (i - s)

-- the word that `bit_insert` makes
inserted : ℕ → ℕ → ℕ → ℕ → ℕ
inserted target source start length =
    bit_or (bit_and target (complement 64 (u64 ((2 ^ length - 1) <<< start))))
      (u64 (bit_and source (2 ^ length - 1) <<< start))

module _ (target source start length : ℕ) (small : target < 2 ^ 64)
    (room : start + length ≤ 64) where
  bit-inserted :
      (i : ℕ)
      → i < 64
      → bit (inserted target source start length) i
        ≡ max
            (min (bit target i) (1 - bit (u64 ((2 ^ length - 1) <<< start)) i))
            (bit (u64 (bit_and source (2 ^ length - 1) <<< start)) i)
  unfolding inserted
  bit-inserted i h =
      let cleared : ℕ = u64 ((2 ^ length - 1) <<< start) in
      bit-or (bit_and target (complement 64 cleared))
        (u64 (bit_and source (2 ^ length - 1) <<< start)) i
      ∙ ap (λ y. max y (bit (u64 (bit_and source (2 ^ length - 1) <<< start)) i))
          (bit-and target (complement 64 cleared) i
            ∙ ap (min (bit target i)) (bit-complement 64 cleared i (omega arith) h))

  outside :
      (i : ℕ)
      → i < 64
      → (i < start) ⊎ (start + length ≤ i)
      → bit (inserted target source start length) i ≡ bit target i
  outside i h (inl before) = omega (
    arith,
    bit-inserted i h,
    shifted_low (2 ^ length - 1) start i before,
    shifted_low (bit_and source (2 ^ length - 1)) start i before,
    bit-le target i,
  )
  outside i h (inr after) = omega (
    arith,
    bit-inserted i h,
    shifted_high (2 ^ length - 1) start i (omega arith) h,
    shifted_high (bit_and source (2 ^ length - 1)) start i (omega arith) h,
    bit-and source (2 ^ length - 1) (i - start),
    ones_high length (i - start) (omega arith),
    bit-le target i,
  )

  inside :
      (i : ℕ) → i < length → bit (inserted target source start length) (start + i) ≡ bit source i
  inside i h =
      let back : start + i - start ≡ i = omega arith in
      let mask_bit : bit (u64 ((2 ^ length - 1) <<< start)) (start + i) ≡ 1 =
        shifted_high (2 ^ length - 1) start (start + i) (omega arith) (omega arith)
        ∙ ap (bit (2 ^ length - 1)) back
        ∙ ones_low length i h in
      let source_bit : bit (u64 (bit_and source (2 ^ length - 1) <<< start)) (start + i)
          ≡ min (bit source i) 1 =
        shifted_high (bit_and source (2 ^ length - 1)) start (start + i) (omega arith) (omega arith)
        ∙ ap (bit (bit_and source (2 ^ length - 1))) back
        ∙ bit-and source (2 ^ length - 1) i
        ∙ ap (min (bit source i)) (ones_low length i h) in
      omega (
        arith,
        bit-inserted (start + i) (omega arith),
        mask_bit,
        source_bit,
        bit-le source i,
        bit-le target (start + i),
      )

  extracted : (inserted target source start length >>> start) % 2 ^ length ≡ source % 2 ^ length
  extracted =
      bit_ext length ((inserted target source start length >>> start) % 2 ^ length)
        (source % 2 ^ length) (mod-lt _ (one-le-pow length 2 (omega arith)))
        (mod-lt _ (one-le-pow length 2 (omega arith)))
        (λ i h.
          bit-mod_low (inserted target source start length >>> start) length i h
          ∙ bit-shr (inserted target source start length) start i
          ∙ inside i h
          ∙ sym (bit-mod_low source length i h))

  insert_returns :
      start < 64 → bit_insert target source start length ≡ ok (inserted target source start length)
  unfolding bit_insert to_u32 inserted
  insert_returns below =
      rw
        (lt→leb start 64 below, lt→ltb length (2 ^ 32) (omega arith), mask_lem length (omega arith))
        refl

  extract_returns :
      start < 64
      → bit_extract (inserted target source start length) start length ≡ ok (source % 2 ^ length)
  unfolding bit_extract to_u32
  extract_returns below =
      rw (lt→ltb length (2 ^ 32) (omega arith), mask_lem length (omega arith))
        (ap ok (
          bit_and_mask length (inserted target source start length >>> (start % 64))
          ∙ ap (λ s. (inserted target source start length >>> s) % 2 ^ length) (omega arith)
          ∙ extracted))

-- For a word of 64 bits and a field that lies within it, `bit_insert` returns, extracting the
-- field again gives the low bits of the source, and each bit outside the field is the one of the
-- target.
pub extract-insert :
    (target source start length : ℕ)
    → target < 2 ^ 64
    → start < 64
    → start + length ≤ 64
    → Returns (bit_insert target source start length) (λ word.
      (bit_extract word start length ≡ ok (source % 2 ^ length))
      × ((i : ℕ) → i < 64 → (i < start) ⊎ (start + length ≤ i) → bit word i ≡ bit target i))
extract-insert target source start length small below room =
    subst
      (λ o. Returns o (λ word.
        (bit_extract word start length ≡ ok (source % 2 ^ length))
        × ((i : ℕ) → i < 64 → (i < start) ⊎ (start + length ≤ i) → bit word i ≡ bit target i)))
      (sym (insert_returns target source start length small room below))
      (
        extract_returns target source start length small room below,
        outside target source start length small room,
      )
