-- ===== src/BitFields/Width.antt =====
-- The smallest width of a value is the least number of bits that holds it.
use icewind.Common.{
  ℕ, zero, suc, ◌+◌, ◌-◌, ◌^◌, ◌<◌, ◌≤◌, ◌≡◌, ◌≢◌, refl, sym, ap, ◌∙◌, arith, leb, Bool-cases, inl,
  inr, leb→le, leb→lt, le→leb, lt→leb, lt-suc_cases, ok, panic, Returns, u64, subst, true, false,
}
use icewind.BitFields.Defs.{next_exponent, ilog2_of_next_power, unsigned_smallest_width_of_value}

-- The words below `2 ^ e` hold `n` values, and no fewer bits do.
IsExponent : ℕ → ℕ → Type 0
IsExponent n e = (n ≤ 2 ^ e) × ((k : ℕ) → k < e → 2 ^ k < n)

next_exponent_lem :
    (fuel e n : ℕ)
    → n ≤ 2 ^ (fuel + e)
    → ((k : ℕ) → k < e → 2 ^ k < n)
    → IsExponent n (next_exponent fuel e n)
unfolding next_exponent IsExponent
next_exponent_lem zero e n room below = (subst (λ y. n ≤ 2 ^ y) (omega arith) room, below)
next_exponent_lem (suc fuel) e n room below = elim (Bool-cases (leb n (2 ^ e))) [
  | inl found ↦ rw found (leb→le n (2 ^ e) found, below)
  | inr more ↦ rw more (
      next_exponent_lem fuel (suc e) n (subst (λ y. n ≤ 2 ^ y) (omega arith) room) (λ k h.
        elim (lt-suc_cases k e (omega arith)) [
          | inl lower ↦ below k lower
          | inr here ↦ subst (λ y. 2 ^ y < n) (sym here) (leb→lt n (2 ^ e) more)
        ]))
]

-- `w` bits hold the value, and fewer do not.
unfoldable pub IsLeastWidth : ℕ → ℕ → Type 0
IsLeastWidth value w = (value < 2 ^ w) × ((k : ℕ) → k < w → 2 ^ k ≤ value)

narrow :
    (value : ℕ)
    → value < 2 ^ 63
    → Returns (unsigned_smallest_width_of_value value) (IsLeastWidth value)
unfolding unsigned_smallest_width_of_value ilog2_of_next_power IsExponent IsLeastWidth
narrow value small =
    let same : value + 1 ≡ u64 (value + 1) = omega arith in
    let fits : leb (value + 1) (2 ^ 63) ≡ true = le→leb (value + 1) (2 ^ 63) (omega arith) in
    let found : IsExponent (value + 1) (next_exponent 63 0 (value + 1)) =
      next_exponent_lem 63 0 (value + 1) (omega arith) (λ k h. absurd (omega arith)) in
    subst (λ n. Returns (ilog2_of_next_power n) (IsLeastWidth value)) same
      (rw fits (omega (arith, found.0), λ k h. omega (arith, found.1 k h)))

-- For a value below 2 ^ 63 the unsigned width is returned, the value has no more bits than that,
-- and every smaller number of bits is too few. From 2 ^ 63 on the function panics, except for
-- the greatest word, for which it returns 0.
pub width-IsLeastWidth :
    (value : ℕ)
    → value < 2 ^ 64
    → (value < 2 ^ 63 → Returns (unsigned_smallest_width_of_value value) (IsLeastWidth value))
      × (2 ^ 63 ≤ value → value ≢ 2 ^ 64 - 1 → unsigned_smallest_width_of_value value ≡ panic)
      × (value ≡ 2 ^ 64 - 1 → unsigned_smallest_width_of_value value ≡ ok 0)
unfolding unsigned_smallest_width_of_value ilog2_of_next_power next_exponent
width-IsLeastWidth value h = (
  narrow value,
  λ large other.
      let wide : leb (u64 (value + 1)) (2 ^ 63) ≡ false =
        lt→leb (2 ^ 63) (u64 (value + 1)) (omega arith) in
      rw wide refl,
  λ all. ap (λ v. ilog2_of_next_power (u64 (v + 1))) all ∙ refl,
)
