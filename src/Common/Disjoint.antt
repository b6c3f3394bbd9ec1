-- ===== src/Common/Disjoint.antt =====
-- `|` and `&` of words whose ones are in different places, and a word cut in two.
use icewind.Common.{
  ℕ, zero, suc, ◌+◌, ◌*◌, ◌/◌, ◌^◌, ◌<◌, ◌≤◌, ◌≡◌, refl, ap, ◌∙◌, arith, bit_or, ◌<<<◌,
}
use icewind.Common.Bits.{bit_or_half, bit_ext, bit-or, bit_or_lt}
use native.Mathlib.Nat.{pow-succ'}

pub lt_two_pow : (n : ℕ) → n < 2 ^ n
lt_two_pow zero = omega arith
lt_two_pow (suc n) = omega (arith, lt_two_pow n, pow-succ' 2 n)

or_zero_le : (n a : ℕ) → a ≤ n → bit_or a 0 ≡ a
or_zero_le n zero h = refl
or_zero_le zero (suc a) h = absurd (omega arith)
or_zero_le (suc n) (suc a) h =
    omega (arith, bit_or_half (suc a) 0, or_zero_le n (suc a / 2) (omega arith))

pub bit_or_zero : (a : ℕ) → bit_or a 0 ≡ a
bit_or_zero a = or_zero_le a a (omega arith)

-- The sum, when the ones of the second word are all below those of the first.
pub bit_or_add : (k c b : ℕ) → b < 2 ^ k → bit_or (c <<< k) b ≡ (c <<< k) + b
bit_or_add zero c b h =
    let nothing : b ≡ 0 = omega arith in
    ap (bit_or (c <<< 0)) nothing ∙ bit_or_zero (c <<< 0) ∙ omega arith
bit_or_add (suc k) c b h =
    let double : c * 2 ^ suc k ≡ 2 * (c * 2 ^ k) = omega (arith, ap (λ y. c * y) (pow-succ' 2 k)) in
    let half : c * 2 ^ suc k / 2 ≡ c * 2 ^ k = omega (arith, double) in
    let rest : bit_or (c * 2 ^ suc k / 2) (b / 2) ≡ c * 2 ^ k + b / 2 =
      ap (λ y. bit_or y (b / 2)) half ∙ bit_or_add k c (b / 2) (omega (arith, pow-succ' 2 k)) in
    omega (arith, bit_or_half (c * 2 ^ suc k) b, rest, double)

pub bit_or_assoc : (a b c : ℕ) → bit_or (bit_or a b) c ≡ bit_or a (bit_or b c)
bit_or_assoc a b c =
    let w : ℕ = a + b + c in
    let ha : a < 2 ^ w = omega (arith, lt_two_pow w) in
    let hb : b < 2 ^ w = omega (arith, lt_two_pow w) in
    let hc : c < 2 ^ w = omega (arith, lt_two_pow w) in
    bit_ext w (bit_or (bit_or a b) c) (bit_or a (bit_or b c))
      (bit_or_lt w _ _ (bit_or_lt w _ _ ha hb) hc) (bit_or_lt w _ _ ha (bit_or_lt w _ _ hb hc))
      (λ i h.
        omega (arith, bit-or (bit_or a b) c i, bit-or a b i, bit-or a (bit_or b c) i, bit-or b c i))
