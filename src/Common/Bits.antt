-- ===== src/Common/Bits.antt =====
-- The bits of `&`, `|`, `!` and of shifts, at every place.
use Prim.Native.Nat.{min, max, digits, bitwise, bit_and-bitwise, bit_or-bitwise}
use Prim.Native.Nat.{ℕ, zero, suc, ◌+◌, ◌-◌, ◌*◌, ◌/◌, ◌%◌, ◌^◌, ◌≤◌, ◌<◌, bit_and, bit_or}
use mathlib.Core.Path.{◌≡◌, refl, sym, ◌∙◌, ap, ap₂}
use native.Mathlib.Nat.{le_refl, pow-succ', div-div-eq-div-mul, one-le-pow, add-zero}
use native.Mathlib.Omega.{arith}
use icewind.Common.Words.{bit, ◌>>>◌, ◌<<<◌, complement}

-- The native operations are a recursion on binary digits with fuel; one digit at a time the fuel
-- does not matter.
module _ (z : ℕ → ℕ) (f : ℕ → ℕ → ℕ) where
  fuel_irrelevant : (n m a b : ℕ) → a ≤ n → a ≤ m → digits z f n a b ≡ digits z f m a b
  fuel_irrelevant zero zero a b p q = refl
  fuel_irrelevant zero (suc m) zero b p q = refl
  fuel_irrelevant zero (suc m) (suc a) b p q = absurd (omega arith)
  fuel_irrelevant (suc n) zero zero b p q = refl
  fuel_irrelevant (suc n) zero (suc a) b p q = absurd (omega arith)
  fuel_irrelevant (suc n) (suc m) zero b p q = refl
  fuel_irrelevant (suc n) (suc m) (suc a) b p q =
      rw (fuel_irrelevant n m (suc a / 2) (b / 2) (omega arith) (omega arith))

  lowest_digit :
      (a b : ℕ)
      → bitwise z f (suc a) b ≡ bitwise z f (suc a / 2) (b / 2) * 2 + f (suc a % 2) (b % 2)
  lowest_digit a b =
      omega (arith, fuel_irrelevant a (suc a / 2) (suc a / 2) (b / 2) (omega arith) (le_refl _))

pub bit_or_half : (a b : ℕ) → bit_or a b ≡ bit_or (a / 2) (b / 2) * 2 + max (a % 2) (b % 2)
bit_or_half zero b = simp bit_or-bitwise (omega arith)
bit_or_half (suc a) b = simp bit_or-bitwise (lowest_digit (λ y. y) max a b)

pub bit_and_half : (a b : ℕ) → bit_and a b ≡ bit_and (a / 2) (b / 2) * 2 + min (a % 2) (b % 2)
bit_and_half zero b = simp bit_and-bitwise (omega arith)
bit_and_half (suc a) b = simp bit_and-bitwise (lowest_digit (λ y. 0) min a b)

bit-zero : (x : ℕ) → bit x 0 ≡ x % 2
bit-zero x = omega arith

bit-suc : (x i : ℕ) → bit x (suc i) ≡ bit (x / 2) i
bit-suc x i =
    ap (λ y. y % 2) (ap (λ y. x / y) (pow-succ' 2 i) ∙ sym (div-div-eq-div-mul x 2 (2 ^ i)))

pub bit-and : (a b i : ℕ) → bit (bit_and a b) i ≡ min (bit a i) (bit b i)
bit-and a b zero = omega (arith, bit_and_half a b)
bit-and a b (suc i) =
    bit-suc (bit_and a b) i
    ∙ ap (λ y. bit y i) (omega (arith, bit_and_half a b))
    ∙ bit-and (a / 2) (b / 2) i
    ∙ ap₂ min (sym (bit-suc a i)) (sym (bit-suc b i))

pub bit-or : (a b i : ℕ) → bit (bit_or a b) i ≡ max (bit a i) (bit b i)
bit-or a b zero = omega (arith, bit_or_half a b)
bit-or a b (suc i) =
    bit-suc (bit_or a b) i
    ∙ ap (λ y. bit y i) (omega (arith, bit_or_half a b))
    ∙ bit-or (a / 2) (b / 2) i
    ∙ ap₂ max (sym (bit-suc a i)) (sym (bit-suc b i))

pub bit-complement : (w x i : ℕ) → x < 2 ^ w → i < w → bit (complement w x) i ≡ 1 - bit x i
bit-complement zero x i hx hi = absurd (omega arith)
bit-complement (suc w) x zero hx hi = omega (arith, pow-succ' 2 w)
bit-complement (suc w) x (suc i) hx hi =
    bit-suc (complement (suc w) x) i
    ∙ ap (λ y. bit y i) (omega (arith, pow-succ' 2 w))
    ∙ bit-complement w (x / 2) i (omega (arith, pow-succ' 2 w)) (omega arith)
    ∙ ap (λ y. 1 - y) (sym (bit-suc x i))

-- Numbers with the same bits are the same.
pub bit_ext : (w a b : ℕ) → a < 2 ^ w → b < 2 ^ w → ((i : ℕ) → i < w → bit a i ≡ bit b i) → a ≡ b
bit_ext zero a b ha hb h = omega arith
bit_ext (suc w) a b ha hb h =
    let halves =
      bit_ext w (a / 2) (b / 2) (omega (arith, pow-succ' 2 w)) (omega (arith, pow-succ' 2 w))
        (λ i hi. sym (bit-suc a i) ∙ h (suc i) (omega arith) ∙ bit-suc b i) in
    omega (arith, halves, h 0 (omega arith))

pub bit-le : (x i : ℕ) → bit x i ≤ 1
bit-le x i = omega arith

mod_double : (a m : ℕ) → 0 < m → a % (2 * m) ≡ a / 2 % m * 2 + a % 2
mod_double a m h = grind arith

mod_two_pow : (a k : ℕ) → a % 2 ^ suc k ≡ a / 2 % 2 ^ k * 2 + a % 2
mod_two_pow a k =
    ap (λ y. a % y) (pow-succ' 2 k) ∙ mod_double a (2 ^ k) (one-le-pow k 2 (omega arith))

and_zero : (n a : ℕ) → a ≤ n → bit_and a 0 ≡ 0
and_zero n zero h = refl
and_zero zero (suc a) h = absurd (omega arith)
and_zero (suc n) (suc a) h =
    omega (arith, bit_and_half (suc a) 0, and_zero n (suc a / 2) (omega arith))

zero_and_le : (n a : ℕ) → a ≤ n → bit_and 0 a ≡ 0
zero_and_le n zero h = refl
zero_and_le zero (suc a) h = absurd (omega arith)
zero_and_le (suc n) (suc a) h =
    omega (arith, bit_and_half 0 (suc a), zero_and_le n (suc a / 2) (omega arith))

pub zero_and : (a : ℕ) → bit_and 0 a ≡ 0
zero_and a = zero_and_le a a (omega arith)

-- A mask of `k` ones.
pub bit_and_mask : (k a : ℕ) → bit_and a (2 ^ k - 1) ≡ a % 2 ^ k
bit_and_mask zero a = omega (arith, and_zero a a (omega arith))
bit_and_mask (suc k) a =
    let one : 1 ≤ 2 ^ k = one-le-pow k 2 (omega arith) in
    let half : (2 ^ suc k - 1) / 2 ≡ 2 ^ k - 1 = omega (arith, pow-succ' 2 k, one) in
    let rest : bit_and (a / 2) ((2 ^ suc k - 1) / 2) ≡ a / 2 % 2 ^ k =
      ap (bit_and (a / 2)) half ∙ bit_and_mask k (a / 2) in
    omega (arith, bit_and_half a (2 ^ suc k - 1), rest, mod_two_pow a k, pow-succ' 2 k, one)

shl_half : (x k : ℕ) → x * 2 ^ suc k ≡ 2 * (x * 2 ^ k)
shl_half x k = omega (arith, ap (λ y. x * y) (pow-succ' 2 k))

-- A shift to the left moves the bits up, and puts zeros below.
pub bit-shl_low : (x k i : ℕ) → i < k → bit (x <<< k) i ≡ 0
bit-shl_low x zero i h = absurd (omega arith)
bit-shl_low x (suc k) zero h = omega (arith, shl_half x k)
bit-shl_low x (suc k) (suc i) h =
    bit-suc (x * 2 ^ suc k) i
    ∙ ap (λ y. bit y i) (omega (arith, shl_half x k))
    ∙ bit-shl_low x k i (omega arith)

pub bit-shl_high : (x k i : ℕ) → bit (x <<< k) (k + i) ≡ bit x i
bit-shl_high x zero i = ap₂ bit (omega arith) (omega arith)
bit-shl_high x (suc k) i =
    ap (bit (x * 2 ^ suc k)) (omega arith)
    ∙ bit-suc (x * 2 ^ suc k) (k + i)
    ∙ ap (λ y. bit y (k + i)) (omega (arith, shl_half x k))
    ∙ bit-shl_high x k i

pub two-pow-add : (m n : ℕ) → 2 ^ (m + n) ≡ 2 ^ m * 2 ^ n
two-pow-add m zero = ap (λ y. 2 ^ y) (add-zero m) ∙ omega arith
two-pow-add m (suc n) =
    ap (λ y. 2 ^ y) (omega arith)
    ∙ pow-succ' 2 (m + n)
    ∙ omega (arith, two-pow-add m n, ap (λ y. 2 ^ m * y) (pow-succ' 2 n))

-- A shift to the right moves them down.
pub bit-shr : (x k i : ℕ) → bit (x >>> k) i ≡ bit x (k + i)
bit-shr x k i =
    ap (λ y. y % 2) (div-div-eq-div-mul x (2 ^ k) (2 ^ i) ∙ ap (λ y. x / y) (sym (two-pow-add k i)))

-- A remainder by 2 ^ k keeps the bits below `k`; a number below 2 ^ k has no others.
pub bit-mod_low : (x k i : ℕ) → i < k → bit (x % 2 ^ k) i ≡ bit x i
bit-mod_low x zero i h = absurd (omega arith)
bit-mod_low x (suc k) zero h = omega (arith, mod_two_pow x k)
bit-mod_low x (suc k) (suc i) h =
    bit-suc (x % 2 ^ suc k) i
    ∙ ap (λ y. bit y i) (omega (arith, mod_two_pow x k))
    ∙ bit-mod_low (x / 2) k i (omega arith)
    ∙ sym (bit-suc x i)

pub bit_high : (x k i : ℕ) → x < 2 ^ k → k ≤ i → bit x i ≡ 0
bit_high x zero zero hx h = omega arith
bit_high x zero (suc i) hx h = bit-suc x i ∙ bit_high (x / 2) zero i (omega arith) (omega arith)
bit_high x (suc k) zero hx h = absurd (omega arith)
bit_high x (suc k) (suc i) hx h =
    bit-suc x i ∙ bit_high (x / 2) k i (omega (arith, pow-succ' 2 k)) (omega arith)

-- `|` and `&` of words of w bits have w bits.
pub bit_or_lt : (w a b : ℕ) → a < 2 ^ w → b < 2 ^ w → bit_or a b < 2 ^ w
bit_or_lt zero a b ha hb =
    let none_left : a ≡ 0 = omega arith in
    let none_right : b ≡ 0 = omega arith in
    let none : bit_or a b ≡ bit_or 0 0 = ap₂ bit_or none_left none_right in omega (arith, none)
bit_or_lt (suc w) a b ha hb = omega (
  arith,
  pow-succ' 2 w,
  bit_or_half a b,
  bit_or_lt w (a / 2) (b / 2) (omega (arith, pow-succ' 2 w)) (omega (arith, pow-succ' 2 w)),
)

pub bit_and_lt : (w a b : ℕ) → a < 2 ^ w → bit_and a b < 2 ^ w
bit_and_lt zero a b ha =
    let none_left : a ≡ 0 = omega arith in
    let none : bit_and a b ≡ bit_and 0 b = ap (λ x. bit_and x b) none_left in
    omega (arith, none, zero_and b)
bit_and_lt (suc w) a b ha = omega (
  arith,
  pow-succ' 2 w,
  bit_and_half a b,
  bit_and_lt w (a / 2) (b / 2) (omega (arith, pow-succ' 2 w)),
)
