-- ===== src/Interpreter/Carry.antt =====
-- Addition with carry in the interpreter, against the exact sums.
use icewind.Common.{
  ℕ, ◌+◌, ◌-◌, ◌*◌, ◌/◌, ◌%◌, ◌^◌, ◌<◌, ◌≤◌, ◌≡◌, ◌≢◌, ◌↔◌, inl, inr, refl, sym, ap, ◌∙◌, arith,
  ◌==◌, not, ==_iff, ==→ne, Bool-cases, Bool, true, false, leb→le, leb→lt, bit_or, ◌<<<◌, ◌>>>◌,
  u64, of_bool, List, Outcome, ok, Returns, Option, some, bit,
}
use native.Mathlib.Decide.{dec_lt}
use icewind.Common.Disjoint.{bit_or_add}
use icewind.Rudder.Integers.{is_negative}
use icewind.Rudder.Statements
use icewind.Interpreter.Values.{Value, unsigned_integer}
use icewind.Interpreter.RegisterFile.{RegisterFile}
use icewind.Interpreter.Casts.{nzcv, to_i128, add_carry}
use icewind.Interpreter.Blocks.{Model, Interpreter, Done, value_of, resolve}
use icewind.Interpreter.Run.{step}

-- the number of an `i64`, moved up by 2 ^ 63
abbrev pub offset : ℕ → ℕ
offset x = (x + 2 ^ 63) % 2 ^ 64

-- The flags of `x + y + carry`: sign and zero of the word, a carry when the unsigned sum does not
-- fit the word, an overflow when the signed one does not.
pub record IsFlags (x y carry flags : ℕ) : Type 0 where
  pub in_range : flags < 16
  pub negative : bit flags 3 ≡ (x + y + carry) % 2 ^ 64 / 2 ^ 63
  pub zero_word : (bit flags 2 ≡ 1) ↔ ((x + y + carry) % 2 ^ 64 ≡ 0)
  pub carried : (bit flags 1 ≡ 1) ↔ (2 ^ 64 ≤ x + y + carry)
  pub overflowed :
      (bit flags 0 ≡ 0)
      ↔ ((2 ^ 63 ≤ offset x + offset y + carry) × (offset x + offset y + carry < 3 * 2 ^ 63))

of_bool-le : (b : Bool) → of_bool b < 2
of_bool-le true = omega arith
of_bool-le false = omega arith

-- what a flag for a comparison says
equal_flag : (l r : ℕ) → (of_bool (l == r) ≡ 1) ↔ (l ≡ r)
equal_flag l r = elim (Bool-cases (l == r)) [
  | inl e ↦ rw e (λ h. (==_iff l r).0 e, λ h. refl)
  | inr n ↦ rw n (λ h. absurd (omega arith), λ h. absurd (==→ne l r n h))
]

same_flag : (l r : ℕ) → (of_bool (not (l == r)) ≡ 0) ↔ (l ≡ r)
same_flag l r = elim (Bool-cases (l == r)) [
  | inl e ↦ rw e (λ h. (==_iff l r).0 e, λ h. refl)
  | inr n ↦ rw n (λ h. absurd (omega arith), λ h. absurd (==→ne l r n h))
]

other_flag : (l r : ℕ) → (of_bool (not (l == r)) ≡ 1) ↔ (l ≢ r)
other_flag l r = elim (Bool-cases (l == r)) [
  | inl e ↦ rw e (λ h. absurd (omega arith), λ h. absurd (h ((==_iff l r).0 e)))
  | inr n ↦ rw n (λ h. ==→ne l r n, λ h. refl)
]

carry_iff : (s : ℕ) → (u64 s ≢ s) ↔ (2 ^ 64 ≤ s)
carry_iff s = (
  λ h. elim (dec_lt s (2 ^ 64)) [ yes below ↦ absurd (h (omega arith)) | no above ↦ omega arith ],
  λ h e. omega (arith, h, e),
)

-- four flags in a word
packed :
    (n z c v : ℕ)
    → n < 2
    → z < 2
    → c < 2
    → v < 2
    → bit_or (bit_or (bit_or (n <<< 3) (z <<< 2)) (c <<< 1)) v ≡ 8 * n + 4 * z + 2 * c + v
packed n z c v hn hz hc hv =
    let two : bit_or (n <<< 3) (z <<< 2) ≡ (2 * n + z) <<< 2 =
      bit_or_add 3 n (z <<< 2) (omega arith) ∙ omega arith in
    let three : bit_or ((2 * n + z) <<< 2) (c <<< 1) ≡ (4 * n + 2 * z + c) <<< 1 =
      bit_or_add 2 (2 * n + z) (c <<< 1) (omega arith) ∙ omega arith in
    ap (λ y. bit_or (bit_or y (c <<< 1)) v) two
    ∙ ap (λ y. bit_or y v) three
    ∙ bit_or_add 1 (4 * n + 2 * z + c) v (omega arith)
    ∙ omega arith

to_i128_lem : (x : ℕ) → x < 2 ^ 64 → to_i128 x ≡ (offset x + 2 ^ 128 - 2 ^ 63) % 2 ^ 128
unfolding to_i128
to_i128_lem x h = elim (Bool-cases (is_negative x)) [
  | inl low ↦ rw low (omega (arith, leb→le (2 ^ 63) x low, h))
  | inr high ↦ rw high (omega (arith, leb→lt (2 ^ 63) x high, h))
]

signed_iff :
    (x y carry : ℕ)
    → x < 2 ^ 64
    → y < 2 ^ 64
    → carry < 2
    → (to_i128 (u64 (x + y + carry)) ≡ (to_i128 x + to_i128 y + to_i128 carry) % 2 ^ 128)
      ↔ ((2 ^ 63 ≤ offset x + offset y + carry) × (offset x + offset y + carry < 3 * 2 ^ 63))
signed_iff x y carry hx hy hc =
    let word : u64 (x + y + carry) < 2 ^ 64 = omega arith in
    let left : to_i128 (u64 (x + y + carry))
        ≡ (offset (u64 (x + y + carry)) + 2 ^ 128 - 2 ^ 63) % 2 ^ 128 =
      to_i128_lem (u64 (x + y + carry)) word in
    let first : to_i128 x ≡ (offset x + 2 ^ 128 - 2 ^ 63) % 2 ^ 128 = to_i128_lem x hx in
    let second : to_i128 y ≡ (offset y + 2 ^ 128 - 2 ^ 63) % 2 ^ 128 = to_i128_lem y hy in
    let third : to_i128 carry ≡ (offset carry + 2 ^ 128 - 2 ^ 63) % 2 ^ 128 =
      to_i128_lem carry (omega arith) in
    (
      λ e. (
        omega (arith, e, left, first, second, third),
        omega (arith, e, left, first, second, third),
      ),
      λ e. omega (arith, e.0, e.1, left, first, second, third),
    )

nzcv-IsFlags :
    (x y carry : ℕ) → x < 2 ^ 64 → y < 2 ^ 64 → carry < 2 → IsFlags x y carry (nzcv x y carry)
unfolding nzcv
nzcv-IsFlags x y carry hx hy hc =
    let result : ℕ = u64 (x + y + carry) in
    let n : ℕ = result >>> 63 in
    let zb : Bool = result == 0 in
    let cb : Bool = not (result == x + y + carry) in
    let left : ℕ = to_i128 result in
    let right : ℕ = (to_i128 x + to_i128 y + to_i128 carry) % 2 ^ 128 in
    let vb : Bool = not (left == right) in
    let hn : n < 2 = omega arith in
    let all : nzcv x y carry ≡ 8 * n + 4 * of_bool zb + 2 * of_bool cb + of_bool vb =
      packed n (of_bool zb) (of_bool cb) (of_bool vb) hn (of_bool-le zb) (of_bool-le cb)
        (of_bool-le vb) in
    let bit2 : bit (nzcv x y carry) 2 ≡ of_bool zb =
      omega (arith, all, hn, of_bool-le zb, of_bool-le cb, of_bool-le vb) in
    let bit1 : bit (nzcv x y carry) 1 ≡ of_bool cb =
      omega (arith, all, hn, of_bool-le zb, of_bool-le cb, of_bool-le vb) in
    let bit0 : bit (nzcv x y carry) 0 ≡ of_bool vb =
      omega (arith, all, hn, of_bool-le zb, of_bool-le cb, of_bool-le vb) in
    record {
      in_range = omega (arith, all, hn, of_bool-le zb, of_bool-le cb, of_bool-le vb);
      negative = omega (arith, all, hn, of_bool-le zb, of_bool-le cb, of_bool-le vb);
      zero_word =
          (λ h. (equal_flag result 0).0 (sym bit2 ∙ h), λ h. bit2 ∙ (equal_flag result 0).1 h);
      carried = (
        λ h. (carry_iff (x + y + carry)).0 ((other_flag result (x + y + carry)).0 (sym bit1 ∙ h)),
        λ h. bit1 ∙ (other_flag result (x + y + carry)).1 ((carry_iff (x + y + carry)).1 h),
      );
      overflowed = (
        λ h. (signed_iff x y carry hx hy hc).0 ((same_flag left right).0 (sym bit0 ∙ h)),
        λ h. bit0 ∙ (same_flag left right).1 ((signed_iff x y carry hx hy hc).1 h),
      );
    }

module _ (M : Model)
    (call_function : ℕ → List Value → RegisterFile → Outcome (Option Value × RegisterFile)) where
  -- the statement has the sum as its value, and left the flags behind
  unfoldable pub IsSum : Interpreter → ℕ → ℕ → ℕ → Done → Type 0
  IsSum i x y carry done =
      (flags : ℕ) × IsFlags x y carry flags
      × (done
          ≡ value_of (some (unsigned_integer ((x + y + carry) % 2 ^ 64) 64))
              (record i { flags = flags }))

  -- When the three operands of an addition with carry are words of 64 bits, 64 bits and one bit,
  -- the statement returns the sum modulo 2 ^ 64 and sets the four flags of the exact sums: the
  -- sign and the zero of the word, a carry exactly if the unsigned sum does not fit the word, an
  -- overflow exactly if the signed one does not.
  pub step-IsSum :
      (arena : List Statements.Statement) (i : Interpreter) (a b c x y carry : ℕ)
      → resolve i a ≡ ok (unsigned_integer x 64)
      → resolve i b ≡ ok (unsigned_integer y 64)
      → resolve i c ≡ ok (unsigned_integer carry 1)
      → x < 2 ^ 64
      → y < 2 ^ 64
      → carry < 2
      → Returns (step M call_function arena i (Statements.add_with_carry a b c)) (IsSum i x y carry)
  unfolding step add_carry IsSum
  step-IsSum arena i a b c x y carry ha hb hc hx hy small =
      rw (ha, hb, hc) (nzcv x y carry, nzcv-IsFlags x y carry hx hy small, refl)
