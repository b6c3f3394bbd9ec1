-- ===== src/Mmu/Saved.antt =====
-- The saved state and the vector of an exception that is taken to EL1.
use icewind.Common.{
  ℕ, ◌+◌, ◌^◌, ◌*◌, ◌/◌, ◌<◌, ◌≡◌, ◌≢◌, refl, ap, ◌∙◌, sym, subst, ltb, ltb→lt, ltb→le, arith,
  bit_or, ◌<<<◌, inl, inr, Bool-cases, ◌==◌, ==_iff, ==→ne, u64,
}
use icewind.Common.Disjoint.{bit_or_add}
use icewind.Mmu.Defs.{Pstate}
use icewind.Mmu.Exception.{vector_offset, get_psr_from_pstate}

-- The flags and masks are bits, and the level has two of them.
pub record IsPacked (p : Pstate) : Type 0 where
  pub n : p.n < 2
  pub z : p.z < 2
  pub c : p.c < 2
  pub v : p.v < 2
  pub d : p.d < 2
  pub a : p.a < 2
  pub i : p.i < 2
  pub f : p.f < 2
  pub el : p.el < 4
  pub sp : p.sp < 2

-- each part of the state at its place in the saved register
unfoldable pub saved : Pstate → ℕ
saved p =
    p.n * 2 ^ 31
    + p.z * 2 ^ 30
    + p.c * 2 ^ 29
    + p.v * 2 ^ 28
    + p.d * 2 ^ 9
    + p.a * 2 ^ 8
    + p.i * 2 ^ 7
    + p.f * 2 ^ 6
    + p.el * 2 ^ 2
    + p.sp

-- the vectors of the old level and stack, from `base` on
pub data IsVector (p : Pstate) (base : ℕ) : ℕ → Type 0 where
  from_lower : p.el ≡ 0 → IsVector p base (u64 (base + 0x400))
  own_stack : p.el ≢ 0 → p.sp ≡ 1 → IsVector p base (u64 (base + 0x200))
  user_stack : p.el ≢ 0 → p.sp ≢ 1 → IsVector p base (u64 base)

or_more : (k x s hi y : ℕ) → y < 2 ^ k → x ≡ s → s ≡ hi <<< k → bit_or x y ≡ s + y
or_more k x s hi y lt e f =
    ap (λ z. bit_or z y) (e ∙ f) ∙ bit_or_add k hi y lt ∙ ap (λ z. z + y) (sym f)

pub get_psr_from_pstate-saved : (p : Pstate) → IsPacked p → get_psr_from_pstate p ≡ saved p
unfolding get_psr_from_pstate saved
get_psr_from_pstate-saved p packed =
    let x0 : ℕ = p.n <<< 31 in
    let s0 : ℕ = p.n <<< 31 in
    let e1 : bit_or x0 (p.z <<< 30) ≡ s0 + (p.z <<< 30) =
      or_more 31 x0 s0 (s0 / 2 ^ 31) (p.z <<< 30) (omega arith) refl (omega arith) in
    let x1 : ℕ = bit_or x0 (p.z <<< 30) in
    let s1 : ℕ = s0 + (p.z <<< 30) in
    let e2 : bit_or x1 (p.c <<< 29) ≡ s1 + (p.c <<< 29) =
      or_more 30 x1 s1 (s1 / 2 ^ 30) (p.c <<< 29) (omega arith) e1 (omega arith) in
    let x2 : ℕ = bit_or x1 (p.c <<< 29) in
    let s2 : ℕ = s1 + (p.c <<< 29) in
    let e3 : bit_or x2 (p.v <<< 28) ≡ s2 + (p.v <<< 28) =
      or_more 29 x2 s2 (s2 / 2 ^ 29) (p.v <<< 28) (omega arith) e2 (omega arith) in
    let x3 : ℕ = bit_or x2 (p.v <<< 28) in
    let s3 : ℕ = s2 + (p.v <<< 28) in
    let e4 : bit_or x3 (p.d <<< 9) ≡ s3 + (p.d <<< 9) =
      or_more 28 x3 s3 (s3 / 2 ^ 28) (p.d <<< 9) (omega arith) e3 (omega arith) in
    let x4 : ℕ = bit_or x3 (p.d <<< 9) in
    let s4 : ℕ = s3 + (p.d <<< 9) in
    let e5 : bit_or x4 (p.a <<< 8) ≡ s4 + (p.a <<< 8) =
      or_more 9 x4 s4 (s4 / 2 ^ 9) (p.a <<< 8) (omega arith) e4 (omega arith) in
    let x5 : ℕ = bit_or x4 (p.a <<< 8) in
    let s5 : ℕ = s4 + (p.a <<< 8) in
    let e6 : bit_or x5 (p.i <<< 7) ≡ s5 + (p.i <<< 7) =
      or_more 8 x5 s5 (s5 / 2 ^ 8) (p.i <<< 7) (omega arith) e5 (omega arith) in
    let x6 : ℕ = bit_or x5 (p.i <<< 7) in
    let s6 : ℕ = s5 + (p.i <<< 7) in
    let e7 : bit_or x6 (p.f <<< 6) ≡ s6 + (p.f <<< 6) =
      or_more 7 x6 s6 (s6 / 2 ^ 7) (p.f <<< 6) (omega arith) e6 (omega arith) in
    let x7 : ℕ = bit_or x6 (p.f <<< 6) in
    let s7 : ℕ = s6 + (p.f <<< 6) in
    let e8 : bit_or x7 (p.el <<< 2) ≡ s7 + (p.el <<< 2) =
      or_more 6 x7 s7 (s7 / 2 ^ 6) (p.el <<< 2) (omega arith) e7 (omega arith) in
    let x8 : ℕ = bit_or x7 (p.el <<< 2) in
    let s8 : ℕ = s7 + (p.el <<< 2) in
    or_more 2 x8 s8 (s8 / 2 ^ 2) p.sp (omega arith) e8 (omega arith)

pub vector_offset-IsVector :
    (p : Pstate) (base voff : ℕ) → IsVector p (base + voff) (u64 (base + vector_offset 1 p voff))
unfolding vector_offset
vector_offset-IsVector p base voff = elim (Bool-cases (ltb p.el 1)) [
  | inl low ↦
      let e : vector_offset 1 p voff ≡ voff + 0x400 = rw (vector_offset, low) refl in
      subst (λ w. IsVector p (base + voff) (u64 w)) (omega (arith, e))
        (from_lower (omega (arith, ltb→lt p.el 1 low)))
  | inr high ↦
      let above : p.el ≢ 0 = λ z. omega (arith, ltb→le p.el 1 high, z) in
      elim (Bool-cases (p.sp == 1)) [
        | inl own ↦
            let e : vector_offset 1 p voff ≡ voff + 0x200 = rw (vector_offset, high, own) refl in
            let own_one = own_stack above ((==_iff p.sp 1).0 own) in
            subst (λ w. IsVector p (base + voff) (u64 w)) (omega (arith, e)) own_one
        | inr user ↦
            let e : vector_offset 1 p voff ≡ voff = rw (vector_offset, high, user) refl in
            let user_one = user_stack above (==→ne p.sp 1 user) in
            subst (λ w. IsVector p (base + voff) (u64 w)) (omega (arith, e)) user_one
      ]
]
