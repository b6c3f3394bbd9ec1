-- ===== src/Pl190/Vectors.antt =====
-- The priority masks: which lines have a vector before a given one.
use icewind.Common.{
  ℕ, zero, suc, ◌+◌, ◌-◌, ◌≤◌, ◌<◌, bit_and, bit_or, List, ◌≡◌, ◌≢◌, ◌∙◌, ◌↔◌, ◌⊎◌, inl, inr, refl,
  sym, ap, length, set, get_elem?, get_elem?_total, get_elem?-set_self, get_elem?-set_ne,
  length-set, lt→ltb, ==→ne, ==_iff, ◌==◌, Bool-cases, some, arith, bit, ◌<<<◌, Returns,
  Returns-map, lt-suc_cases, if◌then◌else◌,
}
use Prim.Native.Nat.{max}
use mathlib.Core.Option.{some_inj}
use mathlib.Core.Path.{subst}
use native.Mathlib.Decide.{dec_lt}
use native.Mathlib.Nat.{add-zero}
use icewind.Common.Bits.{bit-or, bit-shl_low, bit-shl_high, bit-le, bit_high}
use icewind.Pl190.Defs.{store_masks}

-- One of the first `j` vectors is enabled for the line `b`.
pub record HasVector (controls : List ℕ) (j b : ℕ) : Type 0 where
  pub vector : ℕ
  pub before : vector < j
  pub control : ℕ
  pub stands : get_elem? controls vector ≡ some control
  pub enabled : bit_and control 0x20 ≢ 0
  pub selects : bit_and control 0x1f ≡ b

-- The bits of `mask` are the lines of the first `j` vectors.
pub Covers : List ℕ → ℕ → ℕ → Type 0
Covers controls j mask = (b : ℕ) → (bit mask b ≡ 1) ↔ HasVector controls j b

pub Covers-none : (controls : List ℕ) → Covers controls 0 0
unfolding Covers
Covers-none controls b = (
  λ e. absurd (omega (arith, e, bit_high 0 0 b (omega arith) (omega arith))),
  λ h. absurd (omega (arith, h.before)),
)

bit-one_shl_self : (n : ℕ) → bit (1 <<< n) n ≡ 1
bit-one_shl_self n = ap (bit (1 <<< n)) (sym (add-zero n)) ∙ bit-shl_high 1 n 0

bit-one_shl : (n b : ℕ) → bit (1 <<< n) b ≡ 1 → n ≡ b
bit-one_shl n b e = elim (dec_lt b n) [
  | yes below ↦ absurd (omega (arith, e, bit-shl_low 1 n b below))
  | no h ↦ elim (dec_lt n b) [
    | no g ↦ omega arith
    | yes above ↦
        let place : n + (b - n) ≡ b = omega arith in
        let none : bit 1 (b - n) ≡ 0 = bit_high 1 1 (b - n) (omega arith) (omega arith) in
        absurd (omega (arith, e, none, bit-shl_high 1 n (b - n), ap (bit (1 <<< n)) place))
  ]
]

-- A vector stands before any place after it.
HasVector-moved :
    (controls : List ℕ) (i j b : ℕ) (h : HasVector controls i b)
    → h.vector < j
    → HasVector controls j b
HasVector-moved controls i j b h before = record {
  vector = h.vector;
  before = before;
  control = h.control;
  stands = h.stands;
  enabled = h.enabled;
  selects = h.selects;
}

-- What the body of the loop makes of the mask.
next_mask : ℕ → ℕ → ℕ
next_mask control mask =
    if bit_and control 0x20 == 0 then mask else bit_or mask (1 <<< bit_and control 0x1f)

module _ (controls : List ℕ) (i control mask : ℕ)
    (stands : get_elem? controls i ≡ some control) where
  -- A vector before `i + 1` is one before `i`, or the vector `i`.
  last_vector :
      (b : ℕ)
      → HasVector controls (i + 1) b
      → HasVector controls i b ⊎ ((bit_and control 0x20 ≢ 0) × (bit_and control 0x1f ≡ b))
  last_vector b h = elim (lt-suc_cases h.vector i h.before) [
    | inl earlier ↦ inl (HasVector-moved controls (i + 1) i b h earlier)
    | inr now ↦
        let found : get_elem? controls h.vector ≡ some control = rw now stands in
        let same : h.control ≡ control = some_inj.0 (sym h.stands ∙ found) in
        inr (subst (λ c. (bit_and c 0x20 ≢ 0) × (bit_and c 0x1f ≡ b)) same (h.enabled, h.selects))
  ]

  carried : (b : ℕ) → HasVector controls i b → HasVector controls (i + 1) b
  carried b h = HasVector-moved controls i (i + 1) b h (omega (arith, h.before))

  Covers-next : Covers controls i mask → Covers controls (i + 1) (next_mask control mask)
  unfolding Covers next_mask
  Covers-next known b = elim (Bool-cases (bit_and control 0x20 == 0)) [
    | inl off ↦ rw off (
      λ e. carried b ((known b).0 e),
      λ h. elim (last_vector b h) [
        | inl earlier ↦ (known b).1 earlier
        | inr (enabled, _) ↦ absurd (enabled ((==_iff (bit_and control 0x20) 0).0 off))
      ],
    )
    | inr on ↦
        let n = bit_and control 0x1f in
        let joined : bit (bit_or mask (1 <<< n)) b ≡ max (bit mask b) (bit (1 <<< n) b) =
          bit-or mask (1 <<< n) b in
        rw on (
          λ e. elim (dec_lt 0 (bit mask b)) [
            | yes set_before ↦ carried b ((known b).0 (omega (arith, bit-le mask b)))
            | no clear ↦ record {
              vector = i;
              before = omega arith;
              control = control;
              stands = stands;
              enabled = ==→ne (bit_and control 0x20) 0 on;
              selects = bit-one_shl n b (omega (arith, joined, e));
            }
          ],
          λ h. elim (last_vector b h) [
            | inl earlier ↦ omega (arith, (known b).1 earlier, joined, bit-le (1 <<< n) b)
            | inr (_, same) ↦
                omega (arith, joined, bit-le mask b, bit-one_shl_self n, ap (bit (1 <<< n)) same)
          ],
        )
  ]

-- The loop from the vector `i` on, when `mask` has the lines of the vectors before it: each mask
-- that it stores, and the one it ends with, has the lines of the vectors before its own place.
pub record AreStored (controls masks : List ℕ) (i n : ℕ) (out : List ℕ × ℕ) : Type 0 where
  pub same_length : length out.0 ≡ length masks
  pub last : Covers controls (i + n) out.1
  pub each :
      (j : ℕ) → i ≤ j → j < i + n → (m : ℕ) × (get_elem? out.0 j ≡ some m) × Covers controls j m
  pub kept : (j : ℕ) → (j < i) ⊎ (i + n ≤ j) → get_elem? out.0 j ≡ get_elem? masks j

pub store_masks-AreStored :
    (n i mask : ℕ) (controls masks : List ℕ)
    → i + n ≤ length controls
    → i + n ≤ length masks
    → Covers controls i mask
    → Returns (store_masks n i mask controls masks) (AreStored controls masks i n)
unfolding store_masks next_mask
store_masks-AreStored zero i mask controls masks hc hm known = record {
  same_length = refl;
  last = rw add-zero known;
  each = λ j lo hi. absurd (omega arith);
  kept = λ j out. refl;
}
store_masks-AreStored (suc n) i mask controls masks hc hm known =
    let inside = lt→ltb i (length masks) (omega arith) in
    let (control, stands) = get_elem?_total controls i (omega arith) in
    let stored = set masks i mask in
    let size = length-set masks i mask in
    rw (inside, stands)
      (Returns-map (store_masks n (i + 1) (next_mask control mask) controls stored)
        (AreStored controls stored (i + 1) n) (AreStored controls masks i (suc n))
        (λ out h. record {
          same_length = h.same_length ∙ size;
          last = subst (λ j. Covers controls j out.1) (omega arith) h.last;
          each = λ j lo hi. elim (dec_lt i j) [
            | yes later ↦ h.each j (omega arith) (omega arith)
            | no first ↦
                let here : i ≡ j = omega arith in
                (
                  mask,
                  h.kept j (inl (omega arith))
                      ∙ ap (get_elem? stored) (sym here)
                      ∙ get_elem?-set_self masks i mask (omega arith),
                  subst (λ k. Covers controls k mask) here known,
                )
          ];
          kept =
              λ j out'. h.kept j (omega arith) ∙ get_elem?-set_ne masks i j mask (λ e. omega arith);
        })
        (store_masks-AreStored n (i + 1) (next_mask control mask) controls stored (omega arith)
          (omega (arith, size)) (Covers-next controls i control mask stands known)))

-- All 17 masks, once the last one is stored too.
pub all_masks :
    (controls masks : List ℕ) (out : List ℕ × ℕ)
    → AreStored controls masks 0 16 out
    → length out.0 ≡ 18
    → (j : ℕ) → j ≤ 16
    → (m : ℕ) × (get_elem? (set out.0 16 out.1) j ≡ some m) × Covers controls j m
all_masks controls masks out h size j le = elim (dec_lt j 16) [
  | yes below ↦
      let lo : 0 ≤ j = omega arith in
      let hi : j < 0 + 16 = omega arith in
      let (m, stands, covers) = h.each j lo hi in
      (m, get_elem?-set_ne out.0 16 j out.1 (λ e. omega arith) ∙ stands, covers)
  | no last ↦
      let here : 16 ≡ j = omega arith in
      (
        out.1,
        ap (get_elem? (set out.0 16 out.1)) (sym here)
            ∙ get_elem?-set_self out.0 16 out.1 (omega (arith, size)),
        subst (λ k. Covers controls k out.1) here h.last,
      )
]
