-- ===== src/Common/Arrays.antt =====
-- Arrays as lists indexed by native numbers, with a map over a window of indices.
use Prim.Native.Nat.{ℕ, zero, suc, ◌+◌, ◌-◌, ◌≤◌, ◌<◌}
use mathlib.Core.Path.{◌≡◌, refl, ap, ◌∙◌}
use mathlib.Core.Logic.{◌≢◌, ◌⊎◌}
use mathlib.Core.List.{List, [], ◌∷◌, ◌++◌}
use native.Mathlib.Nat.{add-zero}
use mathlib.Core.Option.{Option, none, some}
use native.Mathlib.Omega.{arith}

module _ {ℓ} {A : Type ℓ} where
  abbrev pub length : List A → ℕ
  length [] = 0
  length (x ∷ xs) = suc (length xs)

  abbrev pub get_elem? : List A → ℕ → Option A
  get_elem? [] i = none
  get_elem? (x ∷ xs) zero = some x
  get_elem? (x ∷ xs) (suc i) = get_elem? xs i

  abbrev pub get_or : List A → ℕ → A → A
  get_or [] i d = d
  get_or (x ∷ xs) zero d = x
  get_or (x ∷ xs) (suc i) d = get_or xs i d

  -- A write out of bounds changes nothing.
  abbrev pub set : List A → ℕ → A → List A
  set [] i v = []
  set (x ∷ xs) zero v = v ∷ xs
  set (x ∷ xs) (suc i) v = x ∷ set xs i v

  abbrev pub take : ℕ → List A → List A
  take zero xs = []
  take (suc n) [] = []
  take (suc n) (x ∷ xs) = x ∷ take n xs

  abbrev pub drop : ℕ → List A → List A
  drop zero xs = xs
  drop (suc n) [] = []
  drop (suc n) (x ∷ xs) = drop n xs

  abbrev pub replicate : ℕ → A → List A
  replicate zero a = []
  replicate (suc n) a = a ∷ replicate n a

module _ {ℓ} {A : Type ℓ} where
  pub length-set : (xs : List A) (i : ℕ) (v : A) → length (set xs i v) ≡ length xs
  length-set [] i v = refl
  length-set (x ∷ xs) zero v = refl
  length-set (x ∷ xs) (suc i) v = ap suc (length-set xs i v)

  pub get_elem?-set_self :
      (xs : List A) (i : ℕ) (v : A) → i < length xs → get_elem? (set xs i v) i ≡ some v
  get_elem?-set_self [] i v h = elim h [ ]
  get_elem?-set_self (x ∷ xs) zero v h = refl
  get_elem?-set_self (x ∷ xs) (suc i) v h = get_elem?-set_self xs i v (omega arith)

  pub get_elem?-set_ne :
      (xs : List A) (i j : ℕ) (v : A) → i ≢ j → get_elem? (set xs i v) j ≡ get_elem? xs j
  get_elem?-set_ne [] i j v h = refl
  get_elem?-set_ne (x ∷ xs) zero zero v h = absurd (h refl)
  get_elem?-set_ne (x ∷ xs) zero (suc j) v h = refl
  get_elem?-set_ne (x ∷ xs) (suc i) zero v h = refl
  get_elem?-set_ne (x ∷ xs) (suc i) (suc j) v h = get_elem?-set_ne xs i j v (λ e. h (ap suc e))

  pub set_eq_self : (xs : List A) (i : ℕ) {x : A} → get_elem? xs i ≡ some x → set xs i x ≡ xs
  set_eq_self [] i h = refl
  set_eq_self (y ∷ xs) zero {x} h = let same : x ≡ y = cc in ap (λ z. z ∷ xs) same
  set_eq_self (y ∷ xs) (suc i) h = ap (λ zs. y ∷ zs) (set_eq_self xs i h)

  pub lt_of_get_elem? : (xs : List A) (i : ℕ) {x : A} → get_elem? xs i ≡ some x → i < length xs
  lt_of_get_elem? [] i h = absurd (cc)
  lt_of_get_elem? (x ∷ xs) zero h = omega arith
  lt_of_get_elem? (x ∷ xs) (suc i) h = omega (arith, lt_of_get_elem? xs i h)

  pub get_elem?_total : (xs : List A) (i : ℕ) → i < length xs → (x : A) × (get_elem? xs i ≡ some x)
  get_elem?_total [] i h = absurd (omega arith)
  get_elem?_total (x ∷ xs) zero h = (x, refl)
  get_elem?_total (x ∷ xs) (suc i) h = get_elem?_total xs i (omega arith)

  pub get_elem?-beyond : (xs : List A) (i : ℕ) → length xs ≤ i → get_elem? xs i ≡ none
  get_elem?-beyond [] i h = refl
  get_elem?-beyond (x ∷ xs) zero h = absurd (omega arith)
  get_elem?-beyond (x ∷ xs) (suc i) h = get_elem?-beyond xs i (omega arith)

  pub get_elem?-eq-get_or :
      (xs : List A) (i : ℕ) (d : A) → i < length xs → get_elem? xs i ≡ some (get_or xs i d)
  get_elem?-eq-get_or [] i d h = absurd (omega arith)
  get_elem?-eq-get_or (x ∷ xs) zero d h = refl
  get_elem?-eq-get_or (x ∷ xs) (suc i) d h = get_elem?-eq-get_or xs i d (omega arith)

  pub length-append : (xs ys : List A) → length (xs ++ ys) ≡ length xs + length ys
  length-append [] ys = omega arith
  length-append (x ∷ xs) ys = omega (arith, length-append xs ys)

  pub length-replicate : (n : ℕ) (a : A) → length (replicate n a) ≡ n
  length-replicate zero a = refl
  length-replicate (suc n) a = ap suc (length-replicate n a)

  pub get_elem?-replicate :
      (n i : ℕ) (a : A) {b : A} → get_elem? (replicate n a) i ≡ some b → some b ≡ some a
  get_elem?-replicate zero i a e = absurd (cc)
  get_elem?-replicate (suc n) zero a e = cc
  get_elem?-replicate (suc n) (suc i) a e = get_elem?-replicate n i a e

-- `for (index, x) in xs[start..start + n].iter().enumerate()`: each element of the window is
-- replaced by what `f` makes of its index in the window and of itself.
module _ {ℓ} {A : Type ℓ} (f : ℕ → A → A) where
  pub map_from : ℕ → ℕ → List A → List A
  map_from k zero xs = xs
  map_from k (suc n) [] = []
  map_from k (suc n) (x ∷ xs) = f k x ∷ map_from (k + 1) n xs

  unfoldable pub map_window : ℕ → ℕ → List A → List A
  unfolding map_from
  map_window zero n xs = map_from 0 n xs
  map_window (suc s) n [] = []
  map_window (suc s) n (x ∷ xs) = x ∷ map_window s n xs

  length-map_from : (k n : ℕ) (xs : List A) → length (map_from k n xs) ≡ length xs
  unfolding map_from
  length-map_from k zero xs = refl
  length-map_from k (suc n) [] = refl
  length-map_from k (suc n) (x ∷ xs) = ap suc (length-map_from (k + 1) n xs)

  pub length-map_window : (s n : ℕ) (xs : List A) → length (map_window s n xs) ≡ length xs
  unfolding map_window
  length-map_window zero n xs = length-map_from 0 n xs
  length-map_window (suc s) n [] = refl
  length-map_window (suc s) n (x ∷ xs) = ap suc (length-map_window s n xs)

  get_elem?-map_from_in :
      (k n : ℕ) (xs : List A) (i : ℕ) {x : A}
      → i < n
      → get_elem? xs i ≡ some x
      → get_elem? (map_from k n xs) i ≡ some (f (k + i) x)
  unfolding map_from
  get_elem?-map_from_in k zero xs i h e = absurd (omega arith)
  get_elem?-map_from_in k (suc n) [] i h e = absurd (cc)
  get_elem?-map_from_in k (suc n) (y ∷ xs) zero h e = rw add-zero (cc)
  get_elem?-map_from_in k (suc n) (y ∷ xs) (suc i) {x} h e =
      let shift : k + 1 + i ≡ k + suc i = omega arith in
      rw (← shift) (get_elem?-map_from_in (k + 1) n xs i (omega arith) e)

  get_elem?-map_from_out :
      (k n : ℕ) (xs : List A) (i : ℕ) → n ≤ i → get_elem? (map_from k n xs) i ≡ get_elem? xs i
  unfolding map_from
  get_elem?-map_from_out k zero xs i h = refl
  get_elem?-map_from_out k (suc n) [] i h = refl
  get_elem?-map_from_out k (suc n) (x ∷ xs) zero h = absurd (omega arith)
  get_elem?-map_from_out k (suc n) (x ∷ xs) (suc i) h =
      get_elem?-map_from_out (k + 1) n xs i (omega arith)

  pub get_elem?-map_window_in :
      (s n : ℕ) (xs : List A) (i : ℕ) {x : A}
      → s ≤ i
      → i < s + n
      → get_elem? xs i ≡ some x
      → get_elem? (map_window s n xs) i ≡ some (f (i - s) x)
  unfolding map_window
  get_elem?-map_window_in zero n xs i {x} lo hi e =
      get_elem?-map_from_in 0 n xs i (omega arith) e ∙ ap (λ j. some (f j x)) (omega arith)
  get_elem?-map_window_in (suc s) n [] i lo hi e = absurd (cc)
  get_elem?-map_window_in (suc s) n (y ∷ xs) zero lo hi e = absurd (omega arith)
  get_elem?-map_window_in (suc s) n (y ∷ xs) (suc i) {x} lo hi e =
      get_elem?-map_window_in s n xs i (omega arith) (omega arith) e
      ∙ ap (λ j. some (f j x)) (omega arith)

  pub get_elem?-map_window_out :
      (s n : ℕ) (xs : List A) (i : ℕ)
      → (i < s) ⊎ (s + n ≤ i)
      → get_elem? (map_window s n xs) i ≡ get_elem? xs i
  unfolding map_window
  get_elem?-map_window_out zero n xs i h = get_elem?-map_from_out 0 n xs i (omega arith)
  get_elem?-map_window_out (suc s) n [] i h = refl
  get_elem?-map_window_out (suc s) n (y ∷ xs) zero h = refl
  get_elem?-map_window_out (suc s) n (y ∷ xs) (suc i) h =
      get_elem?-map_window_out s n xs i (omega arith)
