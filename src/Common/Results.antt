-- ===== src/Common/Results.antt =====
-- What a call of the Rust code can do: return, panic (`panic!`, `todo!`, a failed `assert!` or
-- `unwrap`, an index out of bounds), or run for ever.
use Prim.Native.Nat.{ℕ}
use mathlib.Core.Path.{◌≡◌, refl}
use mathlib.Core.Bool.{Bool, true, false}
use mathlib.Core.List.{List}
use mathlib.Core.Option.{Option, none, some}
use icewind.Common.Arrays.{get_elem?}

pub data Outcome {ℓ} (A : Type ℓ) : Type ℓ where
  ok : A → Outcome A
  panic : Outcome A
  hang : Outcome A

infixl 5 ◌>>=◌ ◌>>◌
abbrev pub ◌>>=◌ {ℓ κ} : {A : Type ℓ} {B : Type κ} → Outcome A → (A → Outcome B) → Outcome B
ok a >>= f = f a
panic >>= f = panic
hang >>= f = hang

abbrev pub ◌>>◌ {ℓ} : {B : Type ℓ} → Outcome (Unit {0}) → Outcome B → Outcome B
m >> k = m >>= λ _. k

-- `assert!`
abbrev pub assert : Bool → Outcome (Unit {0})
assert true = ok tt
assert false = panic

-- `opt.unwrap()`
abbrev pub unwrap {ℓ} : {A : Type ℓ} → Option A → Outcome A
unwrap none = panic
unwrap (some a) = ok a

-- `xs[i]`
abbrev pub index {ℓ} : {A : Type ℓ} → List A → ℕ → Outcome A
index xs i = unwrap (get_elem? xs i)

-- The call returns, and what it returns satisfies `P`.
abbrev pub Returns {ℓ} : {A : Type ℓ} → Outcome A → (A → Type 0) → Type 0
Returns (ok a) P = P a
Returns panic P = ⊥
Returns hang P = ⊥

module _ {ℓ} {A : Type ℓ} where
  pub Returns-elim : (m : Outcome A) (P : A → Type 0) → Returns m P → (a : A) × (m ≡ ok a) × P a
  Returns-elim (ok a) P h = (a, refl, h)
  Returns-elim panic P h = absurd h
  Returns-elim hang P h = absurd h

  pub Returns-map :
      (m : Outcome A) (P Q : A → Type 0) → ((a : A) → P a → Q a) → Returns m P → Returns m Q
  Returns-map (ok a) P Q f h = f a h
  Returns-map panic P Q f h = h
  Returns-map hang P Q f h = h

module _ {ℓ κ} {A : Type ℓ} {B : Type κ} where
  pub Returns-bind :
      (m : Outcome A) (k : A → Outcome B) (P : A → Type 0) (Q : B → Type 0)
      → Returns m P
      → ((a : A) → P a → Returns (k a) Q)
      → Returns (m >>= k) Q
  Returns-bind (ok a) k P Q h f = f a h
  Returns-bind panic k P Q h f = h
  Returns-bind hang k P Q h f = h
