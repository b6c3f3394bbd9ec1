-- ===== src/Opt/Typed.antt =====
-- The types of the statements of a block, next to those of one with another terminator.
use icewind.Common.{
  ℕ, zero, suc, List, [], ◌∷◌, ◌≡◌, ◌⊎◌, inl, inr, refl, sym, ap, ◌∙◌, Option, some, Outcome, ok,
  panic, hang, ◌>>=◌, index, if◌then◌else◌,
}
use icewind.Rudder.Types.{Typ, primitive, unsigned_integer}
use icewind.Rudder.Statements
use icewind.Rudder.Statements.{
  Statement, typ_of, UnaryOperationKind, field_typ, part_types, part_of, element_of, is_comparison,
}

pub data IsEnd : Statement → Type 0 where
  jumps : (t : ℕ) → IsEnd (Statements.jump t)
  branches : (c t f : ℕ) → IsEnd (Statements.branch c t f)

-- both arenas have the same statement at a place, or both a terminator
unfoldable pub Alike : List Statement → List Statement → ℕ → Type 0
Alike arena arena' k =
    (index arena' k ≡ index arena k)
    ⊎ ((s : Statement) × (s' : Statement) × IsEnd s
        × IsEnd s'
        × (index arena k ≡ ok s)
        × (index arena' k ≡ ok s'))

typ_of-end :
    (fuel : ℕ) (arena arena' : List Statement) {s s' : Statement}
    → IsEnd s
    → IsEnd s'
    → typ_of fuel arena' s' ≡ typ_of fuel arena s
unfolding typ_of
typ_of-end zero arena arena' e e' = refl
typ_of-end (suc fuel) arena arena' (jumps t) (jumps t') = refl
typ_of-end (suc fuel) arena arena' (jumps t) (branches c' t' f') = refl
typ_of-end (suc fuel) arena arena' (branches c t f) (jumps t') = refl
typ_of-end (suc fuel) arena arena' (branches c t f) (branches c' t' f') = refl

field_typ-end : (whole : Outcome (Option Typ)) {s : Statement} → IsEnd s → field_typ whole s ≡ whole
unfolding field_typ
field_typ-end whole (jumps t) = refl
field_typ-end whole (branches c t f) = refl

part_types-eq :
    {f g : ℕ → Outcome (Option Typ)}
    → ((v : ℕ) → f v ≡ g v)
    → (vs : List ℕ) → part_types f vs ≡ part_types g vs
unfolding part_types
part_types-eq h [] = refl
part_types-eq h (v ∷ vs) = rw (h v, part_types-eq h vs) refl

pub bind-ok {ℓ κ} :
    {A : Type ℓ} {B : Type κ} (r : Outcome A) (f : A → Outcome B) {y : B}
    → (r >>= f) ≡ ok y
    → (a : A) × (r ≡ ok a) × (f a ≡ ok y)
bind-ok (ok a) f h = (a, refl, h)
bind-ok panic f h = absurd cc
bind-ok hang f h = absurd cc

pub bind-eq {ℓ κ} :
    {A : Type ℓ} {B : Type κ} (r : Outcome A) {f g : A → Outcome B}
    → ((a : A) → f a ≡ g a)
    → (r >>= f) ≡ (r >>= g)
bind-eq (ok a) h = h a
bind-eq panic h = refl
bind-eq hang h = refl

module _ (arena arena' : List Statement) (alike : (k : ℕ) → Alike arena arena' k) where
  -- the type of the statement at a place
  pub at-eq :
      (fuel : ℕ)
      → ((s : Statement) → typ_of fuel arena' s ≡ typ_of fuel arena s)
      → (k : ℕ) → (index arena' k >>= typ_of fuel arena') ≡ (index arena k >>= typ_of fuel arena)
  unfolding Alike
  at-eq fuel same k = elim (alike k) [
    | inl e ↦ rw e (bind-eq (index arena k) same)
    | inr (s, s', e, e', h, h') ↦ rw (h, h') (typ_of-end fuel arena arena' e e')
  ]

  field-eq :
      (whole : Outcome (Option Typ)) (k : ℕ)
      → (index arena' k >>= field_typ whole) ≡ (index arena k >>= field_typ whole)
  unfolding Alike
  field-eq whole k = elim (alike k) [
    | inl e ↦ rw e refl
    | inr (s, s', e, e', h, h') ↦ rw (h, h') (field_typ-end whole e' ∙ sym (field_typ-end whole e))
  ]

  pub typ_of-eq : (fuel : ℕ) (s : Statement) → typ_of fuel arena' s ≡ typ_of fuel arena s
  unfolding typ_of
  typ_of-eq zero s = refl
  typ_of-eq (suc n) (Statements.constant a) = refl
  typ_of-eq (suc n) (Statements.read_variable a) = refl
  typ_of-eq (suc n) (Statements.write_variable a b) = refl
  typ_of-eq (suc n) (Statements.read_register a b) = refl
  typ_of-eq (suc n) (Statements.write_register a b) = refl
  typ_of-eq (suc n) (Statements.read_memory a b) = refl
  typ_of-eq (suc n) (Statements.write_memory a b) = refl
  typ_of-eq (suc n) (Statements.atomic_operation a b d e) = refl
  typ_of-eq (suc n) Statements.read_pc = refl
  typ_of-eq (suc n) (Statements.write_pc a) = refl
  typ_of-eq (suc n) (Statements.get_flags a) = refl
  typ_of-eq (suc n) (Statements.call a b d) = refl
  typ_of-eq (suc n) (Statements.cast a b d) = refl
  typ_of-eq (suc n) (Statements.bits_cast a b d e) = refl
  typ_of-eq (suc n) (Statements.jump a) = refl
  typ_of-eq (suc n) (Statements.branch a b d) = refl
  typ_of-eq (suc n) (Statements.return a) = refl
  typ_of-eq (suc n) (Statements.bit_replicate a b) = refl
  typ_of-eq (suc n) (Statements.abort a) = refl
  typ_of-eq (suc n) (Statements.check a) = refl
  typ_of-eq (suc n) (Statements.create_bits a b) = refl
  typ_of-eq (suc n) (Statements.size_of a) = refl
  typ_of-eq (suc n) (Statements.matches_union a b) = refl
  typ_of-eq (suc n) (Statements.unwrap_union a b) = refl
  typ_of-eq (suc n) (Statements.create_real a b) = refl
  typ_of-eq (suc n) (Statements.unary_operation Statements.ceil v) = refl
  typ_of-eq (suc n) (Statements.unary_operation Statements.floor v) = refl
  typ_of-eq (suc n) (Statements.unary_operation Statements.complement_bits v) =
      at-eq n (typ_of-eq n) v
  typ_of-eq (suc n) (Statements.unary_operation Statements.not v) = at-eq n (typ_of-eq n) v
  typ_of-eq (suc n) (Statements.unary_operation Statements.power2 v) = at-eq n (typ_of-eq n) v
  typ_of-eq (suc n) (Statements.unary_operation Statements.negate v) = at-eq n (typ_of-eq n) v
  typ_of-eq (suc n) (Statements.unary_operation Statements.absolute v) = at-eq n (typ_of-eq n) v
  typ_of-eq (suc n) (Statements.unary_operation Statements.square_root v) = at-eq n (typ_of-eq n) v
  typ_of-eq (suc n) (Statements.binary_operation kind l r) =
      ap (λ o. if is_comparison kind then ok (some (primitive (unsigned_integer 1))) else o)
        (at-eq n (typ_of-eq n) l)
  typ_of-eq (suc n) (Statements.add_with_carry a b d) = at-eq n (typ_of-eq n) a
  typ_of-eq (suc n) (Statements.shift_operation kind v amount) = at-eq n (typ_of-eq n) v
  typ_of-eq (suc n) (Statements.phi_node []) = refl
  typ_of-eq (suc n) (Statements.phi_node (member ∷ members)) = at-eq n (typ_of-eq n) (member.1)
  typ_of-eq (suc n) (Statements.select d t f) = at-eq n (typ_of-eq n) t
  typ_of-eq (suc n) (Statements.bit_extract v start width) =
      ap (λ whole. index arena' width >>= field_typ whole) (at-eq n (typ_of-eq n) v)
      ∙ field-eq (index arena v >>= typ_of n arena) width
  typ_of-eq (suc n) (Statements.bit_insert target source start width) = at-eq n (typ_of-eq n) target
  typ_of-eq (suc n) (Statements.read_element v i) =
      ap (λ o. o >>= element_of) (at-eq n (typ_of-eq n) v)
  typ_of-eq (suc n) (Statements.assign_element v value i) = at-eq n (typ_of-eq n) v
  typ_of-eq (suc n) (Statements.tuple_access i source) =
      ap (λ o. o >>= part_of i) (at-eq n (typ_of-eq n) source)
  typ_of-eq (suc n) (Statements.create_tuple vs) =
      rw (part_types-eq (at-eq n (typ_of-eq n)) vs) refl
