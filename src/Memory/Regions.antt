-- ===== src/Memory/Regions.antt =====
-- With regions that do not overlap, the lookup finds the one region that has the address.
use icewind.Common.{
  ℕ, ◌+◌, ◌≤◌, ◌<◌, ◌^◌, ◌≡◌, ◌≢◌, ◌⊎◌, ◌↔◌, inl, inr, refl, sym, ap, ◌∙◌, subst, arith, List, [],
  ◌∷◌, ltb, leb, ◌==◌, ◌&&◌, if◌then◌else◌, u64, Option, none, some, false, Bool-cases,
  Option-cases, lt→ltb, lt→leb, le→leb, leb→le, ltb→lt, ltb→le, ==_of_ne,
}
use mathlib.Core.Logic.{⊎_elim}
use mathlib.Core.List.{Memᴰ}
use mathlib.Core.List.Memᴰ
use mathlib.Core.Option.{some_inj}
use icewind.Memory.AddressSpace.{
  AddressSpaceRegion, AddressSpace, insert, add_region, upper_bound, find_region,
}

-- the region has `address`
abbrev pub Contains : AddressSpaceRegion → ℕ → Type 0
Contains r address = (r.base ≤ address) × (address < r.base + r.size)

-- A region with addresses, all of them words.
abbrev pub Fits : AddressSpaceRegion → Type 0
Fits r = (0 < r.size) × (r.base + r.size < 2 ^ 64)

abbrev pub Apart : AddressSpaceRegion → AddressSpaceRegion → Type 0
Apart r x = (r.base + r.size ≤ x.base) ⊎ (x.base + x.size ≤ r.base)

-- no region starts below `address`
unfoldable pub After : ℕ → List AddressSpaceRegion → Type 0
After address [] = Unit
After address (r ∷ rs) = (address ≤ r.base) × After address rs

unfoldable pub Ordered : List AddressSpaceRegion → Type 0
Ordered [] = Unit
Ordered (r ∷ rs) = Fits r × After (r.base + r.size) rs × Ordered rs

none_is_not_some : (x : AddressSpaceRegion) → ¬ (none ≡ some x)
none_is_not_some x h = ground arith

After-weaken : (a b : ℕ) (rs : List AddressSpaceRegion) → a ≤ b → After b rs → After a rs
unfolding After
After-weaken a b [] h t = tt
After-weaken a b (r ∷ rs) h (here, rest) = (omega arith, After-weaken a b rs h rest)

After-member :
    (a : ℕ) (x : AddressSpaceRegion) (rs : List AddressSpaceRegion)
    → After a rs
    → Memᴰ x rs
    → a ≤ x.base
unfolding After
After-member a x [] h m = elim m [ ]
After-member a x (r ∷ rs) (here, rest) (Memᴰ.head e) = subst (λ y. a ≤ y.base) (sym e) here
After-member a x (r ∷ rs) (here, rest) (Memᴰ.tail m) = After-member a x rs rest m

upper_bound-none :
    (a address : ℕ) (rs : List AddressSpaceRegion)
    → After a rs
    → address < a
    → upper_bound address rs ≡ none
unfolding After upper_bound
upper_bound-none a address [] h below = refl
upper_bound-none a address (r ∷ rs) (here, rest) below =
    rw (lt→leb address r.base (omega arith)) refl

upper_bound-member :
    (address : ℕ) (x : AddressSpaceRegion) (rs : List AddressSpaceRegion)
    → Ordered rs
    → Memᴰ x rs
    → Contains x address
    → upper_bound address rs ≡ some x
unfolding Ordered upper_bound
upper_bound-member address x [] h m within = elim m [ ]
upper_bound-member address x (r ∷ rs) (fits, after, ordered) (Memᴰ.head e) within =
    let here : Contains r address = subst (λ y. Contains y address) e within in
    rw
      (le→leb r.base address (here.0), upper_bound-none (r.base + r.size) address rs after (here.1))
      (ap some (sym e))
upper_bound-member address x (r ∷ rs) (fits, after, ordered) (Memᴰ.tail m) within =
    let later : r.base + r.size ≤ x.base = After-member (r.base + r.size) x rs after m in
    rw
      (
        le→leb r.base address (omega (arith, later, within.0)),
        upper_bound-member address x rs ordered m within,
      )
      refl

upper_bound-Memᴰ :
    (address : ℕ) (x : AddressSpaceRegion) (rs : List AddressSpaceRegion)
    → upper_bound address rs ≡ some x
    → Memᴰ x rs
unfolding upper_bound
upper_bound-Memᴰ address x [] h = absurd (ground arith)
upper_bound-Memᴰ address x (r ∷ rs) h = elim (Bool-cases (leb r.base address)) [
  | inl low ↦ elim (Option-cases (upper_bound address rs)) [
    | inl last ↦
        let here : upper_bound address (r ∷ rs) ≡ some r = rw (low, last) refl in
        Memᴰ.head (sym (some_inj.0 (sym here ∙ h)))
    | inr (y, more) ↦
        let later : upper_bound address (r ∷ rs) ≡ some y = rw (low, more) refl in
        Memᴰ.tail (upper_bound-Memᴰ address x rs (more ∙ sym later ∙ h))
  ]
  | inr high ↦
      let nothing : upper_bound address (r ∷ rs) ≡ none = rw high refl in
      absurd (none_is_not_some x (sym nothing ∙ h))
]

member-Fits :
    (x : AddressSpaceRegion) (rs : List AddressSpaceRegion) → Ordered rs → Memᴰ x rs → Fits x
unfolding Ordered
member-Fits x [] h m = elim m [ ]
member-Fits x (r ∷ rs) (fits, after, ordered) (Memᴰ.head e) = subst Fits (sym e) fits
member-Fits x (r ∷ rs) (fits, after, ordered) (Memᴰ.tail m) = member-Fits x rs ordered m

-- the test of `find_region` on its candidate
tested : AddressSpaceRegion → ℕ → Option AddressSpaceRegion
tested c address =
    if leb c.base address && ltb address (u64 (c.base + c.size)) then some c else none

holds :
    (c x : AddressSpaceRegion) (address : ℕ)
    → Fits c
    → tested c address ≡ some x
    → (c ≡ x) × Contains c address
unfolding tested
holds c x address fits h =
    let whole : u64 (c.base + c.size) ≡ c.base + c.size = omega (arith, fits.1) in
    elim (Bool-cases (leb c.base address)) [
      | inl low ↦ elim (Bool-cases (ltb address (u64 (c.base + c.size)))) [
        | inl high ↦
            let here : tested c address ≡ some c = rw (low, high) refl in
            (
              some_inj.0 (sym here ∙ h),
              (
                leb→le c.base address low,
                omega (arith, whole, ltb→lt address (u64 (c.base + c.size)) high),
              ),
            )
        | inr past ↦
            let nothing : tested c address ≡ none = rw (low, past) refl in
            absurd (none_is_not_some x (sym nothing ∙ h))
      ]
      | inr before ↦
          let nothing : tested c address ≡ none = rw before refl in
          absurd (none_is_not_some x (sym nothing ∙ h))
    ]

pub find_region_iff :
    (s : AddressSpace) (address : ℕ) (x : AddressSpaceRegion)
    → Ordered s.regions
    → (find_region s address ≡ some x) ↔ (Memᴰ x s.regions × Contains x address)
unfolding find_region tested
find_region_iff s address x ordered = (
  λ h. elim (Option-cases (upper_bound address s.regions)) [
    | inl missing ↦
        let nothing : find_region s address ≡ none = rw (find_region, missing) refl in
        absurd (none_is_not_some x (sym nothing ∙ h))
    | inr (c, found) ↦
        let member : Memᴰ c s.regions = upper_bound-Memᴰ address c s.regions found in
        let seen : find_region s address ≡ tested c address = rw (find_region, found) refl in
        let result = holds c x address (member-Fits c s.regions ordered member) (sym seen ∙ h) in
        (
          subst (λ y. Memᴰ y s.regions) (result.0) member,
          subst (λ y. Contains y address) (result.0) (result.1),
        )
  ],
  λ h.
      let fits : Fits x = member-Fits x s.regions ordered (h.0) in
      let whole : u64 (x.base + x.size) ≡ x.base + x.size = omega (arith, fits.1) in
      rw
        (
          find_region,
          upper_bound-member address x s.regions ordered (h.0) (h.1),
          le→leb x.base address (h.1.0),
          lt→ltb address (u64 (x.base + x.size)) (omega (arith, whole, h.1.1)),
        )
        refl,
)

After-insert :
    (a : ℕ) (r : AddressSpaceRegion) (rs : List AddressSpaceRegion)
    → a ≤ r.base
    → After a rs
    → After a (insert r rs)
unfolding After insert
After-insert a r [] h t = (h, tt)
After-insert a r (x ∷ rs) h (here, rest) = elim (Bool-cases (ltb r.base x.base)) [
  | inl low ↦ rw low (h, (here, rest))
  | inr high ↦ elim (Bool-cases (r.base == x.base)) [
    | inl same ↦ rw (high, same) (h, rest)
    | inr other ↦ rw (high, other) (here, After-insert a r rs h rest)
  ]
]

insert-Ordered :
    (r : AddressSpaceRegion) (rs : List AddressSpaceRegion)
    → Fits r
    → Ordered rs
    → ((x : AddressSpaceRegion) → Memᴰ x rs → Apart r x)
    → Ordered (insert r rs)
unfolding Ordered insert After
insert-Ordered r [] fits ordered apart = (fits, tt, tt)
insert-Ordered r (x ∷ rs) fits (fits', after, ordered) apart =
    elim (Bool-cases (ltb r.base x.base)) [
      | inl low ↦ rw low (elim (apart x (Memᴰ.head refl)) [
        | inl before ↦ (
          fits,
          (
            before,
            After-weaken (r.base + r.size) (x.base + x.size) rs (omega (arith, before)) after,
          ),
          (fits', after, ordered),
        )
        | inr behind ↦ absurd (omega (arith, behind, ltb→lt r.base x.base low, fits'.0))
      ])
      | inr high ↦
          let above : x.base ≤ r.base = ltb→le r.base x.base high in
          elim (apart x (Memᴰ.head refl)) [
            | inl before ↦ absurd (omega (arith, before, above, fits.0))
            | inr behind ↦
                let differ : (r.base == x.base) ≡ false =
                  ==_of_ne r.base x.base (λ e. omega (arith, e, behind, fits'.0)) in
                rw (high, differ)
                  (
                    fits',
                    After-insert (x.base + x.size) r rs behind after,
                    insert-Ordered r rs fits ordered (λ y m. apart y (Memᴰ.tail m)),
                  )
          ]
    ]

bases_differ : (r y : AddressSpaceRegion) → Fits r → Fits y → Apart r y → r.base ≢ y.base
bases_differ r y fits fits' (inl before) e = omega (arith, before, e, fits.0)
bases_differ r y fits fits' (inr behind) e = omega (arith, behind, e, fits'.0)

-- where a region is after it was inserted among others
member-insert :
    (r x : AddressSpaceRegion) (rs : List AddressSpaceRegion)
    → ((y : AddressSpaceRegion) → Memᴰ y rs → r.base ≢ y.base)
    → Memᴰ x (insert r rs) ↔ ((x ≡ r) ⊎ Memᴰ x rs)
unfolding insert
member-insert r x [] other = (Memᴰ.cases_cons, ⊎_elim Memᴰ.head Memᴰ.tail)
member-insert r x (y ∷ rs) other =
    let rest = member-insert r x rs (λ z m. other z (Memᴰ.tail m)) in
    elim (Bool-cases (ltb r.base y.base)) [
      | inl low ↦ rw low (Memᴰ.cases_cons, ⊎_elim Memᴰ.head Memᴰ.tail)
      | inr high ↦
          let differ : (r.base == y.base) ≡ false =
            ==_of_ne r.base y.base (other y (Memᴰ.head refl)) in
          rw (high, differ)
            (
              λ m. elim (Memᴰ.cases_cons m) [
                | inl e ↦ inr (Memᴰ.head e)
                | inr n ↦ elim (rest.0 n) [ inl e ↦ inl e | inr k ↦ inr (Memᴰ.tail k) ]
              ],
              λ o. elim o [
                | inl e ↦ Memᴰ.tail (rest.1 (inl e))
                | inr m ↦ elim (Memᴰ.cases_cons m) [
                  | inl e ↦ Memᴰ.head e
                  | inr n ↦ Memᴰ.tail (rest.1 (inr n))
                ]
              ],
            )
    ]

-- When the regions of an address space have sizes above 0, end below 2 ^ 64 and do not overlap,
-- and a region of that kind which overlaps none of them is added, the same holds again. A lookup
-- then finds a region exactly if it is the new one and has the address, or the lookup found it
-- before.
pub find_region-add_region :
    (s : AddressSpace) (r : AddressSpaceRegion)
    → Ordered s.regions
    → Fits r
    → ((x : AddressSpaceRegion) → Memᴰ x s.regions → Apart r x)
    → Ordered (add_region s r).regions
      × ((address : ℕ) (x : AddressSpaceRegion)
          → (find_region (add_region s r) address ≡ some x)
            ↔ (((x ≡ r) × Contains r address) ⊎ (find_region s address ≡ some x)))
unfolding add_region
find_region-add_region s r ordered fits apart =
    let ordered' : Ordered (insert r s.regions) = insert-Ordered r s.regions fits ordered apart in
    (
      ordered',
      λ address x.
          let members =
            member-insert r x s.regions
              (λ y m. bases_differ r y fits (member-Fits y s.regions ordered m) (apart y m)) in
          let found = find_region_iff (add_region s r) address x ordered' in
          let old = find_region_iff s address x ordered in
          (
            λ h. elim (members.0 ((found.0 h).0)) [
              | inl e ↦ inl (e, subst (λ y. Contains y address) e ((found.0 h).1))
              | inr m ↦ inr (old.1 (m, (found.0 h).1))
            ],
            λ o. elim o [
              | inl (e, c) ↦ found.1 (members.1 (inl e), subst (λ y. Contains y address) (sym e) c)
              | inr h ↦ found.1 (members.1 (inr ((old.0 h).0)), (old.0 h).1)
            ],
          ),
    )
