-- ===== src/Memory/AddressSpace.antt =====
-- `AddressSpace`: the regions in the order of their bases, as the `BTreeMap` keeps them.
use icewind.Common.{
  ℕ, ◌+◌, List, [], ◌∷◌, ltb, leb, ◌==◌, ◌&&◌, if◌then◌else◌, u64, Option, none, some,
}

-- `IO` holds the number of its device
pub data AddressSpaceRegionKind : Type 0 where
  ram : AddressSpaceRegionKind
  io : ℕ → AddressSpaceRegionKind

pub record AddressSpaceRegion : Type 0 where
  pub name : ℕ  -- interned
  pub base : ℕ  -- u64
  pub size : ℕ  -- u64
  pub kind : AddressSpaceRegionKind

pub record AddressSpace : Type 0 where
  pub regions : List AddressSpaceRegion

unfoldable pub new : AddressSpace
new = record { regions = [] }

-- `BTreeMap::insert` under the base of the region, which replaces a region of the same base
unfoldable pub insert : AddressSpaceRegion → List AddressSpaceRegion → List AddressSpaceRegion
insert region [] = region ∷ []
insert region (r ∷ rs) =
    let rest : List AddressSpaceRegion = insert region rs in
    if ltb region.base r.base
    then region ∷ r ∷ rs
    else if region.base == r.base
    then region ∷ rs
    else r ∷ rest

unfoldable pub add_region : AddressSpace → AddressSpaceRegion → AddressSpace
add_region s region = record { regions = insert region s.regions }

-- `upper_bound(Included(&address)).prev()`: the last region whose base is not above `address`
unfoldable pub upper_bound : ℕ → List AddressSpaceRegion → Option AddressSpaceRegion
upper_bound address [] = none
upper_bound address (r ∷ rs) =
    let rest : Option AddressSpaceRegion = upper_bound address rs in
    if leb r.base address then elim rest [ none ↦ some r | some last ↦ some last ] else none

unfoldable pub find_region : AddressSpace → ℕ → Option AddressSpaceRegion
find_region s address = elim (upper_bound address s.regions) [
  | none ↦ none
  | some candidate ↦
      if leb candidate.base address && ltb address (u64 (candidate.base + candidate.size))
      then some candidate
      else none
]
