-- ===== src/Memory/Tests.antt =====
-- Memory and a serial port in the guest, and a small buffer for blocks.
use icewind.Common.{ℕ, ◌+◌, ◌<◌, ◌≡◌, ◌↔◌, ◌⊎◌, refl, arith, [], ◌∷◌, none, some}
use icewind.Memory.AddressSpace.{
  AddressSpaceRegion, ram, io, new, insert, add_region, find_region, upper_bound,
}
use icewind.Memory.Regions.{Ordered, Contains, find_region-add_region}
use icewind.Memory.Bump.{Layout, BumpAllocator, Block, allocate, allocate_all}
use icewind.Memory.Allocations.{Packed, AreLayouts, IsLayout, allocate_all-Packed_room}

abbrev main : AddressSpaceRegion
main = record { name = 0; base = 0x40000000; size = 0x10000000; kind = ram }

abbrev serial : AddressSpaceRegion
serial = record { name = 1; base = 0x9000000; size = 0x1000; kind = io 7 }

find_region-add_region_example :
    Ordered (add_region new serial).regions
    × ((address : ℕ) (x : AddressSpaceRegion)
        → (find_region (add_region new serial) address ≡ some x)
          ↔ (((x ≡ serial) × Contains serial address) ⊎ (find_region new address ≡ some x)))
unfolding new Ordered
find_region-add_region_example =
    find_region-add_region new serial tt (omega arith, omega arith) (λ x m. elim m [ ])

finds_serial : find_region (add_region (add_region new main) serial) 0x9000018 ≡ some serial
unfolding find_region add_region new insert upper_bound
finds_serial = refl

finds_nothing : find_region (add_region (add_region new main) serial) 0x9001000 ≡ none
unfolding find_region add_region new insert upper_bound
finds_nothing = refl

abbrev small : BumpAllocator
small = record { data_len = 64; position = 3 }

abbrev word : Layout
word = record { size = 8; align = 8 }

allocate_all-Packed_room_example :
    Packed 3 64 (allocate_all small (word ∷ word ∷ []))
    × ((l : Layout)
        → IsLayout l
        → 3 + l.align + l.size < 64
        → (place : Block × BumpAllocator) × (allocate small l ≡ some place))
unfolding AreLayouts
allocate_all-Packed_room_example =
    allocate_all-Packed_room small (word ∷ word ∷ []) (omega arith) (omega arith)
      ((omega arith, omega arith), ((omega arith, omega arith), tt))

-- A position that is a multiple already is moved on by a whole alignment.
skips :
    allocate (record { data_len = 64; position = 8 }) word
    ≡ some (record { start = 16; layout = word }, record { data_len = 64; position = 24 })
unfolding allocate
skips = refl
