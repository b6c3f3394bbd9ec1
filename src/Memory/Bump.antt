-- ===== src/Memory/Bump.antt =====
-- `BumpAllocator`: places in its buffer, from the position on.
use icewind.Common.{ℕ, ◌+◌, ◌-◌, ◌%◌, leb, if◌then◌else◌, u64, Option, none, some, List, [], ◌∷◌}

-- `core::alloc::Layout`
pub record Layout : Type 0 where
  pub size : ℕ
  pub align : ℕ

-- The buffer is known by its length.
pub record BumpAllocator : Type 0 where
  pub data_len : ℕ
  pub position : ℕ

-- the slice `data[start..start + layout.size()]` that a request got
pub record Block : Type 0 where
  pub start : ℕ
  pub layout : Layout

unfoldable pub new : ℕ → BumpAllocator
new len = record { data_len = len; position = 0 }

unfoldable pub clear : BumpAllocator → BumpAllocator
clear b = record b { position = 0 }

abbrev pub aligned : BumpAllocator → Layout → ℕ
aligned b layout = u64 (b.position + (layout.align - b.position % layout.align))

-- `none` is `AllocError`
unfoldable pub allocate : BumpAllocator → Layout → Option (Block × BumpAllocator)
allocate b layout =
    let next_position : ℕ = u64 (aligned b layout + layout.size) in
    if leb b.data_len next_position
    then none
    else some (
      record { start = aligned b layout; layout = layout },
      record b { position = next_position },
    )

-- The blocks that a sequence of requests gets; a request that fails gets none.
unfoldable pub allocate_all : BumpAllocator → List Layout → List Block
allocate_all b [] = []
allocate_all b (layout ∷ layouts) = elim (allocate b layout) [
  | none ↦ allocate_all b layouts
  | some (block, b') ↦ block ∷ allocate_all b' layouts
]
