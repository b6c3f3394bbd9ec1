-- ===== src/Memory/Allocations.antt =====
-- Blocks of the bump allocator are aligned, lie in the buffer and do not overlap.
use icewind.Common.{
  ℕ, ◌+◌, ◌-◌, ◌*◌, ◌%◌, ◌/◌, ◌≤◌, ◌<◌, ◌^◌, ◌≡◌, refl, sym, ap, ◌∙◌, arith, leb, leb→lt, u64,
  Bool-cases, inl, inr, Option, none, some, List, [], ◌∷◌, false, subst, lt→leb,
}
use native.Mathlib.Nat.{mod-lt, mod-add-div, mul-add-mod_self_left, mod_self}
use icewind.Memory.Bump.{Layout, BumpAllocator, Block, aligned, allocate, allocate_all}

-- What `Layout` promises: an alignment above 0, and a size that can be rounded up to it within
-- `isize::MAX`.
abbrev pub IsLayout : Layout → Type 0
IsLayout l = (0 < l.align) × (l.size + l.align ≤ 2 ^ 63)

unfoldable pub AreLayouts : List Layout → Type 0
AreLayouts [] = Unit
AreLayouts (l ∷ ls) = IsLayout l × AreLayouts ls

-- Each block starts at or after the end of the one before, at a multiple of its alignment, and the
-- last ends before `len`.
unfoldable pub Packed : ℕ → ℕ → List Block → Type 0
Packed from len [] = Unit
Packed from len (b ∷ bs) =
    (from ≤ b.start)
    × (b.start % b.layout.align ≡ 0)
    × (b.start + b.layout.size < len)
    × Packed (b.start + b.layout.size) len bs

next_multiple : (p a : ℕ) → 0 < a → (p + (a - p % a)) % a ≡ 0
next_multiple p a h =
    let whole : p + (a - p % a) ≡ a * (p / a) + a = omega (arith, mod-lt p h, mod-add-div p a) in
    ap (λ y. y % a) whole ∙ mul-add-mod_self_left a (p / a) a ∙ mod_self a

-- no place wraps around
no_wrap :
    (b : BumpAllocator) (l : Layout)
    → b.data_len < 2 ^ 63
    → b.position ≤ b.data_len
    → IsLayout l
    → (aligned b l ≡ b.position + (l.align - b.position % l.align))
      × (u64 (aligned b l + l.size) ≡ aligned b l + l.size)
no_wrap b l hlen hpos hl =
    let below : b.position % l.align < l.align = mod-lt b.position (hl.0) in
    let small : b.position + (l.align - b.position % l.align) + l.size < 2 ^ 64 =
      omega (arith, hlen, hpos, hl.1) in
    let same : aligned b l ≡ b.position + (l.align - b.position % l.align) = omega (arith, small) in
    (same, omega (arith, same, small))

allocate_all-Packed :
    (b : BumpAllocator) (layouts : List Layout)
    → b.data_len < 2 ^ 63
    → b.position ≤ b.data_len
    → AreLayouts layouts
    → Packed b.position b.data_len (allocate_all b layouts)
unfolding allocate_all allocate Packed AreLayouts
allocate_all-Packed b [] hlen hpos hls = tt
allocate_all-Packed b (l ∷ ls) hlen hpos (hl, hls) =
    let places = no_wrap b l hlen hpos hl in
    let end : ℕ = u64 (aligned b l + l.size) in
    let further : Option (Block × BumpAllocator) → List Block =
      λ o. elim o [ none ↦ allocate_all b ls | some (block, b') ↦ block ∷ allocate_all b' ls ] in
    elim (Bool-cases (leb b.data_len end)) [
      | inl full ↦
          let failed : allocate b l ≡ none = rw full refl in
          subst (Packed b.position b.data_len) (sym (ap further failed))
            (allocate_all-Packed b ls hlen hpos hls)
      | inr free ↦
          let b' : BumpAllocator = record b { position = end } in
          let block : Block = record { start = aligned b l; layout = l } in
          let got : allocate b l ≡ some (block, b') = rw free refl in
          subst (Packed b.position b.data_len) (sym (ap further got)) (
            omega (arith, places.0),
            ap (λ y. y % l.align) (places.0) ∙ next_multiple b.position l.align (hl.0),
            omega (arith, places.1, leb→lt b.data_len end free),
            subst (λ p. Packed p b.data_len (allocate_all b' ls)) (places.1)
                (allocate_all-Packed b' ls hlen (omega (arith, leb→lt b.data_len end free)) hls),
          )
    ]

allocate_room :
    (b : BumpAllocator) (l : Layout)
    → b.data_len < 2 ^ 63
    → IsLayout l
    → b.position + l.align + l.size < b.data_len
    → (place : Block × BumpAllocator) × (allocate b l ≡ some place)
unfolding allocate
allocate_room b l hlen hl room =
    let places = no_wrap b l hlen (omega arith) hl in
    let end : ℕ = u64 (aligned b l + l.size) in
    let fits : leb b.data_len end ≡ false =
      lt→leb end b.data_len (omega (arith, places.0, places.1, room)) in
    ((record { start = aligned b l; layout = l }, record b { position = end }), rw fits refl)

-- For a buffer below 2 ^ 63 bytes, a position within it and any sequence of valid layouts: the
-- blocks that are handed out start at multiples of their alignments, each at or after the end of
-- the one before, and end inside the buffer. A valid layout with its size and one alignment to
-- spare before the end of the buffer does get a block.
pub allocate_all-Packed_room :
    (b : BumpAllocator) (layouts : List Layout)
    → b.data_len < 2 ^ 63
    → b.position ≤ b.data_len
    → AreLayouts layouts
    → Packed b.position b.data_len (allocate_all b layouts)
      × ((l : Layout)
          → IsLayout l
          → b.position + l.align + l.size < b.data_len
          → (place : Block × BumpAllocator) × (allocate b l ≡ some place))
allocate_all-Packed_room b layouts hlen hpos hls =
    (allocate_all-Packed b layouts hlen hpos hls, λ l hl room. allocate_room b l hlen hl room)
