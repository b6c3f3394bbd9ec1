-- ===== src/Interpreter/RegisterFile.antt =====
-- The bytes of the register file, written and read at an offset.
use icewind.Common.{
  ℕ, zero, suc, ◌+◌, ◌-◌, ◌*◌, ◌/◌, ◌%◌, ◌^◌, List, [], ◌∷◌, ltb, leb, ◌&&◌, if◌then◌else◌,
  get_elem?, Outcome, ok, panic, ◌>>◌, none, some,
}

-- `registers` is left out: names are resolved before. `register_offsets` is sorted.
pub record RegisterFile : Type 0 where
  pub size : ℕ
  pub inner : ℕ → ℕ
  pub register_offsets : List ℕ

-- the place at which `binary_search` finds `offset`, or would insert it
unfoldable pub search_place : ℕ → List ℕ → ℕ
search_place offset [] = 0
search_place offset (o ∷ os) =
    let rest : ℕ = search_place offset os in if ltb o offset then 1 + rest else 0

-- a value of `size` bytes may stand at `offset`
unfoldable pub validate_range : RegisterFile → ℕ → ℕ → Outcome (Unit {0})
validate_range f size offset =
    elim (get_elem? f.register_offsets (search_place offset f.register_offsets + 1)) [
      | none ↦ ok tt
      | some end ↦ if ltb end (offset + size) then panic else ok tt
    ]

-- the slice `inner[offset..offset + size]` is there
unfoldable pub in_bounds : RegisterFile → ℕ → ℕ → Outcome (Unit {0})
in_bounds f size offset = if leb (offset + size) f.size then ok tt else panic

-- the low `size` bytes of `value`, the lowest one first
unfoldable pub put : (ℕ → ℕ) → ℕ → ℕ → ℕ → ℕ → ℕ
put inner size offset value i =
    if leb offset i && ltb i (offset + size)
    then value / 2 ^ (8 * (i - offset)) % 2 ^ 8
    else inner i

unfoldable pub get : (ℕ → ℕ) → ℕ → ℕ → ℕ
get inner zero offset = 0
get inner (suc n) offset = inner offset + 2 ^ 8 * get inner n (offset + 1)

unfoldable pub write_raw : RegisterFile → ℕ → ℕ → ℕ → Outcome RegisterFile
write_raw f size offset value = do
  validate_range f size offset
  in_bounds f size offset
  ok (record f { inner = put f.inner size offset value })

unfoldable pub read_raw : RegisterFile → ℕ → ℕ → Outcome ℕ
read_raw f size offset = do
  validate_range f size offset
  in_bounds f size offset
  ok (get f.inner size offset)
