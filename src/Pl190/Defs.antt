-- ===== src/Pl190/Defs.antt =====
-- `Pl190` and its methods.
use icewind.Common.{
  ℕ, zero, suc, ◌+◌, bit_and, bit_or, List, [], ◌∷◌, ltb, leb, ◌==◌, not, ◌&&◌, ◌||◌, if◌then◌else◌,
  Bool, length, set, replicate, Outcome, ok, panic, index, ◌>>=◌, ◌<<<◌, ◌>>>◌, complement,
  le_bytes32, from_le_bytes32,
}
use icewind.Devices.{IrqController, drive}

abbrev peripheral_id : ℕ
peripheral_id = 0x00041190

abbrev primecell_id : ℕ
primecell_id = 0xb105f00d

-- `xs[i].store(v)`
abbrev pub store : List ℕ → ℕ → ℕ → Outcome (List ℕ)
store xs i v = if ltb i (length xs) then ok (set xs i v) else panic

-- The loop of `update_vectors` from the vector `i` on: the masks it stores, and the mask it ends with.
unfoldable pub store_masks : ℕ → ℕ → ℕ → List ℕ → List ℕ → Outcome (List ℕ × ℕ)
store_masks zero i mask controls masks = ok (masks, mask)
store_masks (suc n) i mask controls masks = do
  stored ← store masks i mask
  control ← index controls i
  store_masks n (i + 1)
      (if bit_and control 0x20 == 0 then mask else bit_or mask (1 <<< bit_and control 0x1f))
      controls stored

-- The loop of `read_var`: the first of `n` vectors from `i` on whose successor's mask has a line
-- of `status`, or 0.
unfoldable pub find_vector : ℕ → ℕ → ℕ → List ℕ → Outcome ℕ
find_vector zero i status masks = ok 0
find_vector (suc n) i status masks = do
  mask ← index masks (i + 1)
  let rest = find_vector n (i + 1) status masks in if bit_and status mask == 0 then rest else ok i

module _ (I : IrqController) where
  open I use {State}

  pub record Pl190 : Type 0 where
    pub irq_status : ℕ  -- u32
    pub soft_status : ℕ  -- u32
    pub mask : ℕ  -- u32
    pub fiq_select : ℕ  -- u32
    pub default_vector_address : ℕ  -- u32
    pub priority : ℕ
    pub prev_priority : List ℕ  -- [usize; 17]
    pub prio_mask : List ℕ  -- [u32; 18]
    pub vector_addrs : List ℕ  -- [u32; 16]
    pub vector_controls : List ℕ  -- [u8; 16]
    pub irq_line : ℕ
    pub fiq_line : ℕ
    pub controller : State

  abbrev pub raw_status : Pl190 → ℕ
  raw_status p = bit_or p.irq_status p.soft_status

  abbrev pub get_irq_status : Pl190 → ℕ
  get_irq_status p = bit_and (bit_and (raw_status p) p.mask) (complement 32 p.fiq_select)

  abbrev pub get_fiq_status : Pl190 → ℕ
  get_fiq_status p = bit_and (bit_and (raw_status p) p.mask) p.fiq_select

  -- `status & prio_mask[priority] != 0`
  abbrev pub is_wanted : ℕ → ℕ → Bool
  is_wanted status mask = not (bit_and status mask == 0)

  unfoldable pub update_lines : Pl190 → Outcome Pl190
  update_lines p = do
    mask ← index p.prio_mask p.priority
    with_irq ← drive I (is_wanted (get_irq_status p) mask) p.controller p.irq_line
    with_fiq ← drive I (is_wanted (get_fiq_status p) mask) with_irq p.fiq_line
    ok (record p { controller = with_fiq })

  unfoldable pub update_vectors : Pl190 → Outcome Pl190
  update_vectors p = do
    (masks, mask) ← store_masks 16 0 0 p.vector_controls p.prio_mask
    stored ← store masks 16 mask
    update_lines (record p { prio_mask = stored })

  unfoldable pub new : ℕ → ℕ → State → Outcome Pl190
  new irq_line fiq_line controller = update_vectors (record {
    irq_status = 0;
    soft_status = 0;
    mask = 0;
    fiq_select = 0;
    default_vector_address = 0;
    priority = 17;
    prev_priority = replicate 17 0;
    prio_mask = set (replicate 18 0) 17 0xffffffff;
    vector_addrs = replicate 16 0;
    vector_controls = replicate 16 0;
    irq_line = irq_line;
    fiq_line = fiq_line;
    controller = controller;
  })

  -- the second half of `read_var`, once the loop has left `vector` in `index`
  unfoldable pub enter : Pl190 → ℕ → Outcome Pl190
  enter p vector =
      if ltb vector p.priority
      then (do
        previous ← store p.prev_priority vector p.priority
        update_lines (record p { prev_priority = previous; priority = vector }))
      else ok p

  unfoldable pub read_var : Pl190 → Outcome (Pl190 × ℕ)
  read_var p = do
    vector ← find_vector p.priority 0 (raw_status p) p.prio_mask
    if vector == 17 then ok (p, p.default_vector_address) else (do
      entered ← enter p vector
      address ← index entered.vector_addrs entered.priority
      ok (entered, address))

  unfoldable pub write_var : Pl190 → Outcome Pl190
  write_var p =
      if ltb p.priority 17
      then (do
        previous ← index p.prev_priority p.priority
        update_lines (record p { priority = previous }))
      else update_lines p

  unfoldable pub response : Pl190 → ℕ → Outcome (Pl190 × ℕ)
  response p offset =
      if offset == 0x000
      then ok (p, get_irq_status p)
      else if offset == 0x004
      then ok (p, get_fiq_status p)
      else if offset == 0x008
      then ok (p, raw_status p)
      else if offset == 0x00c
      then ok (p, p.fiq_select)
      else if offset == 0x010
      then ok (p, p.mask)
      else if offset == 0x018
      then ok (p, p.soft_status)
      else if offset == 0x024
      then ok (p, 0)
      else if offset == 0x030
      then read_var p
      else if offset == 0x034
      then ok (p, p.default_vector_address)
      else if leb 0x100 offset && leb offset 0x1ff
      then panic
      else if leb 0x200 offset && leb offset 0xfdf
      then panic
      else if offset == 0xfec
      then ok (p, peripheral_id >>> 24)
      else if offset == 0xfe8
      then ok (p, peripheral_id >>> 16)
      else if offset == 0xfe4
      then ok (p, peripheral_id >>> 8)
      else if offset == 0xfe0
      then ok (p, peripheral_id)
      else if offset == 0xffc
      then ok (p, primecell_id >>> 24)
      else if offset == 0xff8
      then ok (p, primecell_id >>> 16)
      else if offset == 0xff4
      then ok (p, primecell_id >>> 8)
      else if offset == 0xff0
      then ok (p, primecell_id)
      else panic

  -- the bytes left in `value`, a slice that has to have four of them
  unfoldable pub read : Pl190 → ℕ → List ℕ → Outcome (Pl190 × List ℕ)
  read p offset value = do
    (after, word) ← response p offset
    if length value == 4 then ok (after, le_bytes32 word) else panic

  unfoldable pub write_register : Pl190 → ℕ → ℕ → Outcome Pl190
  write_register p offset word =
      if offset == 0x000 || offset == 0x004 || offset == 0x008
      then update_lines p
      else if offset == 0x00c
      then update_lines (record p { fiq_select = word })
      else if offset == 0x010
      then update_lines (record p { mask = bit_or p.mask word })
      else if offset == 0x014
      then update_lines (record p { mask = bit_and p.mask (complement 32 word) })
      else if offset == 0x018
      then update_lines (record p { soft_status = bit_or p.soft_status word })
      else if offset == 0x01c
      then update_lines (record p { soft_status = bit_and p.soft_status (complement 32 word) })
      else if offset == 0x030
      then write_var p
      else if offset == 0x034
      then ok (record p { default_vector_address = word })
      else panic

  unfoldable pub write : Pl190 → ℕ → List ℕ → Outcome Pl190
  write p offset (a ∷ b ∷ c ∷ d ∷ []) = write_register p offset (from_le_bytes32 a b c d)
  write p offset _ = panic
