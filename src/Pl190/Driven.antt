-- ===== src/Pl190/Driven.antt =====
-- The two interrupt lines follow the status registers and the mask of the served priority.
use icewind.Common.{
  ℕ, ◌≤◌, ◌<◌, List, [], ◌∷◌, ◌≡◌, ◌≢◌, ◌∙◌, ◌⊎◌, inl, inr, refl, sym, ap, length, set, get_elem?,
  get_elem?_total, some, arith, lt→ltb, ltb→lt, ltb, Bool-cases, length-set, Returns, Returns-bind,
  Returns-map,
}
use mathlib.Core.Option.{some_inj}
use icewind.Devices.{IrqController, drive, drive_lem}
use icewind.Pl190.Defs.{
  Pl190, get_irq_status, get_fiq_status, is_wanted, update_lines, update_vectors, store_masks,
  write, write_register, write_var, write_register,
}
use icewind.Pl190.Vectors.{Covers, AreStored, store_masks-AreStored, Covers-none, all_masks}

-- The arrays have their sizes and every priority is at most 17.
pub record IsShaped (priority : ℕ) (previous masks addresses controls : List ℕ) : Type 0 where
  pub priority_le : priority ≤ 17
  pub length_previous : length previous ≡ 17
  pub previous_le : (i v : ℕ) → get_elem? previous i ≡ some v → v ≤ 17
  pub length_masks : length masks ≡ 18
  pub length_addresses : length addresses ≡ 16
  pub length_controls : length controls ≡ 16

pub reshape :
    {priority priority' : ℕ} {previous previous' masks masks' addresses controls : List ℕ}
    → IsShaped priority previous masks addresses controls
    → priority' ≤ 17
    → length previous' ≡ 17
    → ((i v : ℕ) → get_elem? previous' i ≡ some v → v ≤ 17)
    → length masks' ≡ 18
    → IsShaped priority' previous' masks' addresses controls
reshape shape priority_le length_previous previous_le length_masks = record {
  priority_le = priority_le;
  length_previous = length_previous;
  previous_le = previous_le;
  length_masks = length_masks;
  length_addresses = shape.length_addresses;
  length_controls = shape.length_controls;
}

-- The registers that a write may change.
pub data IsRegister : ℕ → Type 0 where
  status : {offset : ℕ} → (offset ≡ 0x000) ⊎ (offset ≡ 0x004) ⊎ (offset ≡ 0x008) → IsRegister offset
  select : {offset : ℕ} → offset ≡ 0x00c → IsRegister offset
  enable : {offset : ℕ} → (offset ≡ 0x010) ⊎ (offset ≡ 0x014) → IsRegister offset
  soft : {offset : ℕ} → (offset ≡ 0x018) ⊎ (offset ≡ 0x01c) → IsRegister offset
  vector : {offset : ℕ} → (offset ≡ 0x030) ⊎ (offset ≡ 0x034) → IsRegister offset

module _ (I : IrqController) where
  open I use {State, IsReady, lines, level}

  -- The device has two lines of a controller that is ready.
  pub record IsConnected (irq fiq : ℕ) (s : State) : Type 0 where
    pub ready : IsReady s
    pub irq_lt : irq < lines
    pub fiq_lt : fiq < lines
    pub apart : irq ≢ fiq

  abbrev pub IsWired : Pl190 I → Type 0
  IsWired p =
      IsShaped p.priority p.prev_priority p.prio_mask p.vector_addrs p.vector_controls
      × IsConnected p.irq_line p.fiq_line p.controller

  -- A line is high exactly if a pending interrupt of its kind is in the served priority's mask.
  pub record IsDriven (p : Pl190 I) : Type 0 where
    pub wired : IsWired p
    pub lines_follow :
        {m : ℕ}
        → get_elem? p.prio_mask p.priority ≡ some m
        → (level p.controller p.irq_line ≡ is_wanted I (get_irq_status I p) m)
          × (level p.controller p.fiq_line ≡ is_wanted I (get_fiq_status I p) m)

  -- `p'` is driven and differs from `p` in the controller only, there in the two lines only.
  pub record IsRefreshed (p p' : Pl190 I) : Type 0 where
    pub driven : IsDriven p'
    pub same : p' ≡ record p { controller = p'.controller }
    pub others :
        (j : ℕ) → j ≢ p.irq_line → j ≢ p.fiq_line → level p'.controller j ≡ level p.controller j

  pub update_lines-IsRefreshed :
      (p : Pl190 I) → IsWired p → Returns (update_lines I p) (IsRefreshed p)
  unfolding update_lines
  update_lines-IsRefreshed p w =
      let (mask, at) =
        get_elem?_total p.prio_mask p.priority (omega (arith, w.0.length_masks, w.0.priority_le)) in
      rw at (
        Returns-bind (drive I (is_wanted I (get_irq_status I p) mask) p.controller p.irq_line) _ _
          (IsRefreshed p)
          (drive_lem I (is_wanted I (get_irq_status I p) mask) p.controller p.irq_line w.1.ready
            w.1.irq_lt)
          (λ s (ready, irq_now, irq_others).
            Returns-bind (drive I (is_wanted I (get_fiq_status I p) mask) s p.fiq_line) _ _
              (IsRefreshed p)
              (drive_lem I (is_wanted I (get_fiq_status I p) mask) s p.fiq_line ready w.1.fiq_lt)
              (λ s' (ready', fiq_now, fiq_others). record {
                driven = record {
                  wired = (
                    w.0,
                    record {
                      ready = ready';
                      irq_lt = w.1.irq_lt;
                      fiq_lt = w.1.fiq_lt;
                      apart = w.1.apart;
                    },
                  );
                  lines_follow = λ {m} e.
                      let same : mask ≡ m = some_inj.0 (sym at ∙ e) in
                      (
                        fiq_others p.irq_line w.1.apart
                            ∙ irq_now
                            ∙ ap (is_wanted I (get_irq_status I p)) same,
                        fiq_now ∙ ap (is_wanted I (get_fiq_status I p)) same,
                      );
                };
                same = refl;
                others = λ j ne_irq ne_fiq. fiq_others j ne_fiq ∙ irq_others j ne_irq;
              })))

  refresh : (p : Pl190 I) → IsWired p → Returns (update_lines I p) IsDriven
  refresh p w =
      Returns-map (update_lines I p) (IsRefreshed p) IsDriven (λ p' h. h.driven)
        (update_lines-IsRefreshed p w)

  -- For a well-formed device `update_vectors` returns, both lines follow the status, and the
  -- priority mask at each place up to 16 has exactly the lines of the enabled vectors before
  -- that place.
  pub update_vectors-Covers :
      (p : Pl190 I)
      → IsWired p
      → Returns (update_vectors I p) (λ p'.
        IsDriven p'
        × ((j : ℕ)
            → j ≤ 16
            → (m : ℕ) × (get_elem? p'.prio_mask j ≡ some m) × Covers p.vector_controls j m))
  unfolding update_vectors
  update_vectors-Covers p w =
      Returns-bind (store_masks 16 0 0 p.vector_controls p.prio_mask) _
        (AreStored p.vector_controls p.prio_mask 0 16) _
        (store_masks-AreStored 16 0 0 p.vector_controls p.prio_mask
          (omega (arith, w.0.length_controls)) (omega (arith, w.0.length_masks))
          (Covers-none p.vector_controls))
        (λ out h.
          let size : length out.0 ≡ 18 = h.same_length ∙ w.0.length_masks in
          let inside = lt→ltb 16 (length out.0) (omega (arith, size)) in
          let masks = set out.0 16 out.1 in
          let shape : IsShaped p.priority p.prev_priority masks p.vector_addrs p.vector_controls =
            reshape w.0 w.0.priority_le w.0.length_previous w.0.previous_le
              (length-set out.0 16 out.1 ∙ size) in
          rw inside (
            Returns-map (update_lines I (record p { prio_mask = masks }))
              (IsRefreshed (record p { prio_mask = masks })) _
              (λ p' done. (
                done.driven,
                λ j le.
                    let kept : p'.prio_mask ≡ masks = ap (λ q. q.prio_mask) done.same in
                    let (m, stands, covers) =
                      all_masks p.vector_controls p.prio_mask out h size j le in
                    (m, ap (λ xs. get_elem? xs j) kept ∙ stands, covers),
              ))
              (update_lines-IsRefreshed (record p { prio_mask = masks }) (shape, w.1))))

  pub write_var-IsDriven : (p : Pl190 I) → IsDriven p → Returns (write_var I p) IsDriven
  unfolding write_var
  write_var-IsDriven p d =
      let w = d.wired in
      elim (Bool-cases (ltb p.priority 17)) [
        | inr idle ↦ rw idle (refresh p w)
        | inl served ↦
            let (v, at) =
              get_elem?_total p.prev_priority p.priority
                (omega (arith, ltb→lt p.priority 17 served, w.0.length_previous)) in
            rw (served, at)
              (refresh (record p { priority = v })
                (
                  reshape w.0 (w.0.previous_le p.priority v at) w.0.length_previous w.0.previous_le
                      w.0.length_masks,
                  w.1,
                ))
      ]

  -- For a device whose two lines follow its status, a write of four bytes to any register that
  -- it has returns, and both lines follow the status again.
  pub write-IsDriven :
      (p : Pl190 I) (offset a b c e : ℕ)
      → IsDriven p
      → IsRegister offset
      → Returns (write I p offset (a ∷ b ∷ c ∷ e ∷ [])) IsDriven
  unfolding write write_register
  write-IsDriven p offset a b c e d (status (inl h)) = rw h (refresh p d.wired)
  write-IsDriven p offset a b c e d (status (inr (inl h))) = rw h (refresh p d.wired)
  write-IsDriven p offset a b c e d (status (inr (inr h))) = rw h (refresh p d.wired)
  write-IsDriven p offset a b c e d (select h) = rw h (refresh _ d.wired)
  write-IsDriven p offset a b c e d (enable (inl h)) = rw h (refresh _ d.wired)
  write-IsDriven p offset a b c e d (enable (inr h)) = rw h (refresh _ d.wired)
  write-IsDriven p offset a b c e d (soft (inl h)) = rw h (refresh _ d.wired)
  write-IsDriven p offset a b c e d (soft (inr h)) = rw h (refresh _ d.wired)
  write-IsDriven p offset a b c e d (vector (inl h)) = rw h (write_var-IsDriven p d)
  write-IsDriven p offset a b c e d (vector (inr h)) =
      rw h (record { wired = d.wired; lines_follow = d.lines_follow })
