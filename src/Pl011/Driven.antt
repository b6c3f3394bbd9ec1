-- ===== src/Pl011/Driven.antt =====
-- The interrupt line follows the status and the mask, and how a write changes them.
use icewind.Common.{
  ℕ, ◌-◌, ◌<◌, bit_and, bit_or, min, ◌≡◌, ◌≢◌, refl, ◌∙◌, ap, List, [], ◌∷◌, not, ◌⊎◌, inl, inr,
  arith, Returns, Returns-bind, bit, complement, from_le_bytes32, true, ==_of_ne,
}
use icewind.Common.Bits.{bit-and, bit-or, bit-complement}
use icewind.Devices.{IrqController, drive, drive_lem}
use icewind.Pl011.Defs.{
  Pl011, is_asserted, update_irq, write, write_data, write_baud, write_fractional,
  write_line_control, write_control, write_ifl, write_mask, write_clear, from_src16, from_src,
  first, irq_txintr,
}

-- The writes that the device takes: each register with the number of bytes that its arm unwraps.
pub data IsWrite : ℕ → List ℕ → Type 0 where
  character : {offset : ℕ} (c : ℕ) (rest : List ℕ) → offset ≡ 0x000 → IsWrite offset (c ∷ rest)
  ignored : {offset : ℕ} (src : List ℕ) → offset ≡ 0x004 → IsWrite offset src
  half_word :
      {offset : ℕ} (a b : ℕ)
      → (offset ≡ 0x024)
        ⊎ (offset ≡ 0x028)
        ⊎ (offset ≡ 0x02c)
        ⊎ (offset ≡ 0x030)
        ⊎ (offset ≡ 0x034)
        ⊎ (offset ≡ 0x038)
        ⊎ (offset ≡ 0x044)
      → IsWrite offset (a ∷ b ∷ [])
  word : {offset : ℕ} (a b c d : ℕ) → offset ≡ 0x044 → IsWrite offset (a ∷ b ∷ c ∷ d ∷ [])

module _ (I : IrqController) where
  open I use {State, IsReady, lines, level}

  -- The level of the device's line says whether an interrupt that is not masked is asserted.
  pub record IsDriven (p : Pl011 I) : Type 0 where
    pub ready : IsReady p.controller
    pub in_range : p.irq_line < lines
    pub driven : level p.controller p.irq_line ≡ is_asserted I p

  -- `p'` is driven, and no other line has changed its level since `p`.
  pub record Follows (p p' : Pl011 I) : Type 0 where
    pub is_driven : IsDriven p'
    pub same_line : p'.irq_line ≡ p.irq_line
    pub others : (j : ℕ) → j ≢ p.irq_line → level p'.controller j ≡ level p.controller j

  module _ (p : Pl011 I) (d : IsDriven p) where
    -- `q` has the line and the controller of `p`.
    update_irq-Follows :
        (q : Pl011 I)
        → q.controller ≡ p.controller
        → q.irq_line ≡ p.irq_line
        → Returns (update_irq I q) (Follows p)
    unfolding update_irq
    update_irq-Follows q same_controller same_line =
        Returns-bind (drive I (is_asserted I q) q.controller q.irq_line) _ _ (Follows p)
          (drive_lem I (is_asserted I q) q.controller q.irq_line (rw same_controller d.ready)
            (rw same_line d.in_range))
          λ s (ready, set_now, others). record {
            is_driven = record {
              ready = ready;
              in_range = rw same_line d.in_range;
              driven = set_now;
            };
            same_line = same_line;
            others =
                λ j ne. others j (λ e. ne (e ∙ same_line)) ∙ ap (λ s. level s j) same_controller;
          }

    -- Moreover `q` has its status and mask.
    kept-Follows :
        (q : Pl011 I)
        → q.controller ≡ p.controller
        → q.irq_line ≡ p.irq_line
        → is_asserted I q ≡ is_asserted I p
        → Follows p q
    kept-Follows q same_controller same_line same_irq = record {
      is_driven = record {
        ready = rw same_controller d.ready;
        in_range = rw same_line d.in_range;
        driven = rw (same_controller, same_line, same_irq) d.driven;
      };
      same_line = same_line;
      others = λ j ne. ap (λ s. level s j) same_controller;
    }

    -- For a serial port whose line follows its status, every write that the device takes
    -- returns, its line then has the level that the new status and mask ask for, and no other
    -- line of the controller has changed its level.
    pub write-Follows :
        (offset : ℕ) (src : List ℕ)
        → IsWrite offset src
        → Returns (write I p offset src) (Follows p)
    unfolding write write_data first from_src16 from_src write_baud write_fractional
        write_line_control write_control write_ifl write_mask write_clear
    write-Follows offset src (character c rest e) = rw e (update_irq-Follows _ refl refl)
    write-Follows offset src (ignored _ e) = rw e (kept-Follows p refl refl refl)
    write-Follows offset src (half_word a b (inl e)) = rw e (kept-Follows _ refl refl refl)
    write-Follows offset src (half_word a b (inr (inl e))) = rw e (kept-Follows _ refl refl refl)
    write-Follows offset src (half_word a b (inr (inr (inl e)))) =
        rw e (kept-Follows _ refl refl refl)
    write-Follows offset src (half_word a b (inr (inr (inr (inl e))))) =
        rw e (kept-Follows _ refl refl refl)
    write-Follows offset src (half_word a b (inr (inr (inr (inr (inl e)))))) =
        rw e (update_irq-Follows _ refl refl)
    write-Follows offset src (half_word a b (inr (inr (inr (inr (inr (inl e))))))) =
        rw e (update_irq-Follows _ refl refl)
    write-Follows offset src (half_word a b (inr (inr (inr (inr (inr (inr e))))))) =
        rw e (update_irq-Follows _ refl refl)
    write-Follows offset src (word a b c d' e) = rw e (update_irq-Follows _ refl refl)

  -- For a serial port whose line follows its status, with the transmit interrupt unmasked, a
  -- write of a character to the data register returns, the character is printed, and the line of
  -- the port is high.
  pub write-transmit :
      (p : Pl011 I) (c : ℕ) (rest : List ℕ)
      → IsDriven p
      → bit p.irq_mask 5 ≡ 1
      → Returns
          (write I p 0x000 (c ∷ rest))
          (λ p'. (level p'.controller p.irq_line ≡ true) × (p'.printed ≡ c ∷ p.printed))
  unfolding write write_data first update_irq
  write-transmit p c rest d unmasked =
      Returns-bind (drive I (is_asserted I q) p.controller p.irq_line) _ _ _
        (drive_lem I (is_asserted I q) p.controller p.irq_line d.ready d.in_range)
        λ s (ready, set_now, others). (set_now ∙ asserted, refl)
    where
      q : Pl011 I
      q = record p { printed = c ∷ p.printed; irq_status = bit_or p.irq_status irq_txintr }

      irqs : ℕ
      irqs = bit_and (bit_or p.irq_status irq_txintr) p.irq_mask

      transmit : bit irqs 5 ≡ 1
      transmit = omega (
        arith,
        bit-and (bit_or p.irq_status irq_txintr) p.irq_mask 5,
        bit-or p.irq_status irq_txintr 5,
        unmasked,
      )

      asserted : is_asserted I q ≡ true
      asserted = ap not (==_of_ne irqs 0 (λ e. omega (arith, transmit, ap (λ x. bit x 5) e)))

  -- For a serial port whose line follows its status, a write of four bytes to the interrupt
  -- clear register returns and clears each of the 32 status bits that is one in the value, and
  -- keeps the others.
  pub write-clear_bits :
      (p : Pl011 I) (a b c e i : ℕ)
      → IsDriven p
      → a < 256
      → b < 256
      → c < 256
      → e < 256
      → i < 32
      → Returns (write I p 0x044 (a ∷ b ∷ c ∷ e ∷ [])) (λ p'.
        bit p'.irq_status i ≡ min (bit p.irq_status i) (1 - bit (from_le_bytes32 a b c e) i))
  unfolding write write_clear from_src update_irq
  write-clear_bits p a b c e i d ha hb hc he hi =
      Returns-bind (drive I (is_asserted I q) p.controller p.irq_line) _ _ _
        (drive_lem I (is_asserted I q) p.controller p.irq_line d.ready d.in_range)
        λ s _.
          bit-and p.irq_status (complement 32 (from_le_bytes32 a b c e)) i
          ∙ ap (min (bit p.irq_status i))
              (bit-complement 32 (from_le_bytes32 a b c e) i (omega arith) hi)
    where
      q : Pl011 I
      q = record p { irq_status = bit_and p.irq_status (complement 32 (from_le_bytes32 a b c e)) }
