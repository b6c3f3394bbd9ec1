-- ===== src/Pl011/Defs.antt =====
-- `Pl011` and its methods. `dst` and `src` are the byte slices of the Rust code.
use icewind.Common.{
  ℕ, ◌+◌, ◌*◌, ◌/◌, ◌%◌, bit_and, bit_or, List, [], ◌∷◌, ◌++◌, leb, ◌==◌, not, if◌then◌else◌,
  length, drop, replicate, Outcome, ok, panic, ◌>>=◌, u16, ◌<<<◌, complement, le_bytes32,
  from_le_bytes32, Bool,
}
use icewind.Devices.{IrqController, drive}

abbrev pub irq_txintr : ℕ
irq_txintr = 1 <<< 5

-- `u16::to_le_bytes`
abbrev pub le_bytes16 : ℕ → List ℕ
le_bytes16 n = n % 256 ∷ (n / 256 % 256) ∷ []

-- `dst[..n].copy_from_slice(bytes)` for the n bytes given
abbrev pub copy_front : List ℕ → List ℕ → Outcome (List ℕ)
copy_front bytes dst =
    if leb (length bytes) (length dst) then ok (bytes ++ drop (length bytes) dst) else panic

-- `u16::from_le_bytes(src.try_into().unwrap())`
unfoldable pub from_src16 : List ℕ → Outcome ℕ
from_src16 (a ∷ b ∷ []) = ok (a + 256 * b)
from_src16 _ = panic

-- the value of a write to the interrupt clear register, from two bytes or four
unfoldable pub from_src : List ℕ → Outcome ℕ
from_src (a ∷ b ∷ []) = ok (a + 256 * b)
from_src (a ∷ b ∷ c ∷ d ∷ []) = ok (from_le_bytes32 a b c d)
from_src _ = panic

-- `src[0]`
unfoldable pub first : List ℕ → Outcome ℕ
first [] = panic
first (a ∷ _) = ok a

module _ (I : IrqController) where
  open I use {State}

  -- `printed` is what has gone to `kernel::print!`, latest first.
  pub record Pl011 : Type 0 where
    pub control_register : ℕ  -- u16
    pub baud_rate : ℕ  -- u16
    pub fractional_baud : ℕ  -- u16
    pub line_control : ℕ  -- u16
    pub ifl : ℕ  -- u16
    pub irq_status : ℕ  -- u32
    pub irq_mask : ℕ  -- u32
    pub irq_line : ℕ
    pub controller : State
    pub printed : List ℕ

  unfoldable pub new : ℕ → State → Pl011
  new irq_line controller = record {
    control_register = 0x300;
    baud_rate = 0;
    fractional_baud = 0;
    line_control = 0;
    ifl = 0x12;
    irq_status = 0;
    irq_mask = 0;
    irq_line = irq_line;
    controller = controller;
    printed = [];
  }

  -- an interrupt that is not masked is asserted
  abbrev pub is_asserted : Pl011 → Bool
  is_asserted p = not (bit_and p.irq_status p.irq_mask == 0)

  unfoldable pub update_irq : Pl011 → Outcome Pl011
  update_irq p = do
    controller ← drive I (is_asserted p) p.controller p.irq_line
    ok (record p { controller = controller })

  abbrev flag_register : Pl011 → ℕ
  flag_register p =
      bit_or (if bit_and p.line_control 0x10 == 0 then bit_or 0 (1 <<< 6) else 0) (1 <<< 7)

  -- the bytes that `read` leaves in `dst`
  unfoldable pub read : Pl011 → ℕ → List ℕ → Outcome (List ℕ)
  read p offset dst =
      if offset == 0x000
      then ok dst
      else if offset == 0x004
      then ok (replicate (length dst) 0)
      else if offset == 0x018
      then copy_front (flag_register p ∷ []) dst
      else if offset == 0x024
      then copy_front (le_bytes16 p.baud_rate) dst
      else if offset == 0x028
      then copy_front (le_bytes16 p.fractional_baud) dst
      else if offset == 0x02c
      then copy_front (le_bytes16 p.line_control) dst
      else if offset == 0x030
      then copy_front (le_bytes16 p.control_register) dst
      else if offset == 0x034
      then copy_front (le_bytes16 p.ifl) dst
      else if offset == 0x038
      then copy_front (le_bytes16 (u16 p.irq_mask)) dst
      else if offset == 0x03c
      then copy_front (le_bytes32 p.irq_status) dst
      else if offset == 0xfe0
      then copy_front (0x11 ∷ []) dst
      else if offset == 0xfe4
      then copy_front (0x10 ∷ []) dst
      else if offset == 0xfe8
      then copy_front (0x14 ∷ []) dst
      else if offset == 0xfec
      then copy_front (0x00 ∷ []) dst
      else if offset == 0xff0
      then copy_front (0x0d ∷ []) dst
      else if offset == 0xff4
      then copy_front (0xf0 ∷ []) dst
      else if offset == 0xff8
      then copy_front (0x05 ∷ []) dst
      else if offset == 0xffc
      then copy_front (0xb1 ∷ []) dst
      else panic

  -- the arms of `write`
  unfoldable pub write_data : Pl011 → List ℕ → Outcome Pl011
  write_data p src = do
    c ← first src
    update_irq (record p { printed = c ∷ p.printed; irq_status = bit_or p.irq_status irq_txintr })

  unfoldable pub write_baud : Pl011 → List ℕ → Outcome Pl011
  write_baud p src = do v ← from_src16 src; ok (record p { baud_rate = bit_and v 0xffff })

  unfoldable pub write_fractional : Pl011 → List ℕ → Outcome Pl011
  write_fractional p src = do v ← from_src16 src; ok (record p { fractional_baud = bit_and v 0x3f })

  unfoldable pub write_line_control : Pl011 → List ℕ → Outcome Pl011
  write_line_control p src = do v ← from_src16 src; ok (record p { line_control = bit_and v 0xff })

  unfoldable pub write_control : Pl011 → List ℕ → Outcome Pl011
  write_control p src = do v ← from_src16 src; ok (record p { control_register = v })

  unfoldable pub write_ifl : Pl011 → List ℕ → Outcome Pl011
  write_ifl p src = do v ← from_src16 src; update_irq (record p { ifl = v })

  unfoldable pub write_mask : Pl011 → List ℕ → Outcome Pl011
  write_mask p src = do v ← from_src16 src; update_irq (record p { irq_mask = bit_and v 0x7ff })

  unfoldable pub write_clear : Pl011 → List ℕ → Outcome Pl011
  write_clear p src = do
    v ← from_src src
    update_irq (record p { irq_status = bit_and p.irq_status (complement 32 v) })

  unfoldable pub write : Pl011 → ℕ → List ℕ → Outcome Pl011
  write p offset src =
      if offset == 0x000
      then write_data p src
      else if offset == 0x004
      then ok p
      else if offset == 0x024
      then write_baud p src
      else if offset == 0x028
      then write_fractional p src
      else if offset == 0x02c
      then write_line_control p src
      else if offset == 0x030
      then write_control p src
      else if offset == 0x034
      then write_ifl p src
      else if offset == 0x038
      then write_mask p src
      else if offset == 0x044
      then write_clear p src
      else panic
