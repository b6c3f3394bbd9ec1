-- ===== src/Virtio/Interrupt.antt =====
-- Acknowledging interrupts: the status register and the line.
use Prim.Native.Nat.{min}
use icewind.Common.{
  ℕ, ◌-◌, ◌<◌, ◌^◌, ◌≡◌, ◌≢◌, ◌∙◌, refl, ap, arith, bit, complement, not, ◌==◌, true, ==_of_ne,
  Returns, Returns-bind, Returns-map,
}
use icewind.Common.Bits.{bit-and, bit-complement, bit_ext, bit-le, bit_high, bit_and_lt}
use icewind.Devices.{IrqController, drive, drive_lem}
use icewind.Virtio.Defs.{Virtio, acknowledge_interrupt}

module _ (I : IrqController) (S : Type 0) where
  open I use {State, IsReady, lines, level}

  -- What an acknowledgement of `value` did to the device `d`: the line is high exactly if the
  -- status was not zero before, and the status has lost the bits of `value`.
  pub record IsAcknowledged (value : ℕ) (d d' : Virtio I S) : Type 0 where
    pub ready : IsReady d'.host.controller
    pub line : level d'.host.controller d.host.irq_line ≡ not (d.host.isr == 0)
    pub others :
        (j : ℕ) → j ≢ d.host.irq_line → level d'.host.controller j ≡ level d.host.controller j
    pub small : d'.host.isr < 2 ^ 32
    pub bits : (i : ℕ) → i < 32 → bit d'.host.isr i ≡ min (bit d.host.isr i) (1 - bit value i)
    pub queue : d'.host.queue ≡ d.host.queue

  -- On a ready controller that has the device's line, with a status and a value of 32 bits, an
  -- acknowledgement returns. The device's line is then high exactly if the status was not zero
  -- before, no other line has changed, each status bit that is one in the value is cleared, the
  -- others are kept, and the queue is as it was.
  pub acknowledge_interrupt-IsAcknowledged :
      (value : ℕ) (d : Virtio I S)
      → IsReady d.host.controller
      → d.host.irq_line < lines
      → d.host.isr < 2 ^ 32
      → value < 2 ^ 32
      → Returns (acknowledge_interrupt I S value d) (IsAcknowledged value d)
  unfolding acknowledge_interrupt
  acknowledge_interrupt-IsAcknowledged value d ready in_range isr_small value_small =
      Returns-bind (drive I (not (d.host.isr == 0)) d.host.controller d.host.irq_line) _ _
        (IsAcknowledged value d)
        (drive_lem I (not (d.host.isr == 0)) d.host.controller d.host.irq_line ready in_range)
        (λ s (ready', now, others). record {
          ready = ready';
          line = now;
          others = others;
          small = bit_and_lt 32 d.host.isr (complement 32 value) isr_small;
          bits = λ i h.
              bit-and d.host.isr (complement 32 value) i
              ∙ ap (min (bit d.host.isr i)) (bit-complement 32 value i value_small h);
          queue = refl;
        })

  -- On a ready controller that has the device's line, when the driver acknowledges a status of
  -- 32 bits that is not zero as a whole, the status is zero afterwards and the line of the
  -- device is high.
  pub acknowledge_all :
      (d : Virtio I S)
      → IsReady d.host.controller
      → d.host.irq_line < lines
      → d.host.isr < 2 ^ 32
      → d.host.isr ≢ 0
      → Returns
          (acknowledge_interrupt I S d.host.isr d)
          (λ d'. (d'.host.isr ≡ 0) × (level d'.host.controller d.host.irq_line ≡ true))
  acknowledge_all d ready in_range small some_status =
      Returns-map (acknowledge_interrupt I S d.host.isr d) (IsAcknowledged d.host.isr d) _
        (λ d' h. (
          bit_ext 32 d'.host.isr 0 h.small (omega arith) (λ i lt. omega (
            arith,
            h.bits i lt,
            bit-le d.host.isr i,
            bit_high 0 0 i (omega arith) (omega arith),
          )),
          h.line ∙ ap not (==_of_ne d.host.isr 0 some_status),
        ))
        (acknowledge_interrupt-IsAcknowledged d.host.isr d ready in_range small small)
