-- ===== src/Gic/Distributor/Safety.antt =====
-- The writes of the distributor that return, and keep the invariant of the controller.
use icewind.Common.{
  ℕ, zero, suc, ◌+◌, ◌-◌, ◌*◌, ◌/◌, ◌%◌, ◌^◌, if◌then◌else◌, ◌≤◌, ◌<◌, bit_and, ◌≡◌, refl, ap, ◌∙◌,
  not, ◌&&◌, some, arith, ltb, ◌==◌, length, get_elem?, get_elem?_total, set, Returns, Returns-bind,
  Returns-map, Bool-cases, inl, inr, ==_of_eq, lt_of_get_elem?, length-set, u8,
}
use icewind.Common.Bits.{bit_and_mask}
use icewind.Gic.Defs.{IrqLine, Controller, rescind, no_line}
use icewind.Gic.Chain.{IsValid, Keeps, Keeps-Chain, Keeps-bytes, Keeps-set, stop}
use icewind.Gic.Serve.{raise-IsValid, rescind-IsValid, Keeps-IsValid}
use icewind.Gic.Distributor.Defs.{
  write_register, software_interrupt, clear_pending, clear_pending_sgi, isenable, icenable,
  icactive, ipriority, itargets, icfg,
}
use icewind.Gic.Distributor.Lines.{
  lines_for_bitvector_lem, is_covered, IsApplied, write-isenable, write-icenable, write-icactive,
  write-ipriority, write-itargets, write-icfg,
}

module _ (c : Controller) (start count : ℕ) (f : ℕ → IrqLine → IrqLine)
    (same : (i : ℕ) (l : IrqLine)
      → ((f i l).priority ≡ l.priority) × ((f i l).last_active ≡ l.last_active)) where
  IsApplied-Keeps : (c' : Controller) → IsApplied c start count f c' → Keeps c.lines c'.lines
  IsApplied-Keeps c' a = record {
    same_length = a.same_length;
    kept = λ i l at. elim (Bool-cases (is_covered start count i)) [
      | inl hit ↦
          (f (i - start) l, a.line i l at ∙ rw hit, (same (i - start) l).0, (same (i - start) l).1)
      | inr miss ↦ (l, a.line i l at ∙ rw miss, refl, refl)
    ];
  }

  IsApplied-IsValid : (c' : Controller) → IsValid c → IsApplied c start count f c' → IsValid c'
  IsApplied-IsValid c' v a = record {
    serving = record {
      size = a.same_length ∙ v.serving.size;
      bytes = Keeps-bytes (IsApplied-Keeps c' a) v.serving.bytes;
      chain = rw running (Keeps-Chain (IsApplied-Keeps c' a) v.serving.chain);
    };
    pending = rw (pending, a.same_length) v.pending;
  }
    where
      running : c'.cpu_irq_line_running ≡ c.cpu_irq_line_running
      running = ap (λ (x : Controller). x.cpu_irq_line_running) a.same_rest

      pending : c'.cpu_irq_line_pending ≡ c.cpu_irq_line_pending
      pending = ap (λ (x : Controller). x.cpu_irq_line_pending) a.same_rest

software_interrupt-IsValid :
    (c : Controller) (value : ℕ) → IsValid c → Returns (software_interrupt c value) IsValid
unfolding software_interrupt
software_interrupt-IsValid c value v = elim (Bool-cases (ltb (u8 value) 16)) [
  | inl sgi ↦ rw sgi (raise-IsValid c (u8 value) v (ground (arith, v.serving.size)))
  | inr other ↦ rw other v
]

clear_pending-IsValid :
    (n i value : ℕ) (c : Controller)
    → IsValid c
    → i + n ≤ 1020
    → Returns (clear_pending n i value c) IsValid
unfolding clear_pending
clear_pending-IsValid zero i value c v fits = v
clear_pending-IsValid (suc n) i value c v fits =
    let (l, at) = get_elem?_total c.lines i (omega (arith, v.serving.size)) in
    rw at (
      Returns-bind (rescind (quiet l) i) _ IsValid IsValid
        (rescind-IsValid (quiet l) i (quiet-IsValid l at)
          (omega (arith, length-set c.lines i (hushed l), v.serving.size)))
        λ c' v'. clear_pending-IsValid n (i + 1) _ c' v' (omega arith))
  where
    hushed : IrqLine → IrqLine
    hushed l = record l { pending = l.pending && not (bit_and value 1 == 1) }

    quiet : IrqLine → Controller
    quiet l = record c { lines = set c.lines i (hushed l) }

    quiet-IsValid : (l : IrqLine) → get_elem? c.lines i ≡ some l → IsValid (quiet l)
    quiet-IsValid l at = Keeps-IsValid c _ v (Keeps-set c.lines i _ at refl refl)

clear_pending_sgi-IsValid :
    (c : Controller) (base value : ℕ)
    → base ≤ 15
    → IsValid c
    → Returns (clear_pending_sgi c base value) IsValid
unfolding clear_pending_sgi
clear_pending_sgi-IsValid c base value low v =
    rw (lines_for_bitvector_lem c base 4 1 (omega (arith, v.serving.size)) (omega arith))
      (clear_pending-IsValid _ _ value c v (omega arith))

-- The offsets whose writes change no priority and reach no line beyond the last.
pub data IsSafe (offset : ℕ) : Type 0 where
  ctlr : offset ≡ 0 → IsSafe offset
  set_enable : 0x0100 ≤ offset → offset ≤ 0x017f → IsSafe offset
  clear_enable : 0x0180 ≤ offset → offset ≤ 0x01ff → IsSafe offset
  clear_active : 0x0380 ≤ offset → offset ≤ 0x03ff → IsSafe offset
  targets : 0x0800 ≤ offset → offset ≤ 0x0bfb → IsSafe offset
  config : 0x0c00 ≤ offset → offset ≤ 0x0cfe → IsSafe offset
  sgi : offset ≡ 0x0f00 → IsSafe offset
  clear_sgi : 0x0f10 ≤ offset → offset ≤ 0x0f1f → IsSafe offset

module _ (c : Controller) (offset value : ℕ) (v : IsValid c) where
  enough : 1019 ≤ length c.lines
  enough = omega (arith, v.serving.size)

  ctlr-IsValid : offset ≡ 0 → Returns (write_register c offset value) IsValid
  unfolding write_register
  ctlr-IsValid e = rw (==_of_eq offset 0 e) (record {
    serving = record { size = v.serving.size; bytes = v.serving.bytes; chain = v.serving.chain };
    pending = v.pending;
  })

  sgi-IsValid : offset ≡ 0x0f00 → Returns (write_register c offset value) IsValid
  unfolding write_register
  sgi-IsValid e =
      let arm : write_register c offset value ≡ software_interrupt c value = ground arith in
      rw arm (software_interrupt-IsValid c value v)

  clear_sgi-IsValid :
      0x0f10 ≤ offset → offset ≤ 0x0f1f → Returns (write_register c offset value) IsValid
  unfolding write_register
  clear_sgi-IsValid lo hi =
      let arm : write_register c offset value ≡ clear_pending_sgi c (offset - 0x0f10) value =
        ground arith in
      rw arm (clear_pending_sgi-IsValid c (offset - 0x0f10) value (omega arith) v)

  applied-IsValid :
      (start count : ℕ) (f : ℕ → IrqLine → IrqLine)
      → ((i : ℕ) (l : IrqLine)
          → ((f i l).priority ≡ l.priority) × ((f i l).last_active ≡ l.last_active))
      → Returns (write_register c offset value) (IsApplied c start count f)
      → Returns (write_register c offset value) IsValid
  applied-IsValid start count f same =
      Returns-map (write_register c offset value) (IsApplied c start count f) IsValid
        (λ c' a. IsApplied-IsValid c start count f same c' v a)

  -- A write to such an offset returns, and keeps the invariant.
  pub write_register-IsValid : IsSafe offset → Returns (write_register c offset value) IsValid
  write_register-IsValid (ctlr e) = ctlr-IsValid e
  write_register-IsValid (set_enable lo hi) =
      applied-IsValid _ 32 (isenable value) (λ i l. (refl, refl))
        (write-isenable c offset value enough lo hi)
  write_register-IsValid (clear_enable lo hi) =
      applied-IsValid _ 32 (icenable value) (λ i l. (refl, refl))
        (write-icenable c offset value enough lo hi)
  write_register-IsValid (clear_active lo hi) =
      applied-IsValid _ 32 (icactive value) (λ i l. (refl, refl))
        (write-icactive c offset value enough lo hi)
  write_register-IsValid (targets lo hi) =
      applied-IsValid _ 4 (itargets value) (λ i l. (refl, refl))
        (write-itargets c offset value enough lo hi)
  write_register-IsValid (config lo hi) =
      applied-IsValid _ 16 (icfg value) (λ i l. (refl, refl))
        (write-icfg c offset value enough lo hi)
  write_register-IsValid (sgi e) = sgi-IsValid e
  write_register-IsValid (clear_sgi lo hi) = clear_sgi-IsValid lo hi

priority_byte : (value k : ℕ) → u8 (bit_and (value / 2 ^ (k * 8)) 0xff) ≡ value / 2 ^ (k * 8) % 256
priority_byte value k =
    let low : bit_and (value / 2 ^ (k * 8)) 255 ≡ value / 2 ^ (k * 8) % 256 =
      bit_and_mask 8 (value / 2 ^ (k * 8)) in
    omega (arith, low)

-- In a valid state in which no line is served, a write to GICD_IPRIORITY returns a valid state
-- and changes nothing but lines. A line that exists has its byte of the value as its priority
-- afterwards if it is one of the four lines of the register, below 1019, and its other fields
-- stay; every other line stays as it is.
pub ipriority-IsValid :
    (c : Controller) (offset value i : ℕ) (l : IrqLine)
    → IsValid c
    → c.cpu_irq_line_running ≡ no_line
    → 0x0400 ≤ offset
    → offset ≤ 0x07fb
    → get_elem? c.lines i ≡ some l
    → Returns (write_register c offset value) (λ c'.
      IsValid c'
      × (c' ≡ record c { lines = c'.lines })
      × (get_elem? c'.lines i
          ≡ some (
              if is_covered (offset - 0x0400) 4 i
              then record l { priority = value / 2 ^ ((i - (offset - 0x0400)) * 8) % 256 }
              else l)))
ipriority-IsValid c offset value i l v idle lo hi at =
    Returns-map (write_register c offset value) _ _
      (λ c' a. (
        kept c' a,
        a.same_rest,
        a.line i l at
            ∙ ap
                (λ p.
                  some (if is_covered (offset - 0x0400) 4 i then record l { priority = p } else l))
                (priority_byte value (i - (offset - 0x0400))),
      ))
      (write-ipriority c offset value (omega (arith, v.serving.size)) lo hi)
  where
    small :
        (c' : Controller)
        → IsApplied c (offset - 0x0400) 4 (ipriority value) c'
        → (i : ℕ) (l' : IrqLine) → get_elem? c'.lines i ≡ some l'
        → l'.priority < 256
    small c' a i l' at' =
        let (l, at) =
          get_elem?_total c.lines i
            (omega (arith, lt_of_get_elem? c'.lines i at', a.same_length)) in
        let now = a.line i l at in
        elim (Bool-cases (is_covered (offset - 0x0400) 4 i)) [
          | inl hit ↦
              let set_now : get_elem? c'.lines i
                  ≡ some (ipriority value (i - (offset - 0x0400)) l) =
                now ∙ rw hit in
              let e : l' ≡ ipriority value (i - (offset - 0x0400)) l = cc in rw e (omega arith)
          | inr miss ↦
              let kept_now : get_elem? c'.lines i ≡ some l = now ∙ rw miss in
              let e : l' ≡ l = cc in rw e (v.serving.bytes i l at)
        ]

    kept : (c' : Controller) → IsApplied c (offset - 0x0400) 4 (ipriority value) c' → IsValid c'
    kept c' a = record {
      serving = record {
        size = a.same_length ∙ v.serving.size;
        bytes = small c' a;
        chain = stop (ap (λ (x : Controller). x.cpu_irq_line_running) a.same_rest ∙ idle);
      };
      pending =
          rw (ap (λ (x : Controller). x.cpu_irq_line_pending) a.same_rest, a.same_length) v.pending;
    }
