-- ===== src/Gic/Cycle.antt =====
-- A cycle of `last_active` links: the loop of `eoi` does not end.
use icewind.Common.{
  ℕ, zero, suc, ◌+◌, ◌<◌, ◌≡◌, ◌≢◌, refl, sym, some, List, get_elem?, get_elem?_total, length,
  lt→leb, ==_of_ne, hang,
}
use icewind.Gic.Defs.{IrqLine, Controller, no_line, line_count, unlink, eoi}

-- The links of the lines in `S` stay in `S`, and neither line `irqid` nor the end is there.
abbrev pub IsClosed : List IrqLine → ℕ → (ℕ → Type 0) → Type 0
IsClosed lines irqid S =
    (i : ℕ)
    → S i
    → (i ≢ irqid) × (i ≢ no_line) × ((l : IrqLine) × (get_elem? lines i ≡ some l) × S l.last_active)

unlink_cycle :
    (lines : List IrqLine) (irq : IrqLine) (irqid : ℕ) (S : ℕ → Type 0)
    → IsClosed lines irqid S
    → (fuel i : ℕ) → S i
    → unlink fuel lines irq irqid i ≡ hang
unfolding unlink
unlink_cycle lines irq irqid S closed zero i s = refl
unlink_cycle lines irq irqid S closed (suc fuel) i s =
    let (ne, line, (l, at, s')) = closed i s in
    rw (==_of_ne i no_line line, at, ==_of_ne i irqid ne, unlink)
      (unlink_cycle lines irq irqid S closed fuel l.last_active s')

-- If the links from the running line stay within a set of lines, the end of interrupt for a line
-- outside that set never returns.
pub eoi_cycle :
    (c : Controller) (irqid : ℕ) (S : ℕ → Type 0)
    → irqid < length c.lines
    → IsClosed c.lines irqid S
    → S c.cpu_irq_line_running
    → eoi c irqid ≡ hang
unfolding eoi
eoi_cycle c irqid S lt closed s =
    let (ne, line, (l, at, _)) = closed c.cpu_irq_line_running s in
    let (irq, at_irq) = get_elem?_total c.lines irqid lt in
    rw (
      lt→leb _ _ lt,
      ==_of_ne _ _ line,
      at,
      at_irq,
      ==_of_ne irqid c.cpu_irq_line_running (λ e. ne (sym e)),
      unlink_cycle c.lines irq irqid S closed (line_count + 1) c.cpu_irq_line_running s,
    )
