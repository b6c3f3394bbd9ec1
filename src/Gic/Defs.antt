-- ===== src/Gic/Defs.antt =====
-- `IrqLine`, `GlobalInterruptController` and the methods that deliver interrupts to the CPU.
use icewind.Common.{
  ℕ, zero, suc, ◌+◌, ◌-◌, ◌^◌, bit_and, bit_or, Bool, true, false, not, ◌&&◌, ◌||◌, Option, none,
  some, List, [], ◌∷◌, ltb, leb, ◌==◌, if◌then◌else◌, length, set, Outcome, ok, panic, hang, ◌>>=◌,
  index,
}

-- `NO_LINE`: `usize::MAX` stands for no line.
abbrev pub no_line : ℕ
no_line = 2 ^ 64 - 1

pub record IrqLine : Type 0 where
  pub raised : Bool
  pub enabled : Bool
  pub active : Bool
  pub pending : Bool
  pub priority : ℕ  -- u8
  pub cpu_mask : ℕ  -- u8
  pub config : ℕ  -- u8
  pub last_active : ℕ  -- usize

abbrev pub new_line : ℕ → ℕ → IrqLine
new_line config cpu_mask = record {
  raised = false;
  enabled = false;
  active = false;
  pending = false;
  priority = 0;
  cpu_mask = cpu_mask;
  config = config;
  last_active = no_line;
}

abbrev pub edge_triggered : IrqLine → Bool
edge_triggered l = bit_and l.config 2 == 2

abbrev pub level_triggered : IrqLine → Bool
level_triggered l = bit_and l.config 2 == 0

-- `interrupt_pending` is the flag of `GuestExecutionContext::current()` that `cpu_irq_raise` and
-- `cpu_irq_rescind` store to.
pub record Controller : Type 0 where
  pub lines : List IrqLine
  pub distributor_enabled : Bool
  pub cpu_enabled : Bool
  pub cpu_pmr : ℕ  -- u8
  pub cpu_irq_line_pending : ℕ  -- usize
  pub cpu_irq_line_running : ℕ  -- usize
  pub interrupt_pending : ℕ

-- the closure of `from_fn`
abbrev pub fresh_line : ℕ → IrqLine
fresh_line i = new_line (if ltb i 16 then bit_or 0 2 else 0) (if ltb i 32 then 1 else 0)

-- `from_fn` on the `n` indices from `i` on
unfoldable pub fresh_lines : ℕ → ℕ → List IrqLine
fresh_lines i zero = []
fresh_lines i (suc n) = fresh_line i ∷ fresh_lines (i + 1) n

abbrev pub line_count : ℕ
line_count = 1020

unfoldable pub new : Controller
unfolding fresh_lines
new = record {
  lines = fresh_lines 0 line_count;
  distributor_enabled = false;
  cpu_enabled = false;
  cpu_pmr = 0;
  cpu_irq_line_pending = no_line;
  cpu_irq_line_running = no_line;
  interrupt_pending = 0;
}

abbrev pub cpu_irq_raise : Controller → Controller
cpu_irq_raise c = record c { interrupt_pending = 1 }

abbrev pub cpu_irq_rescind : Controller → Controller
cpu_irq_rescind c = record c { interrupt_pending = 0 }

unfoldable pub running_priority : Controller → Outcome ℕ
running_priority c =
    if c.cpu_irq_line_running == no_line
    then ok 0x100
    else do line ← index c.lines c.cpu_irq_line_running; ok line.priority

-- the test of the loop of `update`: enabled, and pending or a raised level
abbrev pub is_candidate : IrqLine → Bool
is_candidate l = l.enabled && (l.pending || (level_triggered l && l.raised))

-- the body of that loop once line `i` has passed the test
unfoldable pub better : List IrqLine → ℕ → IrqLine → Option ℕ → Outcome (Option ℕ)
better lines i line none = ok (some i)
better lines i line (some best_irq_idx) = do
  best_irq ← index lines best_irq_idx
  ok (if ltb line.priority best_irq.priority then some i else some best_irq_idx)

-- the loop of `update` over the lines from index `i` on
unfoldable pub find_best : List IrqLine → ℕ → Option ℕ → List IrqLine → Outcome (Option ℕ)
find_best lines i best [] = ok best
find_best lines i best (line ∷ rest) = do
  best' ← (if is_candidate line then better lines i line best else ok best)
  find_best lines (i + 1) best' rest

-- what `update` does with the line that the loop has found
unfoldable pub deliver : Controller → Option ℕ → Outcome Controller
unfolding running_priority
deliver c none = ok (cpu_irq_rescind c)
deliver c (some best_irq_idx) = do
  best_irq ← index c.lines best_irq_idx
  if ltb best_irq.priority c.cpu_pmr
      then (do
        let c' = record c { cpu_irq_line_pending = best_irq_idx }
        running ← running_priority c'
        ok (if ltb best_irq.priority running then cpu_irq_raise c' else cpu_irq_rescind c'))
      else ok (cpu_irq_rescind c)

unfoldable pub update : Controller → Outcome Controller
unfolding find_best better deliver
update c =
    let c' = record c { cpu_irq_line_pending = no_line } in
    if not c'.cpu_enabled || not c'.distributor_enabled
    then ok (cpu_irq_rescind c')
    else find_best c'.lines 0 none c'.lines >>= deliver c'

-- `u32::try_from(n).unwrap()`
abbrev pub try_u32 : ℕ → Outcome ℕ
try_u32 n = if ltb n (2 ^ 32) then ok n else panic

unfoldable pub acknowledge : Controller → Outcome (Controller × ℕ)
acknowledge c =
    if c.cpu_irq_line_pending == no_line
    then ok (record c { cpu_irq_line_running = no_line }, 1023)
    else do
      current ← index c.lines c.cpu_irq_line_pending
      running ← running_priority c
      if leb running current.priority then ok (c, 1023) else do
        c' ← update (record c {
          lines =
              set c.lines c.cpu_irq_line_pending
                (record current { last_active = c.cpu_irq_line_running; pending = false });
          cpu_irq_line_running = c.cpu_irq_line_pending;
        })
        id ← try_u32 c.cpu_irq_line_pending
        ok (c', id)

-- The `while` loop of `eoi`. It visits a line at most once unless it goes round for ever, and
-- there are `line_count` lines, so `line_count + 1` rounds decide which.
unfoldable pub unlink : ℕ → List IrqLine → IrqLine → ℕ → ℕ → Outcome (List IrqLine)
unlink zero lines irq irqid last_idx = hang
unlink (suc fuel) lines irq irqid last_idx = elim (last_idx == no_line) [
  | true ↦ ok lines
  | false ↦ do
    last ← index lines last_idx
    elim (last_idx == irqid) [
      | true ↦ ok (set lines last_idx (record last { last_active = irq.last_active }))
      | false ↦ unlink fuel lines irq irqid last.last_active
    ]
]

unfoldable pub eoi : Controller → ℕ → Outcome Controller
eoi c irqid =
    if leb (length c.lines) irqid
    then ok c
    else if c.cpu_irq_line_running == no_line
    then ok c
    else do
      current ← index c.lines c.cpu_irq_line_running
      irq ← index c.lines irqid
      if irqid == c.cpu_irq_line_running
          then update (record c { cpu_irq_line_running = current.last_active })
          else do
            lines ← unlink (line_count + 1) c.lines irq irqid c.cpu_irq_line_running
            update (record c { lines = lines })

-- `compare_exchange(false, true)` succeeds only on a line that was not raised.
unfoldable pub raise : Controller → ℕ → Outcome Controller
raise c i = do
  line ← index c.lines i
  if line.raised
      then ok c
      else let line' = record line {
        raised = true;
        pending = if edge_triggered line then true else line.pending;
      } in
        update (record c { lines = set c.lines i line' })

unfoldable pub rescind : Controller → ℕ → Outcome Controller
rescind c i = do
  line ← index c.lines i
  if line.raised
      then update (record c { lines = set c.lines i (record line { raised = false }) })
      else ok c
