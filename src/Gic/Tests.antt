-- ===== src/Gic/Tests.antt =====
-- Runs of the controller, and the theorems at concrete inputs.
use icewind.Common.{
  ℕ, ◌<◌, ◌≡◌, ◌≢◌, ◌∙◌, refl, inl, inr, arith, some, List, [], ◌∷◌, ◌++◌, Outcome, ok, hang, ◌>>=◌,
  true, false, length-set, length, set, get_elem?, map_window, Returns, ◌↔◌, ◌⊎◌,
}
use icewind.Gic.Defs.{
  IrqLine, Controller, new_line, new, no_line, line_count, update, acknowledge, eoi, raise, rescind,
  unlink, running_priority,
}
use icewind.Gic.Chain.{IsValid, bytes-set, stop, link}
use icewind.Gic.Serve.{new-IsValid}
use icewind.Gic.Update.{IsUpdated, update-IsUpdated}
use icewind.Gic.Cpu.{serve, acknowledge_taken, eoi-acknowledge}
use icewind.Gic.Level.{level, raise-level}
use icewind.Gic.Cycle.{IsClosed, eoi_cycle}
use icewind.Gic.Bytes.{written, copied}
use icewind.Gic.CpuInterface
use icewind.Gic.Distributor
use icewind.Gic.Distributor.{write_register, isenable, bit_set}
use icewind.Gic.Distributor.Lines.{isenable_enables, IsEnabling, icenable_disables}
use icewind.Gic.Distributor.Safety.{ipriority-IsValid, ctlr, set_enable}
use icewind.Gic.Run.{
  Access, line_up, line_down, cpu_read, cpu_write, distributor_write, perform, run, run-IsValid,
}

-- Line 40 has priority value 16, line 41 has 8.
abbrev setup : List Access
setup =
    distributor_write 0x0000 (1 ∷ [])
    ∷ cpu_write 0x0000 (1 ∷ [])
    ∷ cpu_write 0x0004 (0xf0 ∷ [])
    ∷ distributor_write 0x0428 (0x10 ∷ 0x08 ∷ 0x20 ∷ 0x20 ∷ [])
    ∷ distributor_write 0x0104 (0 ∷ 0x07 ∷ 0 ∷ 0 ∷ [])
    ∷ []

-- Line 40 is served, and line 41 interrupts it.
abbrev nested : List Access
nested = setup ++ (line_up 40 ∷ cpu_read 0x000c 4 ∷ line_up 41 ∷ cpu_read 0x000c 4 ∷ [])

-- Then line 40 is given the better priority, and is acknowledged again.
abbrev tangled : List Access
tangled =
    nested
    ++ (distributor_write 0x0428 (0x04 ∷ 0x08 ∷ 0x20 ∷ 0x20 ∷ [])
        ∷ line_down 41
        ∷ cpu_read 0x000c 4
        ∷ [])

abbrev view : Outcome Controller → Outcome (ℕ × ℕ × ℕ)
view m = m >>= λ c. ok (c.interrupt_pending, c.cpu_irq_line_running, c.cpu_irq_line_pending)

-- what a run of the whole model unfolds
all_code : Unit {0}
unfolding run perform new Distributor.write written write_register Distributor.for_each
    Distributor.lines_for_bitvector map_window raise rescind update CpuInterface.write
    CpuInterface.read copied acknowledge eoi unlink
all_code = tt

setup_raises : view (run (setup ++ (line_up 40 ∷ [])) new) ≡ ok (1, no_line, 40)
unfolding all_code
setup_raises = refl

nested_runs : view (run nested new) ≡ ok (0, 41, 41)
unfolding all_code
nested_runs = refl

-- An `eoi` for a third line does not come back.
tangled_hangs : run (tangled ++ (cpu_write 0x0010 (42 ∷ []) ∷ [])) new ≡ hang
unfolding all_code
tangled_hangs = refl

abbrev safe_setup : List Access
safe_setup =
    distributor_write 0x0000 (1 ∷ [])
    ∷ cpu_write 0x0000 (1 ∷ [])
    ∷ distributor_write 0x0104 (0 ∷ 0x07 ∷ 0 ∷ 0 ∷ [])
    ∷ line_up 40
    ∷ cpu_read 0x000c 4
    ∷ cpu_write 0x0010 (40 ∷ [])
    ∷ []

run-IsValid_example : Returns (run safe_setup new) IsValid
run-IsValid_example = run-IsValid safe_setup new new-IsValid (
  (ctlr refl, inl refl),
  (
    (inl refl, inl refl),
    (
      (set_enable (omega arith) (omega arith), inr refl),
      (omega arith, ((inr (inl refl), refl), ((inr (inr refl), inl refl), tt))),
    ),
  ),
)

-- Line 40 is pending with priority value 16; nothing is served.
abbrev line_40 : IrqLine
line_40 = record (new_line 0 0) { raised = true; enabled = true; priority = 16 }

abbrev waiting : Controller
waiting = record new {
  lines = set new.lines 40 line_40;
  distributor_enabled = true;
  cpu_enabled = true;
  cpu_pmr = 0xf0;
  cpu_irq_line_pending = 40;
}

size : length waiting.lines ≡ line_count
size = length-set new.lines 40 line_40 ∙ new-IsValid.serving.size

waiting-IsValid : IsValid waiting
unfolding new
waiting-IsValid = record {
  serving = record {
    size = size;
    bytes = bytes-set new.lines 40 line_40 new-IsValid.serving.bytes (omega arith);
    chain = stop refl;
  };
  pending = inr (omega (arith, size));
}

at_40 : get_elem? waiting.lines 40 ≡ some line_40
unfolding new
at_40 = refl

idle_running : running_priority waiting ≡ ok 0x100
unfolding running_priority new
idle_running = refl

update-IsUpdated_example : Returns (update waiting) (IsUpdated waiting 0x100)
update-IsUpdated_example = update-IsUpdated waiting 0x100 idle_running

acknowledge_taken_example :
    Returns
      (acknowledge waiting)
      (λ (c', id). (id ≡ 40) × IsUpdated (serve waiting 40 line_40) 16 c')
acknowledge_taken_example =
    acknowledge_taken waiting waiting-IsValid line_40 at_40 0x100 idle_running (omega arith)

eoi-acknowledge_example : Returns (acknowledge waiting >>= λ (c', id). eoi c' id) (λ c'.
    (c'.cpu_irq_line_running ≡ new.cpu_irq_line_running)
    × (c'.lines ≡ (serve waiting 40 line_40).lines))
eoi-acknowledge_example =
    eoi-acknowledge waiting line_40 0x100 waiting-IsValid at_40 idle_running (omega arith)

-- Line 40 is served, with nothing pending.
abbrev serving : Controller
serving = record waiting { cpu_irq_line_pending = no_line; cpu_irq_line_running = 40 }

serving-IsValid : IsValid serving
serving-IsValid = record {
  serving = record {
    size = size;
    bytes = waiting-IsValid.serving.bytes;
    chain = link at_40 (omega arith) (stop refl);
  };
  pending = inl refl;
}

-- Lines 40 and 41 link to one another.
abbrev looped : Controller
looped = record new {
  lines =
      set (set new.lines 40 (record line_40 { last_active = 41 })) 41
        (record line_40 { last_active = 40 });
  cpu_irq_line_running = 40;
}

abbrev OnLoop : ℕ → Type 0
OnLoop i = (i ≡ 40) ⊎ (i ≡ 41)

looped-IsClosed : IsClosed looped.lines 42 OnLoop
unfolding new
looped-IsClosed i (inl e) =
    rw e (
      (λ q. omega arith),
      (λ q. omega arith),
      (record line_40 { last_active = 41 }, refl, inr refl),
    )
looped-IsClosed i (inr e) =
    rw e (
      (λ q. omega arith),
      (λ q. omega arith),
      (record line_40 { last_active = 40 }, refl, inl refl),
    )

length-looped : 42 < length looped.lines
length-looped = omega (
  arith,
  length-set (set new.lines 40 (record line_40 { last_active = 41 })) 41
      (record line_40 { last_active = 40 }),
  length-set new.lines 40 (record line_40 { last_active = 41 }),
  new-IsValid.serving.size,
)

eoi_cycle_example : eoi looped 42 ≡ hang
eoi_cycle_example = eoi_cycle looped 42 OnLoop length-looped looped-IsClosed (inl refl)

raise-level_example :
    Returns
      (raise waiting 41)
      (λ c'. IsValid c' × (level c' 41 ≡ true) × ((j : ℕ) → j ≢ 41 → level c' j ≡ level waiting j))
raise-level_example = raise-level waiting 41 waiting-IsValid (omega arith)

isenable_enables_example : Returns (write_register waiting 0x0104 0x100) (λ c'.
    (c' ≡ record waiting { lines = c'.lines })
    × (length c'.lines ≡ length waiting.lines)
    × ((l' : IrqLine) × (get_elem? c'.lines 40 ≡ some l') × IsEnabling 32 0x100 40 line_40 l'))
isenable_enables_example =
    isenable_enables waiting 0x0104 0x100 40 line_40 (omega (arith, size)) (omega arith)
      (omega arith) at_40

icenable_disables_example : Returns (write_register waiting 0x0184 0x100) (λ c'.
    (l' : IrqLine) × (get_elem? c'.lines 40 ≡ some l')
    × ((l'.enabled ≡ false) ↔ ((true ≡ true) × (bit_set 0x100 8 ≡ true))))
icenable_disables_example =
    icenable_disables waiting 0x0184 0x100 40 line_40 (omega (arith, size)) (omega arith)
      (omega arith) at_40 refl

ipriority-IsValid_example : Returns (write_register waiting 0x0428 0x20) (λ c'.
    IsValid c'
    × (c' ≡ record waiting { lines = c'.lines })
    × (get_elem? c'.lines 40 ≡ some (record line_40 { priority = 0x20 })))
unfolding new
ipriority-IsValid_example =
    ipriority-IsValid waiting 0x0428 0x20 40 line_40 waiting-IsValid refl (omega arith)
      (omega arith) at_40
