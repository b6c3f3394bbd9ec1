-- ===== src/Gic/Update.antt =====
-- `GlobalInterruptController::update`: which line is delivered, and when the CPU is signalled.
pub mod Best
use Best.{IsBest, Beats, find_best-IsBest}
use icewind.Common.{
  ℕ, zero, suc, ◌+◌, ◌≤◌, ◌<◌, ◌≡◌, refl, sym, ◌∙◌, ap, ◌⊎◌, ◌↔◌, inl, inr, not, ◌||◌, Bool, true,
  false, Option, none, some, List, [], ◌∷◌, arith, Bool-cases, length, get_elem?, if◌then◌else◌,
  ltb, Outcome, ok, Returns, Returns-bind, Returns-map, lt_of_get_elem?, ltb→lt, ltb→le, lt→ltb,
  le→ltb, index, ◌>>=◌,
}
use icewind.Gic.Defs.{
  IrqLine, Controller, no_line, is_candidate, better, find_best, deliver, update, running_priority,
  cpu_irq_rescind, cpu_irq_raise,
}

-- The index is that of a line, or stands for none.
abbrev pub IsLine : List IrqLine → ℕ → Type 0
IsLine lines i = (i ≡ no_line) ⊎ (i < length lines)

-- An interrupt has to be signalled: the distributor and the CPU interface are on, and some line
-- can be delivered with a priority value below the mask and below `running`.
abbrev pub IsSignalled : Controller → ℕ → Type 0
IsSignalled c running =
    (c.cpu_enabled ≡ true)
    × (c.distributor_enabled ≡ true)
    × ((i : ℕ) × (l : IrqLine) × (get_elem? c.lines i ≡ some l)
        × (is_candidate l ≡ true)
        × (l.priority < c.cpu_pmr)
        × (l.priority < running))

-- `c'` is what `update` makes of `c` while a line of priority value `running` is served.
pub record IsUpdated (c : Controller) (running : ℕ) (c' : Controller) : Type 0 where
  pub same_lines : c'.lines ≡ c.lines
  pub same_running : c'.cpu_irq_line_running ≡ c.cpu_irq_line_running
  pub same_pmr : c'.cpu_pmr ≡ c.cpu_pmr
  pub same_cpu : c'.cpu_enabled ≡ c.cpu_enabled
  pub same_distributor : c'.distributor_enabled ≡ c.distributor_enabled
  pub chosen :
      (c'.cpu_irq_line_pending ≡ no_line)
      ⊎ IsBest c.lines (length c.lines) (some c'.cpu_irq_line_pending)
  pub signalled : (c'.interrupt_pending ≡ 1) ↔ IsSignalled c running
  pub flag : (c'.interrupt_pending ≡ 0) ⊎ (c'.interrupt_pending ≡ 1)

module _ (c : Controller) (running : ℕ) where
  -- The two fields that `update` writes, and what has to be known of them.
  settle :
      (p f : ℕ)
      → (p ≡ no_line) ⊎ IsBest c.lines (length c.lines) (some p)
      → (f ≡ 1) ↔ IsSignalled c running
      → (f ≡ 0) ⊎ (f ≡ 1)
      → IsUpdated c running (record c { cpu_irq_line_pending = p; interrupt_pending = f })
  settle p f chosen signalled flag = record {
    same_lines = refl;
    same_running = refl;
    same_pmr = refl;
    same_cpu = refl;
    same_distributor = refl;
    chosen = chosen;
    signalled = signalled;
    flag = flag;
  }

  settle_quiet :
      (p : ℕ)
      → (p ≡ no_line) ⊎ IsBest c.lines (length c.lines) (some p)
      → ¬ (IsSignalled c running)
      → IsUpdated c running (cpu_irq_rescind (record c { cpu_irq_line_pending = p }))
  settle_quiet p chosen quiet =
      settle p 0 chosen (λ e. absurd (omega arith), λ s. absurd (quiet s)) (inl refl)

module _ (c : Controller) (running : ℕ) (served : running_priority c ≡ ok running)
    (cleared : c.cpu_irq_line_pending ≡ no_line) (cpu_on : c.cpu_enabled ≡ true)
    (dist_on : c.distributor_enabled ≡ true) where
  -- No other candidate can have the priority that the best one lacks.
  quiet_of_best :
      {b : ℕ} (best : IrqLine)
      → ((j : ℕ) (l : IrqLine)
          → j < length c.lines
          → get_elem? c.lines j ≡ some l
          → is_candidate l ≡ true
          → Beats b best j l)
      → (c.cpu_pmr ≤ best.priority) ⊎ (running ≤ best.priority)
      → ¬ (IsSignalled c running)
  quiet_of_best best least weak (_, _, (i, l, at_i, cand, masked, lower)) =
      let beats = least i l (lt_of_get_elem? c.lines i at_i) at_i cand in omega (arith, beats.0)

  none-IsSignalled : IsBest c.lines (length c.lines) none → ¬ (IsSignalled c running)
  none-IsSignalled none_fits (_, _, (i, l, at_i, cand, masked, lower)) =
      cc (none_fits i l (lt_of_get_elem? c.lines i at_i) at_i)

  deliver-IsUpdated :
      (best : Option ℕ)
      → IsBest c.lines (length c.lines) best
      → Returns (deliver c best) (IsUpdated c running)
  unfolding deliver
  deliver-IsUpdated none none_fits =
      settle_quiet c running c.cpu_irq_line_pending (inl cleared) (none-IsSignalled none_fits)
  deliver-IsUpdated (some b) (best, at_b, cand, lt, least) =
      rw at_b (elim (Bool-cases (ltb best.priority c.cpu_pmr)) [
        | inl strong ↦
            rw (strong, served)
              (elim (Bool-cases (ltb best.priority running)) [
                | inl urgent ↦ rw urgent (
                    settle c running b 1 (inr (best, at_b, cand, lt, least))
                      (
                        λ _. (
                          cpu_on,
                          dist_on,
                          (b, best, at_b, cand, ltb→lt _ _ strong, ltb→lt _ _ urgent),
                        ),
                        λ _. refl,
                      )
                      (inr refl))
                | inr late ↦ rw late (
                    settle_quiet c running b (inr (best, at_b, cand, lt, least))
                      (quiet_of_best best least (inr (ltb→le _ _ late))))
              ])
        | inr weak ↦ rw weak (
            settle_quiet c running c.cpu_irq_line_pending (inl cleared)
              (quiet_of_best best least (inl (ltb→le _ _ weak))))
      ])

-- `IsUpdated` does not depend on the line that was pending before.
IsUpdated-pending :
    (c : Controller) (running p : ℕ) (c' : Controller)
    → IsUpdated (record c { cpu_irq_line_pending = p }) running c'
    → IsUpdated c running c'
IsUpdated-pending c running p c' u = record {
  same_lines = u.same_lines;
  same_running = u.same_running;
  same_pmr = u.same_pmr;
  same_cpu = u.same_cpu;
  same_distributor = u.same_distributor;
  chosen = u.chosen;
  signalled = u.signalled;
  flag = u.flag;
}

-- If the priority value of the running line is `running`, `update` returns; lines, running line,
-- mask and enable bits stay. The pending line is none or the first of the candidates of least
-- priority value, and the interrupt flag is 1 exactly if both interfaces are on and some
-- candidate is below the mask and below `running`; otherwise it is 0.
pub update-IsUpdated :
    (c : Controller) (running : ℕ)
    → running_priority c ≡ ok running
    → Returns (update c) (IsUpdated c running)
unfolding update
update-IsUpdated c running served =
    elim (Bool-cases (not c.cpu_enabled || not c.distributor_enabled)) [
      | inl off ↦ rw off (settle_quiet c running no_line (inl refl) (λ s. ground (arith, s.0, s.1)))
      | inr on ↦ rw on (
          Returns-bind (find_best c.lines 0 none c.lines) (deliver cleared)
            (IsBest c.lines (length c.lines)) (IsUpdated c running) (find_best-IsBest c.lines)
            λ best h.
              Returns-map (deliver cleared best) (IsUpdated cleared running) (IsUpdated c running)
                (λ c' u. IsUpdated-pending c running no_line c' u)
                (deliver-IsUpdated cleared running served refl (ground arith) (ground arith) best
                  h))
    ]
  where
    cleared : Controller
    cleared = record c { cpu_irq_line_pending = no_line }
