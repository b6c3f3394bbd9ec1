-- ===== src/Gic/Level.antt =====
-- The controller implements the interface through which the devices drive their lines.
use icewind.Common.{
  ℕ, ◌<◌, ◌≡◌, ◌≢◌, refl, sym, ◌∙◌, ap, Bool, true, false, Bool-cases, inl, inr, lt_of_get_elem?,
  Option, none, some, arith, set, get_elem?, get_elem?_total, get_elem?-set_self, get_elem?-set_ne,
  Returns, Returns-map,
}
use icewind.Devices.{IrqController}
use icewind.Gic.Defs.{IrqLine, Controller, line_count, update, raise, rescind}
use icewind.Gic.Update.{IsUpdated, update-IsUpdated}
use icewind.Gic.Chain.{IsServing, IsValid, Keeps-set, Chain-running}
use icewind.Gic.Serve.{IsUpdated-IsValid, Keeps-IsServing}

abbrev pub is_raised : Option IrqLine → Bool
is_raised none = false
is_raised (some l) = l.raised

-- the level that a device drives on line `i`
abbrev pub level : Controller → ℕ → Bool
level c i = is_raised (get_elem? c.lines i)

module _ (c : Controller) (v : IsValid c) (i : ℕ) (l l' : IrqLine)
    (at : get_elem? c.lines i ≡ some l) (same_priority : l'.priority ≡ l.priority)
    (same_link : l'.last_active ≡ l.last_active) where
  -- the outcome of `raise` or `rescind` with the new line `l'`
  update-level :
      Returns
        (update (record c { lines = set c.lines i l' }))
        (λ c'. IsValid c' × (level c' i ≡ l'.raised) × ((j : ℕ) → j ≢ i → level c' j ≡ level c j))
  update-level =
      let (r, served, _, _) = Chain-running c' s in
      Returns-map (update c') (IsUpdated c' r) _
        (λ c'' u. (
          IsUpdated-IsValid c' c'' r s u,
          ap (λ ls. is_raised (get_elem? ls i)) u.same_lines
              ∙ ap is_raised (get_elem?-set_self c.lines i l' (lt_of_get_elem? c.lines i at)),
          λ j ne.
              ap (λ ls. is_raised (get_elem? ls j)) u.same_lines
              ∙ ap is_raised (get_elem?-set_ne c.lines i j l' (λ e. ne (sym e))),
        ))
        (update-IsUpdated c' r served)
    where
      c' : Controller
      c' = record c { lines = set c.lines i l' }

      s : IsServing c'
      s =
          Keeps-IsServing c (set c.lines i l') v.serving
            (Keeps-set c.lines i l' at same_priority same_link)

-- In a valid state `raise` of a line that exists returns a valid state in which that line is
-- high and every other line has the level it had: the contract of the devices' interrupt
-- controller.
pub raise-level :
    (c : Controller) (i : ℕ)
    → IsValid c
    → i < line_count
    → Returns
        (raise c i)
        (λ c'. IsValid c' × (level c' i ≡ true) × ((j : ℕ) → j ≢ i → level c' j ≡ level c j))
unfolding raise
raise-level c i v lt =
    let (l, at) = get_elem?_total c.lines i (omega (arith, v.serving.size)) in
    elim (Bool-cases l.raised) [
      | inl up ↦ rw (at, up) (v, ap is_raised at ∙ up, λ j ne. refl)
      | inr down ↦ rw (at, down) (update-level c v i l _ at refl refl)
    ]

-- `rescind` returns, clears the level of its line, and changes the level of no other.
pub rescind-level :
    (c : Controller) (i : ℕ)
    → IsValid c
    → i < line_count
    → Returns
        (rescind c i)
        (λ c'. IsValid c' × (level c' i ≡ false) × ((j : ℕ) → j ≢ i → level c' j ≡ level c j))
unfolding rescind
rescind-level c i v lt =
    let (l, at) = get_elem?_total c.lines i (omega (arith, v.serving.size)) in
    elim (Bool-cases l.raised) [
      | inl up ↦ rw (at, up) (update-level c v i l _ at refl refl)
      | inr down ↦ rw (at, down) (v, ap is_raised at ∙ down, λ j ne. refl)
    ]

abbrev pub controller : IrqController
controller = record {
  State = Controller;
  IsReady = IsValid;
  lines = line_count;
  level = level;
  raise = raise;
  rescind = rescind;
  raise_sets = raise-level;
  rescind_clears = rescind-level;
}
