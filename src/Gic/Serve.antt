-- ===== src/Gic/Serve.antt =====
-- Each call of the controller returns and keeps its invariant.
use icewind.Common.{
  ℕ, zero, suc, ◌+◌, ◌<◌, ◌≡◌, refl, ◌∙◌, ap, ◌⊎◌, inl, inr, some, List, arith, length, get_elem?,
  Bool-cases, get_elem?_total, Returns, Returns-map,
}
use icewind.Gic.Defs.{
  IrqLine, Controller, no_line, line_count, fresh_lines, fresh_line, new, update, raise, rescind,
}
use icewind.Gic.Update.{IsLine, IsUpdated, update-IsUpdated}
use icewind.Gic.Update.Best.{IsBest}
use icewind.Gic.Chain.{
  stop, IsServing, IsValid, Keeps, Keeps-Chain, Keeps-bytes, Keeps-set, Chain-running,
}

fresh_lines_bytes :
    (i n j : ℕ) (l : IrqLine) → get_elem? (fresh_lines i n) j ≡ some l → l.priority < 256
unfolding fresh_lines
fresh_lines_bytes i zero j l at = absurd (cc)
fresh_lines_bytes i (suc n) zero l at =
    let same : fresh_line i ≡ l = cc in rw (← same) (omega arith)
fresh_lines_bytes i (suc n) (suc j) l at = fresh_lines_bytes (i + 1) n j l at

length-fresh_lines : (i n : ℕ) → length (fresh_lines i n) ≡ n
unfolding fresh_lines
length-fresh_lines i zero = refl
length-fresh_lines i (suc n) = ap suc (length-fresh_lines (i + 1) n)

-- A new controller is in order.
pub new-IsValid : IsValid new
unfolding new
new-IsValid = record {
  serving = record {
    size = length-fresh_lines 0 line_count;
    bytes = fresh_lines_bytes 0 line_count;
    chain = stop refl;
  };
  pending = inl refl;
}

chosen_IsLine :
    (lines : List IrqLine) (p : ℕ)
    → (p ≡ no_line) ⊎ IsBest lines (length lines) (some p)
    → IsLine lines p
chosen_IsLine lines p (inl e) = inl e
chosen_IsLine lines p (inr (best, at, cand, lt, least)) = inr lt

module _ (c c' : Controller) (r : ℕ) (s : IsServing c) (u : IsUpdated c r c') where
  pub IsUpdated-IsServing : IsServing c'
  IsUpdated-IsServing = record {
    size = rw u.same_lines s.size;
    bytes = rw u.same_lines s.bytes;
    chain = rw (u.same_lines, u.same_running) s.chain;
  }

  pub IsUpdated-IsValid : IsValid c'
  IsUpdated-IsValid = record {
    serving = IsUpdated-IsServing;
    pending = rw u.same_lines (chosen_IsLine _ _ u.chosen);
  }

-- `update` returns with the lines, their chain and the pending line in order.
pub update-IsValid : (c : Controller) → IsServing c → Returns (update c) IsValid
update-IsValid c s =
    let (r, served, _, _) = Chain-running c s in
    Returns-map (update c) (IsUpdated c r) IsValid (λ c' u. IsUpdated-IsValid c c' r s u)
      (update-IsUpdated c r served)

pub Keeps-IsServing :
    (c : Controller) (lines : List IrqLine)
    → IsServing c
    → Keeps c.lines lines
    → IsServing (record c { lines = lines })
Keeps-IsServing c lines s k = record {
  size = k.same_length ∙ s.size;
  bytes = Keeps-bytes k s.bytes;
  chain = Keeps-Chain k s.chain;
}

pub Keeps-IsValid :
    (c : Controller) (lines : List IrqLine)
    → IsValid c
    → Keeps c.lines lines
    → IsValid (record c { lines = lines })
Keeps-IsValid c lines v k = record {
  serving = Keeps-IsServing c lines v.serving k;
  pending = rw k.same_length v.pending;
}

-- Raising a line that exists returns and keeps the invariant.
pub raise-IsValid :
    (c : Controller) (i : ℕ) → IsValid c → i < length c.lines → Returns (raise c i) IsValid
unfolding raise
raise-IsValid c i v lt =
    let (l, at) = get_elem?_total c.lines i lt in
    rw at (elim (Bool-cases l.raised) [
      | inl up ↦ rw up v
      | inr down ↦
          rw down
            (update-IsValid _ (Keeps-IsServing c _ v.serving (Keeps-set c.lines i _ at refl refl)))
    ])

-- Rescinding a line that exists returns and keeps the invariant.
pub rescind-IsValid :
    (c : Controller) (i : ℕ) → IsValid c → i < length c.lines → Returns (rescind c i) IsValid
unfolding rescind
rescind-IsValid c i v lt =
    let (l, at) = get_elem?_total c.lines i lt in
    rw at (elim (Bool-cases l.raised) [
      | inl up ↦
          rw up
            (update-IsValid _ (Keeps-IsServing c _ v.serving (Keeps-set c.lines i _ at refl refl)))
      | inr down ↦ rw down v
    ])
