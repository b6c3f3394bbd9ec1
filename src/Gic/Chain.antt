-- ===== src/Gic/Chain.antt =====
-- The lines being served form a chain through `last_active`, from the one that runs to the ones
-- that it interrupted; each has a smaller priority value than the next.
use native.Mathlib.Decide.{ℕ_discrete}
use icewind.Common.{
  ℕ, suc, ◌≤◌, ◌<◌, ◌≡◌, ◌≢◌, refl, sym, ◌∙◌, ap, some, List, arith, length, set, get_elem?, ok,
  lt_of_get_elem?, get_elem?_total, get_elem?-set_self, get_elem?-set_ne, length-set, ==_of_eq,
  ==_of_ne,
}
use icewind.Gic.Defs.{IrqLine, Controller, no_line, line_count, running_priority}
use icewind.Gic.Update.{IsLine}

-- From line `i` on, the served lines have priority values from `m` on, in increasing order.
pub data Chain (lines : List IrqLine) : ℕ → ℕ → Type 0 where
  stop : {m i : ℕ} → i ≡ no_line → Chain lines m i
  link :
      {m i : ℕ} {l : IrqLine}
      → get_elem? lines i ≡ some l
      → m ≤ l.priority
      → Chain lines (suc l.priority) l.last_active
      → Chain lines m i

-- The lines and the served line are in order. `update` changes none of this.
pub record IsServing (c : Controller) : Type 0 where
  pub size : length c.lines ≡ line_count
  pub bytes : (i : ℕ) (l : IrqLine) → get_elem? c.lines i ≡ some l → l.priority < 256
  pub chain : Chain c.lines 0 c.cpu_irq_line_running

-- The invariant of the controller between two calls.
pub record IsValid (c : Controller) : Type 0 where
  pub serving : IsServing c
  pub pending : IsLine c.lines c.cpu_irq_line_pending

-- Every line of `lines` is in `lines'` with the same priority and the same link.
pub record Keeps (lines lines' : List IrqLine) : Type 0 where
  pub same_length : length lines' ≡ length lines
  pub kept :
      (i : ℕ) (l : IrqLine)
      → get_elem? lines i ≡ some l
      → (l' : IrqLine) × (get_elem? lines' i ≡ some l')
        × (l'.priority ≡ l.priority)
        × (l'.last_active ≡ l.last_active)

module _ {lines lines' : List IrqLine} (k : Keeps lines lines') where
  pub Keeps-Chain : {m i : ℕ} → Chain lines m i → Chain lines' m i
  Keeps-Chain (stop e) = stop e
  Keeps-Chain (link {i = i} {l = l} at le rest) =
      let (l', at', p, a) = k.kept i l at in link at' (rw p le) (rw (p, a) (Keeps-Chain rest))

  pub Keeps-bytes :
      ((i : ℕ) (l : IrqLine) → get_elem? lines i ≡ some l → l.priority < 256)
      → (i : ℕ) (l : IrqLine) → get_elem? lines' i ≡ some l
      → l.priority < 256
  Keeps-bytes bytes i l at =
      let (old, at_old) =
        get_elem?_total lines i (omega (arith, lt_of_get_elem? lines' i at, k.same_length)) in
      let (l', at', p, a) = k.kept i old at_old in
      let same : l' ≡ l = cc in rw (← same) (rw p (bytes i old at_old))

-- A write to one line that leaves its priority and its link alone.
pub Keeps-set :
    (lines : List IrqLine) (i : ℕ) {l : IrqLine} (v : IrqLine)
    → get_elem? lines i ≡ some l
    → v.priority ≡ l.priority
    → v.last_active ≡ l.last_active
    → Keeps lines (set lines i v)
Keeps-set lines i {l} v at p a = record {
  same_length = length-set lines i v;
  kept = λ j old at_j. elim (ℕ_discrete i j) [
    | yes e ↦
        let same : old ≡ l = cc in
        (
          v,
          rw (← e) (get_elem?-set_self lines i v (lt_of_get_elem? lines i at)),
          rw same p,
          rw same a,
        )
    | no ne ↦ (old, get_elem?-set_ne lines i j v ne ∙ at_j, refl, refl)
  ];
}

-- Priority values stay below 256 when one line is overwritten by such a line.
pub bytes-set :
    (lines : List IrqLine) (p : ℕ) (v : IrqLine)
    → ((i : ℕ) (l : IrqLine) → get_elem? lines i ≡ some l → l.priority < 256)
    → v.priority < 256
    → (i : ℕ) (l : IrqLine) → get_elem? (set lines p v) i ≡ some l
    → l.priority < 256
bytes-set lines p v bytes small i l at = elim (ℕ_discrete p i) [
  | yes e ↦
      let hit =
        get_elem?-set_self lines p v
          (omega (arith, lt_of_get_elem? (set lines p v) i at, length-set lines p v)) in
      let same : v ≡ l = cc in rw (← same) small
  | no ne ↦ bytes i l (sym (get_elem?-set_ne lines p i v ne) ∙ at)
]

-- A line with a smaller priority value than those of the chain is not on it.
pub Chain-set :
    {lines : List IrqLine} {m i : ℕ} (p : ℕ) {l : IrqLine} (v : IrqLine)
    → get_elem? lines p ≡ some l
    → l.priority < m
    → Chain lines m i
    → Chain (set lines p v) m i
Chain-set p v at less (stop e) = stop e
Chain-set {lines} {i = i} p {l} v at less (link {l = x} at_x le rest) =
    link (get_elem?-set_ne lines p i v other ∙ at_x) le (Chain-set p v at (omega arith) rest)
  where
    other : p ≢ i
    other e = let same : l ≡ x = cc in absurd (omega (arith, ap (λ (y : IrqLine). y.priority) same))

pub Chain-weaken :
    {lines : List IrqLine} {m i : ℕ} (m' : ℕ) → m' ≤ m → Chain lines m i → Chain lines m' i
Chain-weaken m' h (stop e) = stop e
Chain-weaken m' h (link at le rest) = link at (omega arith) rest

-- No line has the index that stands for none.
pub line_ne_no_line : {c : Controller} → IsServing c → (i : ℕ) → i < length c.lines → i ≢ no_line
line_ne_no_line s i lt e = omega (arith, s.size)

-- While some line is served, `running_priority` is its priority value; else it is above all.
pub Chain-running :
    (c : Controller)
    → IsServing c
    → (r : ℕ) × (running_priority c ≡ ok r)
      × (r ≤ 256)
      × ((m : ℕ) → m ≤ r → m ≤ 256 → Chain c.lines m c.cpu_irq_line_running)
unfolding running_priority
Chain-running c s = go s.chain
  where
    is_line : {i : ℕ} {l : IrqLine} → get_elem? c.lines i ≡ some l → i ≢ no_line
    is_line {i = i} at = line_ne_no_line s i (lt_of_get_elem? c.lines i at)

    go :
        Chain c.lines 0 c.cpu_irq_line_running
        → (r : ℕ) × (running_priority c ≡ ok r)
          × (r ≤ 256)
          × ((m : ℕ) → m ≤ r → m ≤ 256 → Chain c.lines m c.cpu_irq_line_running)
    go (stop e) = (256, rw (==_of_eq _ _ e), omega arith, λ m h h'. stop e)
    go (link {l = l} at le rest) = (
      l.priority,
      rw (==_of_ne _ _ (is_line at), at),
      omega (arith, s.bytes _ l at),
      λ m h h'. link at h rest,
    )
