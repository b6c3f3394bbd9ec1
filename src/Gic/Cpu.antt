-- ===== src/Gic/Cpu.antt =====
-- `acknowledge` and `eoi`: entering and leaving the service of a line.
use native.Mathlib.Decide.{dec_lt, ℕ_discrete}
use icewind.Common.{
  ℕ, zero, suc, ◌+◌, ◌≤◌, ◌<◌, ◌≡◌, ◌≢◌, refl, sym, ◌∙◌, ap, ◌⊎◌, inl, inr, some, List, arith,
  length, set, get_elem?, ok, false, Bool-cases, lt_of_get_elem?, get_elem?_total,
  get_elem?-set_self, length-set, set_eq_self, ==_iff, ◌==◌, leb, Returns, Returns-bind,
  Returns-map, ==_of_ne, ==_of_eq, lt→leb, le→leb, lt→ltb, ◌^◌, ◌>>=◌,
}
use icewind.Gic.Defs.{
  IrqLine, Controller, no_line, line_count, running_priority, update, unlink, acknowledge, eoi,
}
use icewind.Gic.Update.{IsUpdated, update-IsUpdated}
use icewind.Gic.Chain.{
  Chain, stop, link, IsServing, IsValid, bytes-set, Chain-set, Chain-running, Chain-weaken,
  line_ne_no_line,
}
use icewind.Gic.Serve.{IsUpdated-IsValid, update-IsValid}

-- The controller as `acknowledge` hands it to `update`: line `p` runs, and links to the one before.
abbrev pub serve : Controller → ℕ → IrqLine → Controller
serve c p l = record c {
  lines = set c.lines p (record l { last_active = c.cpu_irq_line_running; pending = false });
  cpu_irq_line_running = p;
}

module _ (c : Controller) (v : IsValid c) (l : IrqLine)
    (at : get_elem? c.lines c.cpu_irq_line_pending ≡ some l) (r : ℕ)
    (served : running_priority c ≡ ok r) (less : l.priority < r) where
  serve-IsServing : IsServing (serve c c.cpu_irq_line_pending l)
  serve-IsServing = record {
    size = rw length-set v.serving.size;
    bytes = bytes-set c.lines p l' v.serving.bytes small;
    chain =
        link (get_elem?-set_self c.lines p l' (lt_of_get_elem? c.lines p at)) (omega arith)
          (Chain-set p l' at (omega arith) (upper (omega arith) (omega (arith, small))));
  }
    where
      p : ℕ
      p = c.cpu_irq_line_pending

      l' : IrqLine
      l' = record l { last_active = c.cpu_irq_line_running; pending = false }

      small : l.priority < 256
      small = v.serving.bytes p l at

      upper :
          suc l.priority ≤ r
          → suc l.priority ≤ 256
          → Chain c.lines (suc l.priority) c.cpu_irq_line_running
      upper le le' =
          let (r', served', _, up) = Chain-running c v.serving in
          let same : r' ≡ r = cc in up (suc l.priority) (rw same le) le'

  pending_is_line : c.cpu_irq_line_pending ≢ no_line
  pending_is_line = line_ne_no_line v.serving _ (lt_of_get_elem? c.lines c.cpu_irq_line_pending at)

  serve-running : running_priority (serve c c.cpu_irq_line_pending l) ≡ ok l.priority
  unfolding running_priority
  serve-running = rw (
    ==_of_ne _ _ pending_is_line,
    get_elem?-set_self c.lines c.cpu_irq_line_pending
        (record l { last_active = c.cpu_irq_line_running; pending = false })
        (lt_of_get_elem? c.lines c.cpu_irq_line_pending at),
  )

  -- In a valid state where the pending line has a priority value below that of the running one,
  -- `acknowledge` returns the index of the pending line. That line runs, is no longer pending
  -- and links to the line that ran before, no other line changes, and `update` has chosen anew.
  pub acknowledge_taken : Returns (acknowledge c) (λ (c', id).
      (id ≡ c.cpu_irq_line_pending) × IsUpdated (serve c c.cpu_irq_line_pending l) l.priority c')
  unfolding acknowledge
  acknowledge_taken =
      rw (==_of_ne _ _ pending_is_line, at, served, lt→leb _ _ less)
        (Returns-bind (update next) _ (IsUpdated next l.priority) _
          (update-IsUpdated next l.priority serve-running)
          λ c' u. rw (lt→ltb c.cpu_irq_line_pending (2 ^ 32) fits) (refl, u))
    where
      next : Controller
      next = serve c c.cpu_irq_line_pending l

      fits : c.cpu_irq_line_pending < 2 ^ 32
      fits = omega (arith, lt_of_get_elem? c.lines c.cpu_irq_line_pending at, v.serving.size)

-- `acknowledge` answers 1023 and changes nothing if the pending line does not beat the served one.
acknowledge_refused :
    (c : Controller) (l : IrqLine) (r : ℕ)
    → c.cpu_irq_line_pending ≢ no_line
    → get_elem? c.lines c.cpu_irq_line_pending ≡ some l
    → running_priority c ≡ ok r
    → r ≤ l.priority
    → acknowledge c ≡ ok (c, 1023)
unfolding acknowledge
acknowledge_refused c l r ne at served le = rw (==_of_ne _ _ ne, at, served, le→leb _ _ le)

-- Nothing is done for an index that is no line's, or while no line is served.
pub eoi_nothing :
    (c : Controller) (irqid : ℕ)
    → (length c.lines ≤ irqid) ⊎ (c.cpu_irq_line_running ≡ no_line)
    → eoi c irqid ≡ ok c
unfolding eoi
eoi_nothing c irqid (inl out) = rw (le→leb _ _ out)
eoi_nothing c irqid (inr e) = elim (Bool-cases (leb (length c.lines) irqid)) [
  | inl out ↦ rw out
  | inr in_range ↦ rw (in_range, ==_of_eq _ _ e)
]

-- With nothing pending `acknowledge` answers 1023, and forgets which line was served.
pub acknowledge_spurious :
    (c : Controller)
    → c.cpu_irq_line_pending ≡ no_line
    → acknowledge c ≡ ok (record c { cpu_irq_line_running = no_line }, 1023)
unfolding acknowledge
acknowledge_spurious c e = rw (==_of_eq _ _ e)

-- `acknowledge` returns, keeps the invariant, and answers with a line's index or with 1023.
pub acknowledge-IsValid :
    (c : Controller)
    → IsValid c
    → Returns (acknowledge c) (λ (c', id). IsValid c' × ((id ≡ 1023) ⊎ (id < length c.lines)))
acknowledge-IsValid c v = elim (v.pending) [
  | inl e ↦ rw (acknowledge_spurious c e) (
    record {
      serving = record { size = v.serving.size; bytes = v.serving.bytes; chain = stop refl };
      pending = inl e;
    },
    inl refl,
  )
  | inr lt ↦
      let (l, at) = get_elem?_total c.lines c.cpu_irq_line_pending lt in
      let (r, served, _, _) = Chain-running c v.serving in
      elim (dec_lt l.priority r) [
        | yes less ↦
            Returns-map (acknowledge c) _ _
              (λ (c', id) (e, u). (
                IsUpdated-IsValid _ c' l.priority (serve-IsServing c v l at r served less) u,
                inr (rw e lt),
              ))
              (acknowledge_taken c v l at r served less)
        | no more ↦
            rw (acknowledge_refused c l r (line_ne_no_line v.serving _ lt) at served (omega arith))
              (v, inl refl)
      ]
]

-- Along an ordered chain the loop of `eoi` ends, and what it writes is what was there.
unlink_idle :
    (lines : List IrqLine) (irq : IrqLine) (irqid fuel m i : ℕ)
    → ((i : ℕ) (l : IrqLine) → get_elem? lines i ≡ some l → (l.priority < 256) × (i ≢ no_line))
    → get_elem? lines irqid ≡ some irq
    → m ≤ 256
    → 257 ≤ m + fuel
    → Chain lines m i
    → unlink fuel lines irq irqid i ≡ ok lines
unfolding unlink
unlink_idle lines irq irqid zero m i bytes at lo hi ch = absurd (omega arith)
unlink_idle lines irq irqid (suc fuel) m i bytes at lo hi (stop e) =
    rw (==_of_eq i no_line e, unlink) refl
unlink_idle lines irq irqid (suc fuel) m i bytes at lo hi (link {l = l} at_i le rest) =
    let (small, line) = bytes i l at_i in
    elim (Bool-cases (i == irqid)) [
      | inl hit ↦
          rw (==_of_ne i no_line line, at_i, hit, unlink)
            (ap ok (set_eq_self lines i (same ((==_iff i irqid).0 hit))))
      | inr miss ↦
          rw (==_of_ne i no_line line, at_i, miss, unlink)
            (unlink_idle lines irq irqid fuel (suc l.priority) l.last_active bytes at small
              (omega (arith, small)) rest)
    ]
  where
    same : i ≡ irqid → get_elem? lines i ≡ some (record l { last_active = irq.last_active })
    same e =
        let is_irq : l ≡ irq = cc in
        at_i ∙ ap some (ap (λ (x : IrqLine). record l { last_active = x.last_active }) is_irq)

-- The end of the service of the line that runs: the line before it on the chain runs again.
pub eoi_running :
    (c : Controller) (l : IrqLine)
    → IsValid c
    → get_elem? c.lines c.cpu_irq_line_running ≡ some l
    → eoi c c.cpu_irq_line_running ≡ update (record c { cpu_irq_line_running = l.last_active })
unfolding eoi
eoi_running c l v at =
    let lt = lt_of_get_elem? c.lines c.cpu_irq_line_running at in
    rw (
      lt→leb _ _ lt,
      ==_of_ne _ _ (line_ne_no_line v.serving _ lt),
      at,
      ==_of_eq c.cpu_irq_line_running c.cpu_irq_line_running refl,
    )

-- In a valid state in which a line runs, the end of interrupt for another line that exists is
-- the same as `update`: it takes nothing off the chain of served lines.
pub eoi_other :
    (c : Controller) (irqid : ℕ)
    → IsValid c
    → irqid < length c.lines
    → c.cpu_irq_line_running < length c.lines
    → irqid ≢ c.cpu_irq_line_running
    → eoi c irqid ≡ update c
unfolding eoi
eoi_other c irqid v lt lt' ne =
    let (current, at_current) = get_elem?_total c.lines c.cpu_irq_line_running lt' in
    let (irq, at_irq) = get_elem?_total c.lines irqid lt in
    rw (
      lt→leb _ _ lt,
      ==_of_ne _ _ (line_ne_no_line v.serving _ lt'),
      at_current,
      at_irq,
      ==_of_ne irqid c.cpu_irq_line_running ne,
      unlink_idle c.lines irq irqid (line_count + 1) 0 c.cpu_irq_line_running bounds at_irq
          (omega arith) (omega arith) v.serving.chain,
    )
  where
    bounds :
        (i : ℕ) (l : IrqLine) → get_elem? c.lines i ≡ some l → (l.priority < 256) × (i ≢ no_line)
    bounds i l at =
        (v.serving.bytes i l at, line_ne_no_line v.serving i (lt_of_get_elem? c.lines i at))

-- `eoi` returns and keeps the invariant, whatever number the guest writes.
pub eoi-IsValid : (c : Controller) (irqid : ℕ) → IsValid c → Returns (eoi c irqid) IsValid
eoi-IsValid c irqid v = go v.serving.chain
  where
    go : Chain c.lines 0 c.cpu_irq_line_running → Returns (eoi c irqid) IsValid
    go (stop e) = rw (eoi_nothing c irqid (inr e)) v
    go (link {l = l} at le rest) = elim (dec_lt irqid (length c.lines)) [
      | no out ↦ rw (eoi_nothing c irqid (inl (omega arith))) v
      | yes lt ↦ elim (ℕ_discrete irqid c.cpu_irq_line_running) [
        | yes e ↦
            rw (e, eoi_running c l v at)
              (update-IsValid _ (record {
                size = v.serving.size;
                bytes = v.serving.bytes;
                chain = Chain-weaken 0 (omega arith) rest;
              }))
        | no ne ↦
            rw (eoi_other c irqid v lt (lt_of_get_elem? c.lines _ at) ne)
              (update-IsValid c v.serving)
      ]
    ]

-- What `eoi` of the served line does, field by field.
eoi_running-IsUpdated :
    (c : Controller) (l : IrqLine)
    → IsValid c
    → get_elem? c.lines c.cpu_irq_line_running ≡ some l
    → (r : ℕ) × Returns
        (eoi c c.cpu_irq_line_running)
        (IsUpdated (record c { cpu_irq_line_running = l.last_active }) r)
eoi_running-IsUpdated c l v at =
    let (r, served, _, _) = Chain-running back (back-IsServing v.serving.chain) in
    (r, rw (eoi_running c l v at) (update-IsUpdated back r served))
  where
    back : Controller
    back = record c { cpu_irq_line_running = l.last_active }

    back-IsServing : Chain c.lines 0 c.cpu_irq_line_running → IsServing back
    back-IsServing (stop e) = absurd (line_ne_no_line v.serving _ (lt_of_get_elem? c.lines _ at) e)
    back-IsServing (link {l = x} at_x le rest) =
        let same : x ≡ l = cc in
        record {
          size = v.serving.size;
          bytes = v.serving.bytes;
          chain = rw same at (Chain-weaken 0 (omega arith) rest);
        }

-- In a valid state where the pending line has a priority value below that of the running one, an
-- acknowledge followed by the end of interrupt for the line it answered returns, and gives back
-- the line that ran before. The lines are then those that the acknowledge left.
pub eoi-acknowledge :
    (c : Controller) (l : IrqLine) (r : ℕ)
    → IsValid c
    → get_elem? c.lines c.cpu_irq_line_pending ≡ some l
    → running_priority c ≡ ok r
    → l.priority < r
    → Returns (acknowledge c >>= λ (c', id). eoi c' id) (λ c'.
      (c'.cpu_irq_line_running ≡ c.cpu_irq_line_running)
      × (c'.lines ≡ (serve c c.cpu_irq_line_pending l).lines))
eoi-acknowledge c l r v at served less =
    Returns-bind (acknowledge c) _ _ _ (acknowledge_taken c v l at r served less) after
  where
    l' : IrqLine
    l' = record l { last_active = c.cpu_irq_line_running; pending = false }

    Restored : Controller → Type 0
    Restored c' =
        (c'.cpu_irq_line_running ≡ c.cpu_irq_line_running)
        × (c'.lines ≡ set c.lines c.cpu_irq_line_pending l')

    after :
        (a : Controller × ℕ)
        → (a.1 ≡ c.cpu_irq_line_pending)
          × IsUpdated (serve c c.cpu_irq_line_pending l) l.priority a.0
        → Returns (eoi a.0 a.1) Restored
    after (c', id) (e, u) =
        let v' =
          IsUpdated-IsValid (serve c c.cpu_irq_line_pending l) c' l.priority
            (serve-IsServing c v l at r served less) u in
        let at' : get_elem? c'.lines c'.cpu_irq_line_running ≡ some l' =
          rw (u.same_lines, u.same_running)
            (get_elem?-set_self c.lines c.cpu_irq_line_pending l'
              (lt_of_get_elem? c.lines c.cpu_irq_line_pending at)) in
        let (r', back) = eoi_running-IsUpdated c' l' v' at' in
        let same_id : id ≡ c'.cpu_irq_line_running = e ∙ sym u.same_running in
        rw same_id (
          Returns-map (eoi c' c'.cpu_irq_line_running) _ Restored
            (λ c'' w. (w.same_running, w.same_lines ∙ u.same_lines)) back)
