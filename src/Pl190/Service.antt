-- ===== src/Pl190/Service.antt =====
-- Entering the service routine of an interrupt (`read_var`) and leaving it (`write_var`).
use mathlib.Core.Option.{some_inj}
use native.Mathlib.Nat.{add-zero}
use icewind.Common.{
  ℕ, zero, suc, ◌+◌, ◌≤◌, ◌<◌, bit_and, List, ◌≡◌, ◌≢◌, ◌∙◌, inl, inr, refl, sym, ap, length, set,
  get_elem?, get_elem?_total, some, arith, lt→ltb, get_elem?-set_self, get_elem?-set_ne, length-set,
  lt_of_get_elem?, ◌==◌, ==_of_eq, ==_of_ne, get_or, get_elem?-eq-get_or, ok, panic, Returns,
  Returns-bind, Returns-map, Returns-elim, Bool-cases, ==→ne, ==_iff, none, get_elem?-beyond,
}
use icewind.Devices.{IrqController}
use icewind.Pl190.Defs.{Pl190, raw_status, update_lines, find_vector, enter, read_var, write_var}
use icewind.Pl190.Driven.{IsDriven, IsShaped, IsRefreshed, reshape, update_lines-IsRefreshed}

-- A line of `status` is in the mask at place `j`.
abbrev pub Wants : ℕ → List ℕ → ℕ → Type 0
Wants status masks j = bit_and status (get_or masks j 0) ≢ 0

-- None of the masks after the first `n` vectors from `i` on has a line of `status`.
abbrev pub Quiet : ℕ → List ℕ → ℕ → ℕ → Type 0
Quiet status masks i n = (j : ℕ) → i ≤ j → j < i + n → bit_and status (get_or masks (j + 1) 0) ≡ 0

find_vector-none :
    (n i status : ℕ) (masks : List ℕ)
    → i + n < length masks
    → Quiet status masks i n
    → find_vector n i status masks ≡ ok 0
unfolding find_vector
find_vector-none zero i status masks size quiet = refl
find_vector-none (suc n) i status masks size quiet =
    let at = get_elem?-eq-get_or masks (i + 1) 0 (omega arith) in
    let here = ==_of_eq _ 0 (quiet i (omega arith) (omega arith)) in
    rw (at, here)
      (find_vector-none n (i + 1) status masks (omega arith)
        (λ j lo hi. quiet j (omega arith) (omega arith)))

-- `d` quiet vectors, then one that wants service.
find_vector-first :
    (d n i status : ℕ) (masks : List ℕ)
    → d < n
    → i + n < length masks
    → Quiet status masks i d
    → Wants status masks (i + d + 1)
    → find_vector n i status masks ≡ ok (i + d)
unfolding find_vector
find_vector-first d zero i status masks lt size quiet wants = absurd (omega arith)
find_vector-first zero (suc n) i status masks lt size quiet wants =
    let at = get_elem?-eq-get_or masks (i + 1) 0 (omega arith) in
    let place : i + 1 ≡ i + 0 + 1 = omega arith in
    let here = ==_of_ne (bit_and status (get_or masks (i + 1) 0)) 0 (rw place wants) in
    rw (at, here, add-zero) refl
find_vector-first (suc d) (suc n) i status masks lt size quiet wants =
    let at = get_elem?-eq-get_or masks (i + 1) 0 (omega arith) in
    let here = ==_of_eq _ 0 (quiet i (omega arith) (omega arith)) in
    let place : i + 1 + d ≡ i + suc d = omega arith in
    rw (at, here)
      (find_vector-first d n (i + 1) status masks (omega arith) (omega arith)
          (λ j lo hi. quiet j (omega arith) (omega arith)) (rw place wants)
        ∙ ap ok place)

set_le :
    (xs : List ℕ) (v x : ℕ)
    → ((i u : ℕ) → get_elem? xs i ≡ some u → u ≤ 17)
    → x ≤ 17
    → (i u : ℕ) → get_elem? (set xs v x) i ≡ some u
    → u ≤ 17
set_le xs v x h le i u e = elim (Bool-cases (v == i)) [
  | inr ne ↦ h i u (sym (get_elem?-set_ne xs v i x (==→ne v i ne)) ∙ e)
  | inl hit ↦
      let same = (==_iff v i).0 hit in
      let inside : v < length xs =
        omega (arith, lt_of_get_elem? (set xs v x) i e, length-set xs v x, same) in
      let found : some x ≡ some u =
        sym (get_elem?-set_self xs v x inside) ∙ ap (get_elem? (set xs v x)) same ∙ e in
      omega (arith, some_inj.0 found, le)
]

module _ (I : IrqController) where
  -- `p'` serves the vector `v`, with the priority of `p` kept for the way back.
  pub record Serves (v : ℕ) (p p' : Pl190 I) : Type 0 where
    pub driven : IsDriven I p'
    pub serves : p'.priority ≡ v
    pub keeps : get_elem? p'.prev_priority v ≡ some p.priority
    pub addresses : p'.vector_addrs ≡ p.vector_addrs

  enter-Serves :
      (p : Pl190 I) (v : ℕ) → IsDriven I p → v < p.priority → Returns (enter I p v) (Serves v p)
  unfolding enter
  enter-Serves p v d lt =
      let w = d.wired in
      let le : p.priority ≤ 17 = w.0.priority_le in
      let size : length p.prev_priority ≡ 17 = w.0.length_previous in
      let first = lt→ltb v p.priority lt in
      let inside = lt→ltb v (length p.prev_priority) (omega (arith, size)) in
      let previous = set p.prev_priority v p.priority in
      let q : Pl190 I = record p { prev_priority = previous; priority = v } in
      let bounded : (i u : ℕ) → get_elem? previous i ≡ some u → u ≤ 17 =
        set_le p.prev_priority v p.priority w.0.previous_le le in
      let shape : IsShaped v previous p.prio_mask p.vector_addrs p.vector_controls =
        reshape w.0 (omega arith) (length-set p.prev_priority v p.priority ∙ size) bounded
          w.0.length_masks in
      rw (first, inside)
        (Returns-map (update_lines I q) (IsRefreshed I q) (Serves v p)
          (λ p' done. record {
            driven = done.driven;
            serves = ap (λ r. r.priority) done.same;
            keeps =
                ap (λ r. get_elem? r.prev_priority v) done.same
                ∙ get_elem?-set_self p.prev_priority v p.priority (omega (arith, size));
            addresses = ap (λ r. r.vector_addrs) done.same;
          })
          (update_lines-IsRefreshed I q (shape, w.1)))

  read_var-Serves :
      (p : Pl190 I) (v : ℕ)
      → IsDriven I p
      → find_vector p.priority 0 (raw_status I p) p.prio_mask ≡ ok v
      → v < p.priority
      → v < 16
      → Returns (read_var I p) (λ out. Serves v p out.0 × (get_elem? p.vector_addrs v ≡ some out.1))
  unfolding read_var
  read_var-Serves p v d found below small =
      let not_default = ==_of_ne v 17 (λ e. omega arith) in
      rw (found, not_default)
        (Returns-bind (enter I p v) _ (Serves v p) _ (enter-Serves p v d below) (λ p' s.
          let (a, at) =
            get_elem?_total p.vector_addrs v (omega (arith, d.wired.0.length_addresses)) in
          let same : get_elem? p'.vector_addrs p'.priority ≡ some a =
            rw (s.addresses, s.serves) at in
          rw same (s, at)))

  -- When no vector below the served priority is wanted, and that priority is not 0, `read_var`
  -- returns: it serves vector 0 and answers with the address of vector 0. The old priority is
  -- kept at its place.
  pub read_var-none :
      (p : Pl190 I)
      → IsDriven I p
      → 0 < p.priority
      → Quiet (raw_status I p) p.prio_mask 0 p.priority
      → Returns (read_var I p) (λ out. Serves 0 p out.0 × (get_elem? p.vector_addrs 0 ≡ some out.1))
  read_var-none p d positive quiet =
      read_var-Serves p 0 d
        (find_vector-none p.priority 0 (raw_status I p) p.prio_mask
          (omega (arith, d.wired.0.length_masks, d.wired.0.priority_le)) quiet)
        positive (omega arith)

  -- With the idle priority 17, when a pending interrupt is in the priority mask at place 17 and
  -- none is in the masks at places 1 to 16, `read_var` panics.
  pub read_var-panics :
      (p : Pl190 I)
      → IsDriven I p
      → p.priority ≡ 17
      → Quiet (raw_status I p) p.prio_mask 0 16
      → Wants (raw_status I p) p.prio_mask 17
      → read_var I p ≡ panic
  unfolding read_var
  read_var-panics p d idle quiet wants =
      let size : 17 < length p.prio_mask = omega (arith, d.wired.0.length_masks) in
      let found : find_vector p.priority 0 (raw_status I p) p.prio_mask ≡ ok 16 =
        rw idle
          (find_vector-first 16 17 0 (raw_status I p) p.prio_mask (omega arith) size quiet wants) in
      let (p', e, s) =
        Returns-elim (enter I p 16) (Serves 16 p) (enter-Serves p 16 d (omega (arith, idle))) in
      let outside : get_elem? p'.vector_addrs 16 ≡ none =
        get_elem?-beyond p'.vector_addrs 16
          (omega (arith, ap length s.addresses, d.wired.0.length_addresses)) in
      rw (found, e, s.serves, outside) refl

  -- When no vector below the served priority is wanted, and that priority is not 0, `read_var`
  -- and then `write_var` return, the served priority is again what it was and is still kept at
  -- place 0, and both lines follow the status.
  pub write_var-read_var :
      (p : Pl190 I)
      → IsDriven I p
      → 0 < p.priority
      → Quiet (raw_status I p) p.prio_mask 0 p.priority
      → Returns (read_var I p) (λ out. Returns (write_var I out.0) (λ after.
        IsDriven I after
        × (after.priority ≡ p.priority)
        × (get_elem? after.prev_priority 0 ≡ some p.priority)))
  unfolding write_var
  write_var-read_var p d positive quiet =
      Returns-map (read_var I p) _ _
        (λ out (s, _).
          let served = lt→ltb out.0.priority 17 (omega (arith, s.serves, d.wired.0.priority_le)) in
          let at : get_elem? out.0.prev_priority out.0.priority ≡ some p.priority =
            rw s.serves s.keeps in
          let w = s.driven.wired in
          let shape : IsShaped p.priority out.0.prev_priority out.0.prio_mask out.0.vector_addrs
              out.0.vector_controls =
            reshape w.0 d.wired.0.priority_le w.0.length_previous w.0.previous_le
              w.0.length_masks in
          let q : Pl190 I = record out.0 { priority = p.priority } in
          rw (served, at)
            (Returns-map (update_lines I q) (IsRefreshed I q) _
              (λ after done. (
                done.driven,
                ap (λ r. r.priority) done.same,
                ap (λ r. get_elem? r.prev_priority 0) done.same ∙ s.keeps,
              ))
              (update_lines-IsRefreshed I q (shape, w.1))))
        (read_var-none p d positive quiet)
