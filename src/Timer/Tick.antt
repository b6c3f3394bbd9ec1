-- ===== src/Timer/Tick.antt =====
-- The line of the timer after a tick, and when it goes high.
use icewind.Common.{
  ℕ, zero, suc, ◌+◌, ◌-◌, ◌*◌, ◌/◌, ◌%◌, ◌^◌, ◌<◌, ◌≤◌, ◌≡◌, ◌≢◌, refl, sym, ap, ◌∙◌, arith, Bool,
  true, false, not, ◌&&◌, leb, lt→ltb, le→ltb, lt→leb, le→leb, if◌then◌else◌, u64, Outcome, ok,
  Returns, Returns-map, Returns-bind, ◌>>=◌,
}
use mathlib.Core.Path.{ap₂}
use native.Mathlib.Decide.{dec_lt}
use icewind.Devices.{IrqController, drive, drive_lem}
use icewind.Timer.Defs.{GenericTimer, tick, counts, virtual_count, is_reached}

-- The signed test is the comparison, for numbers that are not negative as `i64`.
is_reached_lem :
    (count compare_value : ℕ)
    → count < 2 ^ 63
    → compare_value < 2 ^ 63
    → is_reached count compare_value ≡ leb compare_value count
unfolding is_reached
is_reached_lem count compare_value hc hv = elim (dec_lt count compare_value) [
  | yes below ↦
      let high : 2 ^ 63 ≤ (count + 2 ^ 64 - compare_value) % 2 ^ 64 = omega arith in
      le→ltb ((count + 2 ^ 64 - compare_value) % 2 ^ 64) (2 ^ 63) high
      ∙ sym (lt→leb count compare_value below)
  | no above ↦
      let low : (count + 2 ^ 64 - compare_value) % 2 ^ 64 < 2 ^ 63 = omega arith in
      lt→ltb ((count + 2 ^ 64 - compare_value) % 2 ^ 64) (2 ^ 63) low
      ∙ sym (le→leb compare_value count (omega arith))
]

one_mul : (k : ℕ) → k ≡ 1 * k
one_mul k = omega arith

and_true : (b : Bool) → (b && true) ≡ b
and_true true = refl
and_true false = refl

module _ (I : IrqController) where
  open I use {State, IsReady, lines, level}

  -- The timer runs, its line is one that the controller has, and may be raised.
  pub record IsCounting (t : GenericTimer I) : Type 0 where
    pub is_enabled : t.enabled ≡ true
    pub ready : IsReady t.irq_controller
    pub in_range : t.irq_line < lines

  -- the condition that the tick of `time` nanoseconds finds
  abbrev pub condition : GenericTimer I → ℕ → Bool
  condition t time =
      if t.timer_enabled
      then is_reached (virtual_count I (record t { counter = u64 (t.counter + counts I t time) }))
          t.compare_value
      else false

  pub record IsTicked (t : GenericTimer I) (time : ℕ) (t' : GenericTimer I) : Type 0 where
    pub counting : IsCounting t'
    pub counted : t'.counter ≡ u64 (t.counter + counts I t time)
    pub found : t'.timer_condition_met ≡ condition t time
    pub line :
        level t'.irq_controller t.irq_line ≡ (condition t time && not t.timer_interrupt_masked)
    pub other_lines :
        (j : ℕ) → j ≢ t.irq_line → level t'.irq_controller j ≡ level t.irq_controller j
    pub same_line : t'.irq_line ≡ t.irq_line
    pub same_enable : t'.timer_enabled ≡ t.timer_enabled
    pub same_mask : t'.timer_interrupt_masked ≡ t.timer_interrupt_masked
    pub same_offset : t'.virtual_offset ≡ t.virtual_offset
    pub same_compare : t'.compare_value ≡ t.compare_value
    pub same_frequency : t'.frequency ≡ t.frequency

  pub tick-IsTicked :
      (t : GenericTimer I) (time : ℕ) → IsCounting t → Returns (tick I t time) (IsTicked t time)
  unfolding tick
  tick-IsTicked t time h =
      let raised : Bool = condition t time && not t.timer_interrupt_masked in
      let running : not t.enabled ≡ false = ap not h.is_enabled in
      rw running (
        Returns-bind (drive I raised t.irq_controller t.irq_line)
          (λ controller. ok (record t {
            counter = u64 (t.counter + counts I t time);
            timer_condition_met = condition t time;
            irq_controller = controller;
          }))
          (λ c.
            IsReady c
            × (level c t.irq_line ≡ raised)
            × ((j : ℕ) → j ≢ t.irq_line → level c j ≡ level t.irq_controller j))
          (IsTicked t time) (drive_lem I raised t.irq_controller t.irq_line h.ready h.in_range)
          (λ c driven. record {
            counting = record {
              is_enabled = h.is_enabled;
              ready = driven.0;
              in_range = h.in_range;
            };
            counted = refl;
            found = refl;
            line = driven.1;
            other_lines = driven.2;
            same_line = refl;
            same_enable = refl;
            same_mask = refl;
            same_offset = refl;
            same_compare = refl;
            same_frequency = refl;
          }))

  -- `n` ticks of `time` nanoseconds each
  unfoldable pub ticks : GenericTimer I → ℕ → ℕ → Outcome (GenericTimer I)
  ticks t zero time = ok t
  ticks t (suc n) time = tick I t time >>= λ t'. ticks t' n time

  -- The virtual timer is on and not masked, its comparison does not see a number that is negative
  -- as `i64`, also not when `k` more counts have gone by.
  pub record IsArmed (t : GenericTimer I) (k : ℕ) : Type 0 where
    pub counting : IsCounting t
    pub is_armed : t.timer_enabled ≡ true
    pub unmasked : t.timer_interrupt_masked ≡ false
    pub started : t.virtual_offset ≤ t.counter
    pub stays_small : t.counter + k < 2 ^ 63
    pub small : t.compare_value < 2 ^ 63

  virtual_count_lem :
      (t : GenericTimer I)
      → t.virtual_offset ≤ t.counter
      → t.counter < 2 ^ 63
      → virtual_count I t ≡ t.counter - t.virtual_offset
  unfolding virtual_count
  virtual_count_lem t h h' = omega arith

  -- the condition of an armed timer
  condition_lem :
      (t : GenericTimer I) (time k : ℕ)
      → counts I t time ≡ k
      → IsArmed t k
      → condition t time ≡ leb t.compare_value (t.counter + k - t.virtual_offset)
  condition_lem t time k hk a =
      let total : u64 (t.counter + counts I t time) ≡ t.counter + k =
        ap (λ y. u64 (t.counter + y)) hk ∙ omega (arith, a.stays_small) in
      let later : GenericTimer I = record t { counter = u64 (t.counter + counts I t time) } in
      let small : later.counter < 2 ^ 63 = omega (arith, total, a.stays_small) in
      let count : virtual_count I later ≡ t.counter + k - t.virtual_offset =
        virtual_count_lem later (omega (arith, total, a.started)) small
        ∙ ap (λ y. y - t.virtual_offset) total in
      ap (λ b. if b then is_reached (virtual_count I later) t.compare_value else false) a.is_armed
      ∙ ap (λ y. is_reached y t.compare_value) count
      ∙ is_reached_lem (t.counter + k - t.virtual_offset) t.compare_value
          (omega (arith, a.stays_small)) a.small

  fewer : (t : GenericTimer I) (k m : ℕ) → k ≤ m → IsArmed t m → IsArmed t k
  fewer t k m h a = record {
    counting = a.counting;
    is_armed = a.is_armed;
    unmasked = a.unmasked;
    started = a.started;
    stays_small = omega (arith, a.stays_small);
    small = a.small;
  }

  tick-IsArmed :
      (t : GenericTimer I) (time k rest : ℕ)
      → counts I t time ≡ k
      → IsArmed t (k + rest)
      → Returns (tick I t time) (λ t'.
        IsTicked t time t'
        × IsArmed t' rest
        × (t'.counter ≡ t.counter + k)
        × (level t'.irq_controller t.irq_line
            ≡ leb t.compare_value (t.counter + k - t.virtual_offset)))
  tick-IsArmed t time k rest hk a =
      let now : IsArmed t k = fewer t k (k + rest) (omega arith) a in
      let total : u64 (t.counter + counts I t time) ≡ t.counter + k =
        ap (λ y. u64 (t.counter + y)) hk ∙ omega (arith, a.stays_small) in
      Returns-map (tick I t time) (IsTicked t time) _
        (λ t' h.
          let counter : t'.counter ≡ t.counter + k = h.counted ∙ total in
          (
            h,
            record {
              counting = h.counting;
              is_armed = h.same_enable ∙ a.is_armed;
              unmasked = h.same_mask ∙ a.unmasked;
              started = omega (arith, h.same_offset, counter, a.started);
              stays_small = omega (arith, counter, a.stays_small);
              small = omega (arith, h.same_compare, a.small);
            },
            counter,
            h.line
                ∙ ap (λ b. condition t time && not b) a.unmasked
                ∙ and_true (condition t time)
                ∙ condition_lem t time k hk now,
          ))
        (tick-IsTicked t time a.counting)

  -- For a timer that runs, with the virtual timer on and not masked, on a line that the
  -- controller has and may drive, whose counter is not below the offset and stays below 2 ^ 63,
  -- and whose compare value is below 2 ^ 63: any number of ticks above 0, each of which adds `k`
  -- counts, returns, and the line is then high exactly if the virtual count has reached the
  -- compare value.
  pub ticks-reach :
      (t : GenericTimer I) (n time k : ℕ)
      → counts I t time ≡ k
      → IsArmed t (suc n * k)
      → Returns (ticks t (suc n) time) (λ t'.
        level t'.irq_controller t.irq_line
        ≡ leb t.compare_value (t.counter + suc n * k - t.virtual_offset))
  unfolding ticks
  ticks-reach t zero time k hk a =
      Returns-bind (tick I t time) ok _ _
        (tick-IsArmed t time k 0 hk (fewer t (k + 0) (1 * k) (omega arith) a))
        (λ t' h. h.3 ∙ ap (λ y. leb t.compare_value (t.counter + y - t.virtual_offset)) (one_mul k))
  ticks-reach t (suc n) time k hk a =
      Returns-bind (tick I t time) (λ t'. ticks t' (suc n) time) _ _
        (tick-IsArmed t time k (suc n * k) hk
          (fewer t (k + suc n * k) (suc (suc n) * k) (omega arith) a))
        (λ t' h.
          Returns-map (ticks t' (suc n) time) _ _
            (λ t'' reached.
              ap (level t''.irq_controller) (sym (h.0.same_line))
              ∙ reached
              ∙ ap₂ leb (h.0.same_compare) (omega (arith, h.2, h.0.same_offset)))
            (ticks-reach t' n time k
              (ap (λ f. u64 (time * f) / 1000000000) (h.0.same_frequency) ∙ hk) (h.1)))
