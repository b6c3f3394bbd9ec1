-- ===== src/Timer/Tests.antt =====
-- A timer on line 27 of the interrupt controller, which ticks every millisecond.
use icewind.Common.{◌+◌, ◌*◌, ◌-◌, ◌≡◌, refl, arith, leb, Returns, ok, true, [], ◌∷◌}
use icewind.Gic
use icewind.Gic.Level.{controller, level}
use icewind.Gic.Serve.{new-IsValid}
use icewind.Timer.Defs.{GenericTimer, new, read, register, le_bytes, control, cntv_ctl_el0}
use icewind.Timer.Tick.{IsArmed, ticks, ticks-reach}

abbrev timer : GenericTimer controller
timer = record (new controller Gic.new 27 1000000) {
  enabled = true;
  timer_enabled = true;
  compare_value = 25000;
}

timer-IsArmed : IsArmed controller timer (3 * 10000)
unfolding new Gic.new
timer-IsArmed = record {
  counting = record { is_enabled = refl; ready = new-IsValid; in_range = omega arith };
  is_armed = refl;
  unmasked = refl;
  started = omega arith;
  stays_small = omega arith;
  small = omega arith;
}

ticks-reach_example : Returns (ticks controller timer 3 1000000) (λ t'.
    level t'.irq_controller 27 ≡ leb 25000 (timer.counter + 3 * 10000 - timer.virtual_offset))
unfolding new
ticks-reach_example = ticks-reach controller timer 2 1000000 10000 refl timer-IsArmed

armed_control :
    read controller timer cntv_ctl_el0 (0 ∷ 0 ∷ 0 ∷ 0 ∷ 0 ∷ 0 ∷ 0 ∷ 0 ∷ [])
    ≡ ok (1 ∷ 0 ∷ 0 ∷ 0 ∷ 0 ∷ 0 ∷ 0 ∷ 0 ∷ [])
unfolding read new register le_bytes control
armed_control = refl
