-- ===== src/Pl190/Tests.antt =====
-- The controller with its two lines on the lines 40 and 41 of a generic one.
use mathlib.Core.Option.{some_inj}
use icewind.Common.{
  ℕ, zero, suc, ◌+◌, ◌≤◌, ◌<◌, ◌≡◌, refl, inr, List, [], ◌∷◌, ◌++◌, arith, some, get_elem?,
  get_elem?-replicate, replicate, Returns, panic, ==→ne, length, false, sym, ◌∙◌, get_or, bit_and,
  ap,
}
use icewind.Common.Bits.{zero_and}
use icewind.Gic
use icewind.Gic.Level.{controller}
use icewind.Gic.Serve.{new-IsValid}
use icewind.Pl190.Defs.{
  Pl190, read_var, write_var, write, get_irq_status, get_fiq_status, is_wanted, update_vectors,
}
use icewind.Pl190.Vectors.{Covers}
use icewind.Pl190.Driven.{IsDriven, soft, write-IsDriven, update_vectors-Covers}
use icewind.Pl190.Service.{Serves, Quiet, read_var-none, read_var-panics, write_var-read_var}

-- A device at rest, with the status, the masks and the first vector given.
abbrev device : ℕ → List ℕ → ℕ → Pl190 controller
device status masks control = record {
  irq_status = 0;
  soft_status = status;
  mask = 0;
  fiq_select = 0;
  default_vector_address = 0;
  priority = 17;
  prev_priority = replicate 17 0;
  prio_mask = masks;
  vector_addrs = replicate 16 0;
  vector_controls = control ∷ replicate 15 0;
  irq_line = 40;
  fiq_line = 41;
  controller = Gic.new;
}

-- no vector enabled
abbrev no_vectors : List ℕ
no_vectors = replicate 17 0 ++ 0xffffffff ∷ []

-- the first vector enabled for the line 5
abbrev line_five : List ℕ
line_five = 0 ∷ replicate 16 0x20 ++ 0xffffffff ∷ []

zero_previous : (i v : ℕ) → get_elem? (replicate 17 0) i ≡ some v → v ≤ 17
zero_previous i v e = omega (arith, some_inj.0 (get_elem?-replicate 17 i 0 e))

zeros_first : (n i : ℕ) (rest : List ℕ) → i < n → get_or (replicate n 0 ++ rest) i 0 ≡ 0
zeros_first zero i rest h = absurd (omega arith)
zeros_first (suc n) zero rest h = refl
zeros_first (suc n) (suc i) rest h = zeros_first n i rest (omega arith)

-- Nothing is unmasked, so both lines are low.
device-IsDriven :
    (status : ℕ) (masks : List ℕ) (control : ℕ)
    → length masks ≡ 18
    → get_elem? masks 17 ≡ some 0xffffffff
    → is_wanted controller (get_irq_status controller (device status masks control)) 0xffffffff
      ≡ false
    → is_wanted controller (get_fiq_status controller (device status masks control)) 0xffffffff
      ≡ false
    → IsDriven controller (device status masks control)
unfolding Gic.new
device-IsDriven status masks control size last irq fiq = record {
  wired = (
    record {
      priority_le = omega arith;
      length_previous = refl;
      previous_le = zero_previous;
      length_masks = size;
      length_addresses = refl;
      length_controls = refl;
    },
    record {
      ready = new-IsValid;
      irq_lt = omega arith;
      fiq_lt = omega arith;
      apart = ==→ne 40 41 refl;
    },
  );
  lines_follow = λ {m} e.
      let same : m ≡ 0xffffffff = some_inj.0 (sym e ∙ last) in rw (same, irq, fiq) (refl, refl);
}

-- a pending interrupt on line 5, which has the first vector
abbrev vectored : Pl190 controller
vectored = device 0x20 line_five 0x25

vectored-IsDriven : IsDriven controller vectored
vectored-IsDriven = device-IsDriven 0x20 line_five 0x25 refl refl refl refl

-- the same, before any vector is enabled
abbrev unvectored : Pl190 controller
unvectored = device 0x20 no_vectors 0

unvectored-IsDriven : IsDriven controller unvectored
unvectored-IsDriven = device-IsDriven 0x20 no_vectors 0 refl refl refl refl

abbrev idle : Pl190 controller
idle = device 0 no_vectors 0

idle-IsDriven : IsDriven controller idle
idle-IsDriven = device-IsDriven 0 no_vectors 0 refl refl refl refl

no_vector_wants : Quiet 0x20 no_vectors 0 16
no_vector_wants j lo hi = ap (bit_and 0x20) (zeros_first 17 (j + 1) (0xffffffff ∷ []) (omega arith))

write-IsDriven_example :
    Returns (write controller vectored 0x01c (0x20 ∷ 0 ∷ 0 ∷ 0 ∷ [])) (IsDriven controller)
write-IsDriven_example =
    write-IsDriven controller vectored 0x01c 0x20 0 0 0 vectored-IsDriven (soft (inr refl))

update_vectors-Covers_example : Returns (update_vectors controller vectored) (λ p'.
    IsDriven controller p'
    × ((j : ℕ)
        → j ≤ 16
        → (m : ℕ) × (get_elem? p'.prio_mask j ≡ some m) × Covers vectored.vector_controls j m))
update_vectors-Covers_example = update_vectors-Covers controller vectored vectored-IsDriven.wired

write_var-read_var_example : Returns (read_var controller idle) (λ out.
    Returns (write_var controller out.0) (λ after.
      IsDriven controller after
      × (after.priority ≡ 17)
      × (get_elem? after.prev_priority 0 ≡ some 17)))
write_var-read_var_example =
    write_var-read_var controller idle idle-IsDriven (omega arith)
      (λ j lo hi. zero_and (get_or no_vectors (j + 1) 0))

read_var-none_example :
    Returns
      (read_var controller idle)
      (λ out. Serves controller 0 idle out.0 × (get_elem? idle.vector_addrs 0 ≡ some out.1))
read_var-none_example =
    read_var-none controller idle idle-IsDriven (omega arith)
      (λ j lo hi. zero_and (get_or no_vectors (j + 1) 0))

read_var-panics_example : read_var controller unvectored ≡ panic
read_var-panics_example =
    read_var-panics controller unvectored unvectored-IsDriven refl no_vector_wants
      (==→ne 0x20 0 refl)
