-- ===== src/Timer/Defs.antt =====
-- `GenericTimer` and its methods, with `encode_sysreg_id` of brig/common/src/sysreg_helpers.rs.
use icewind.Common.{
  ℕ, zero, suc, ◌+◌, ◌-◌, ◌*◌, ◌/◌, ◌%◌, ◌^◌, List, [], ◌∷◌, Bool, true, false, not, ◌&&◌, ◌==◌,
  ltb, if◌then◌else◌, bit_or, bit_and, ◌<<<◌, u64, of_bool, Outcome, ok, panic, ◌>>=◌, length,
}
use icewind.Devices.{IrqController, drive}

abbrev pub encode_sysreg_id : ℕ → ℕ → ℕ → ℕ → ℕ → ℕ
encode_sysreg_id op0 op1 crn crm op2 =
    bit_or (bit_or (bit_or (bit_or (op0 <<< 19) (op1 <<< 16)) (crn <<< 12)) (crm <<< 8)) (op2 <<< 5)

abbrev pub cntkctl_el1 : ℕ
cntkctl_el1 = encode_sysreg_id 3 0 14 1 0

abbrev pub cntfrq_el0 : ℕ
cntfrq_el0 = encode_sysreg_id 3 3 14 0 0

abbrev pub cntvct_el0 : ℕ
cntvct_el0 = encode_sysreg_id 3 3 14 0 2

abbrev pub cntvctss_el0 : ℕ
cntvctss_el0 = encode_sysreg_id 3 3 14 0 6

abbrev pub cntvoff_el2 : ℕ
cntvoff_el2 = encode_sysreg_id 3 4 14 0 3

abbrev pub cntv_ctl_el0 : ℕ
cntv_ctl_el0 = encode_sysreg_id 3 3 14 3 1

abbrev pub cntv_cval_el0 : ℕ
cntv_cval_el0 = encode_sysreg_id 3 3 14 3 2

-- `to_le_bytes` of a `u64`, from the lowest of `n` bytes on
unfoldable pub le_bytes : ℕ → ℕ → List ℕ
le_bytes zero v = []
le_bytes (suc n) v = v % 256 ∷ le_bytes n (v / 256)

-- `u64::from_le_bytes`
unfoldable pub from_le_bytes : List ℕ → ℕ
from_le_bytes [] = 0
from_le_bytes (b ∷ bs) = b + 256 * from_le_bytes bs

-- `u64::from_le_bytes(value.try_into().unwrap())`
unfoldable pub from_slice64 : List ℕ → Outcome ℕ
from_slice64 bs = if length bs == 8 then ok (from_le_bytes bs) else panic

-- the difference of two words read as `i64` is not negative
unfoldable pub is_reached : ℕ → ℕ → Bool
is_reached count compare_value = ltb ((count + 2 ^ 64 - compare_value) % 2 ^ 64) (2 ^ 63)

module _ (I : IrqController) where
  open I use {State}

  pub record GenericTimer : Type 0 where
    pub enabled : Bool
    pub irq_controller : State
    pub irq_line : ℕ
    pub tick_interval : ℕ
    pub counter : ℕ  -- u64
    pub frequency : ℕ  -- u64
    pub virtual_offset : ℕ  -- u64
    pub timer_condition_met : Bool
    pub timer_interrupt_masked : Bool
    pub timer_enabled : Bool
    pub compare_value : ℕ  -- u64
    pub kernel_control : ℕ  -- u64, the field `cntkctl_el1`

  unfoldable pub new : State → ℕ → ℕ → GenericTimer
  new controller irq_line tick_interval = record {
    enabled = false;
    irq_controller = controller;
    irq_line = irq_line;
    tick_interval = tick_interval;
    counter = 0;
    frequency = 10000000;
    virtual_offset = 0;
    timer_condition_met = false;
    timer_interrupt_masked = false;
    timer_enabled = false;
    compare_value = 0;
    kernel_control = 0;
  }

  unfoldable pub virtual_count : GenericTimer → ℕ
  virtual_count t = u64 (t.counter + 2 ^ 64 - t.virtual_offset)

  -- what a tick after `time` nanoseconds adds to the counter
  abbrev pub counts : GenericTimer → ℕ → ℕ
  counts t time = u64 (time * t.frequency) / 1000000000

  unfoldable pub tick : GenericTimer → ℕ → Outcome GenericTimer
  tick t time =
      if not t.enabled
      then ok t
      else let counted : GenericTimer = record t { counter = u64 (t.counter + counts t time) } in
        let interrupt_status : Bool =
          if t.timer_enabled then is_reached (virtual_count counted) t.compare_value else false in
        do
          controller ←
              drive I (interrupt_status && not t.timer_interrupt_masked) t.irq_controller t.irq_line
          ok (record counted {
            timer_condition_met = interrupt_status;
            irq_controller = controller;
          })

  unfoldable pub start : GenericTimer → GenericTimer
  start t = record t { enabled = true }

  unfoldable pub stop : GenericTimer → GenericTimer
  stop t = record t { enabled = false }

  unfoldable pub control : GenericTimer → ℕ
  control t =
      bit_or (bit_or (of_bool t.timer_condition_met <<< 2) (of_bool t.timer_interrupt_masked <<< 1))
        (of_bool t.timer_enabled)

  -- the value that `read` copies out; the other registers are `todo!` or unknown
  unfoldable pub register : GenericTimer → ℕ → Outcome ℕ
  register t id =
      if id == cntkctl_el1
      then ok t.kernel_control
      else if id == cntfrq_el0
      then ok t.frequency
      else if id == cntvct_el0
      then ok t.counter
      else if id == cntvctss_el0
      then ok t.counter
      else if id == cntv_ctl_el0
      then ok (control t)
      else panic

  -- the bytes that `read` leaves in `dest`
  unfoldable pub read : GenericTimer → ℕ → List ℕ → Outcome (List ℕ)
  read t id dest = do
    value ← register t id
    if length dest == 8 then ok (le_bytes 8 value) else panic

  unfoldable pub write : GenericTimer → ℕ → List ℕ → Outcome GenericTimer
  write t id bytes = do
    value ← from_slice64 bytes
    if id == cntkctl_el1
        then ok (record t { kernel_control = value })
        else if id == cntfrq_el0
        then ok t
        else if id == cntvoff_el2
        then ok (record t { virtual_offset = value })
        else if id == cntv_ctl_el0
        then ok (record t {
          timer_enabled = bit_and value 1 == 1;
          timer_interrupt_masked = bit_and value 2 == 2;
        })
        else if id == cntv_cval_el0
        then ok (record t { compare_value = value })
        else panic
