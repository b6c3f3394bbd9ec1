-- ===== src/Virtio/Defs.antt =====
-- `Virtio` and its registers. The map from guest to host addresses and the callbacks on the block
-- device are parameters.
use icewind.Common.{
  ℕ, ◌+◌, ◌-◌, bit_and, bit_or, List, [], ◌∷◌, ltb, leb, ◌==◌, not, if◌then◌else◌, Bool, true,
  false, length, Outcome, ok, panic, ◌>>=◌, ◌<<<◌, complement, le_bytes32, from_le_bytes32, of_bool,
  assert, ◌>>◌, index, set, take, drop, ◌%◌,
}
use icewind.Devices.{IrqController, drive}
use icewind.Virtio.Queue.{
  VirtQueue, new_queue, with_low, with_high, set_ready, Memory, Host, process,
}

-- `u32::from_le_bytes(*b"virt")`
abbrev pub virtio_magic : ℕ
virtio_magic = from_le_bytes32 118 105 114 116

abbrev virtio_version : ℕ
virtio_version = 0x2

pub data ReadRegister : Type 0 where
  magic version device_id vendor_id device_features : ReadRegister
  queue_ready queue_num_max interrupt_status status config_generation : ReadRegister

-- `ReadRegister::from_offset`
unfoldable pub read_register_at : ℕ → Outcome ReadRegister
read_register_at offset =
    if offset == 0x00
    then ok magic
    else if offset == 0x04
    then ok version
    else if offset == 0x08
    then ok device_id
    else if offset == 0x0c
    then ok vendor_id
    else if offset == 0x10
    then ok device_features
    else if offset == 0x34
    then ok queue_num_max
    else if offset == 0x44
    then ok queue_ready
    else if offset == 0x60
    then ok interrupt_status
    else if offset == 0x70
    then ok status
    else if offset == 0xfc
    then ok config_generation
    else panic

pub data WriteRegister : Type 0 where
  set_device_features_select set_driver_features set_driver_features_select : WriteRegister
  set_queue_select set_queue_num set_queue_ready queue_notify interrupt_acknowledge : WriteRegister
  set_status : WriteRegister
  set_descriptor_low set_descriptor_high set_available_low : WriteRegister
  set_available_high set_used_low set_used_high : WriteRegister

-- `WriteRegister::from_offset`
unfoldable pub write_register_at : ℕ → Outcome WriteRegister
write_register_at offset =
    if offset == 0x14
    then ok set_device_features_select
    else if offset == 0x20
    then ok set_driver_features
    else if offset == 0x24
    then ok set_driver_features_select
    else if offset == 0x30
    then ok set_queue_select
    else if offset == 0x38
    then ok set_queue_num
    else if offset == 0x44
    then ok set_queue_ready
    else if offset == 0x50
    then ok queue_notify
    else if offset == 0x64
    then ok interrupt_acknowledge
    else if offset == 0x70
    then ok set_status
    else if offset == 0x80
    then ok set_descriptor_low
    else if offset == 0x84
    then ok set_descriptor_high
    else if offset == 0x90
    then ok set_available_low
    else if offset == 0x94
    then ok set_available_high
    else if offset == 0xa0
    then ok set_used_low
    else if offset == 0xa4
    then ok set_used_high
    else panic

-- `match value { 0 => false, 1 => true, _ => panic!() }`
abbrev pub to_bool : ℕ → Outcome Bool
to_bool value = if value == 0 then ok false else if value == 1 then ok true else panic

module _ (I : IrqController) (S : Type 0) where
  open I use {State}

  pub record Virtio : Type 0 where
    pub device_id : ℕ  -- u16
    pub device_feature_select : Bool
    pub device_features : List ℕ  -- [u32; 2]
    pub driver_features_select : ℕ  -- u32
    pub driver_features : ℕ  -- u32
    pub status : ℕ  -- u32, the bit field `Status`
    pub queue_select : ℕ
    pub host : Host I S

  -- `memory` is that of the guest.
  unfoldable pub new : ℕ → ℕ → State → S → Memory → Virtio
  new kind line controller s memory = record {
    device_id = kind;
    device_feature_select = false;
    device_features = 0 ∷ 0 ∷ [];
    driver_features_select = 0;
    driver_features = 0;
    status = 0;
    queue_select = 0;
    host = record {
      queue = new_queue;
      callback_state = s;
      memory = memory;
      isr = 0;
      irq_line = line;
      controller = controller;
    };
  }

  -- `selected_queue`, and `selected_queue_mut` with what is done to the queue
  unfoldable pub selected_queue : Virtio → Outcome VirtQueue
  selected_queue d = assert (d.queue_select == 0) >> ok d.host.queue

  unfoldable pub change_queue : (VirtQueue → VirtQueue) → Virtio → Outcome Virtio
  change_queue f d =
      assert (d.queue_select == 0)
      >> ok (record d { host = record d.host { queue = f d.host.queue } })

  unfoldable pub selected_device_feature : Virtio → Outcome ℕ
  selected_device_feature d = index d.device_features (of_bool d.device_feature_select)

  -- `1 << n` on `u32`, whose shift is by the remainder of `n` by 32
  abbrev pub feature_bit : ℕ → ℕ
  feature_bit n = 1 <<< (n % 32)

  -- `features[i] = f(features[i])` on the two words
  unfoldable pub change_word : (ℕ → ℕ) → ℕ → List ℕ → Outcome (List ℕ)
  change_word f i words = do w ← index words i; ok (set words i (f w))

  unfoldable pub set_host_feature : ℕ → Virtio → Outcome Virtio
  set_host_feature idx d = do
    words ←
        (if ltb 31 idx
          then change_word (λ w. bit_or w (feature_bit (idx - 32))) 1 d.device_features
          else change_word (λ w. bit_or w (feature_bit idx)) 0 d.device_features)
    ok (record d { device_features = words })

  unfoldable pub clear_host_feature : ℕ → Virtio → Outcome Virtio
  clear_host_feature idx d = do
    words ←
        (if ltb 31 idx
          then change_word (λ w. bit_and w (complement 32 (feature_bit (idx - 32)))) 1
              d.device_features
          else change_word (λ w. bit_and w (complement 32 (feature_bit idx))) 0 d.device_features)
    ok (record d { device_features = words })

  -- `vendor` is `VIRTIO_VENDOR_ID` of the crate virtio-drivers.
  unfoldable pub read_register : ℕ → Virtio → ReadRegister → Outcome ℕ
  read_register vendor d magic = ok virtio_magic
  read_register vendor d version = ok virtio_version
  read_register vendor d device_id = ok d.device_id
  read_register vendor d vendor_id = ok vendor
  read_register vendor d device_features = selected_device_feature d
  read_register vendor d queue_ready = do q ← selected_queue d; ok (of_bool q.ready)
  read_register vendor d queue_num_max = selected_queue d >>= λ q. ok 0x1000
  read_register vendor d interrupt_status = ok d.host.isr
  read_register vendor d status = ok d.status
  read_register vendor d config_generation = ok 0

  -- `fetch_and` gives the status from before, which decides the line.
  unfoldable pub acknowledge_interrupt : ℕ → Virtio → Outcome Virtio
  acknowledge_interrupt value d = do
    controller ← drive I (not (d.host.isr == 0)) d.host.controller d.host.irq_line
    ok (record d {
      host = record d.host {
        isr = bit_and d.host.isr (complement 32 value);
        controller = controller;
      };
    })

  unfoldable pub set_device_status : ℕ → Virtio → Virtio
  set_device_status value d =
      if value == 0
      then record d { status = value; driver_features_select = 0; driver_features = 0 }
      else record d { status = value }

  -- `VirtioBlock::read`; `config` is the configuration as bytes
  unfoldable pub read : (vendor : ℕ) (config : List ℕ) → ℕ → ℕ → Virtio → Outcome (List ℕ)
  read vendor config offset len d =
      if leb offset 0xff
      then (do
        register ← read_register_at offset
        word ← read_register vendor d register
        if len == 4 then ok (le_bytes32 word) else panic)
      else if leb (offset - 0x100 + len) (length config)
      then ok (take len (drop (offset - 0x100) config))
      else panic

-- The queue handles at most `rounds` entries for one notification.
module _ (I : IrqController) (S : Type 0) (to_host : ℕ → ℕ)
    (read_callback : S → ℕ → ℕ → Outcome (S × List ℕ)) (write_callback : S → List ℕ → ℕ → Outcome S)
    (rounds : ℕ) where
  unfoldable pub write_register : WriteRegister → ℕ → Virtio I S → Outcome (Virtio I S)
  write_register set_device_features_select value d = do
    chosen ← to_bool value
    ok (record d { device_feature_select = chosen })
  write_register set_status value d = ok (set_device_status I S value d)
  write_register set_driver_features value d = ok (record d { driver_features = value })
  write_register set_driver_features_select value d =
      ok (record d { driver_features_select = value })
  write_register set_queue_select value d =
      assert (value == 0) >> ok (record d { queue_select = value })
  write_register set_queue_num value d = change_queue I S (λ q. record q { queue_num = value }) d
  write_register set_queue_ready value d = do
    flag ← to_bool value
    change_queue I S (set_ready to_host flag) d
  write_register queue_notify value d =
      process I S to_host read_callback write_callback rounds d.host >>= λ host.
      ok (record d { host = host })
  write_register interrupt_acknowledge value d = acknowledge_interrupt I S value d
  write_register set_descriptor_low value d =
      change_queue I S (λ q. record q { descriptor_gpa = with_low q.descriptor_gpa value }) d
  write_register set_descriptor_high value d =
      change_queue I S (λ q. record q { descriptor_gpa = with_high q.descriptor_gpa value }) d
  write_register set_available_low value d =
      change_queue I S (λ q. record q { available_gpa = with_low q.available_gpa value }) d
  write_register set_available_high value d =
      change_queue I S (λ q. record q { available_gpa = with_high q.available_gpa value }) d
  write_register set_used_low value d =
      change_queue I S (λ q. record q { used_gpa = with_low q.used_gpa value }) d
  write_register set_used_high value d =
      change_queue I S (λ q. record q { used_gpa = with_high q.used_gpa value }) d

  -- `VirtioBlock::write`: the offset is decoded before the four bytes are.
  unfoldable pub write : ℕ → List ℕ → Virtio I S → Outcome (Virtio I S)
  write offset (a ∷ b ∷ c ∷ e ∷ []) d = do
    register ← write_register_at offset
    write_register register (from_le_bytes32 a b c e) d
  write offset bytes d = panic
