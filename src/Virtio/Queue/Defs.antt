-- ===== src/Virtio/Queue/Defs.antt =====
-- `VirtQueue` and its rings in the memory of the guest, at the host addresses of the queue.
use icewind.Common.{
  ℕ, zero, suc, ◌+◌, ◌-◌, ◌*◌, ◌/◌, ◌%◌, ◌^◌, bit_and, bit_or, List, [], ◌∷◌, ltb, leb, ◌==◌,
  if◌then◌else◌, Bool, true, false, Option, none, some, get_or, Outcome, ok, panic, assert, ◌>>◌,
  ◌<<<◌,
}

-- The callbacks and their state are parameters of the device.
pub record VirtQueue : Type 0 where
  pub ready : Bool
  pub queue_num : ℕ  -- usize
  pub descriptor_gpa : ℕ  -- u64
  pub available_gpa : ℕ  -- u64
  pub used_gpa : ℕ  -- u64
  pub descriptor_hva : ℕ  -- u64
  pub available_hva : ℕ  -- u64
  pub used_hva : ℕ  -- u64
  pub prev_idx : ℕ  -- u16

abbrev pub new_queue : VirtQueue
new_queue = record {
  ready = false;
  queue_num = 0;
  descriptor_gpa = 0;
  available_gpa = 0;
  used_gpa = 0;
  descriptor_hva = 0;
  available_hva = 0;
  used_hva = 0;
  prev_idx = 0;
}

-- `addr &= 0xffff_ffff_0000_0000; addr |= u64::from(value)`
unfoldable pub with_low : ℕ → ℕ → ℕ
with_low addr value = bit_or (bit_and addr 0xffffffff00000000) value

-- `addr &= 0x0000_0000_ffff_ffff; addr |= u64::from(value) << 32`
unfoldable pub with_high : ℕ → ℕ → ℕ
with_high addr value = bit_or (bit_and addr 0x00000000ffffffff) (value <<< 32)

-- `guest_physical_to_host_virt` of the kernel, which maps the memory of the guest
module _ (to_host : ℕ → ℕ) where
  abbrev pub init_vring : VirtQueue → VirtQueue
  init_vring q = record q { prev_idx = 0 }

  abbrev pub update_host_addresses : VirtQueue → VirtQueue
  update_host_addresses q = init_vring (record q {
    descriptor_hva = to_host q.descriptor_gpa;
    available_hva = to_host q.available_gpa;
    used_hva = to_host q.used_gpa;
  })

  abbrev pub set_ready : Bool → VirtQueue → VirtQueue
  set_ready true q = update_host_addresses (record q { ready = true })
  set_ready false q = record q { ready = false }

-- Bytes by their host addresses.
abbrev pub Memory : Type 0
Memory = ℕ → ℕ

-- a word of `n` bytes, the lowest first
unfoldable pub load : Memory → ℕ → ℕ → ℕ
load m a zero = 0
load m a (suc n) = m a + 256 * load m (a + 1) n

unfoldable pub put : Memory → ℕ → List ℕ → Memory
put m a bytes x = if leb a x then get_or bytes (x - a) (m x) else m x

-- the `n` lowest bytes of a word
unfoldable pub le_bytes : ℕ → ℕ → List ℕ
le_bytes zero v = []
le_bytes (suc n) v = v % 256 ∷ le_bytes n (v / 256)

pub record VirtRingDescr : Type 0 where
  pub addr : ℕ  -- u64
  pub length : ℕ  -- u32
  pub flags : ℕ  -- u16
  pub next : ℕ  -- u16

abbrev pub has_next : VirtRingDescr → Bool
has_next d = bit_and d.flags 1 == 1

abbrev pub is_write : VirtRingDescr → Bool
is_write d = bit_and d.flags 2 == 2

abbrev pub is_indirect : VirtRingDescr → Bool
is_indirect d = bit_and d.flags 4 == 4

-- `vring_descriptor().add(i).read()`, 16 bytes each
unfoldable pub descriptor : Memory → VirtQueue → ℕ → VirtRingDescr
descriptor m q i = record {
  addr = load m (q.descriptor_hva + 16 * i) 8;
  length = load m (q.descriptor_hva + 16 * i + 8) 4;
  flags = load m (q.descriptor_hva + 16 * i + 12) 2;
  next = load m (q.descriptor_hva + 16 * i + 14) 2;
}

-- the fields of `available_header` and `used_header`, and the places of the rings after them
abbrev pub available_index : Memory → VirtQueue → ℕ
available_index m q = load m (q.available_hva + 2) 2

abbrev pub available_entry : VirtQueue → ℕ → ℕ
available_entry q i = q.available_hva + 4 + 2 * i

abbrev pub used_flags : Memory → VirtQueue → ℕ
used_flags m q = load m q.used_hva 2

abbrev pub used_index : Memory → VirtQueue → ℕ
used_index m q = load m (q.used_hva + 2) 2

abbrev pub used_entry : VirtQueue → ℕ → ℕ
used_entry q i = q.used_hva + 4 + 8 * i

-- `x + 1` and `x - y` on `u16`
abbrev pub next16 : ℕ → ℕ
next16 x = (x + 1) % 2 ^ 16

abbrev pub sub16 : ℕ → ℕ → ℕ
sub16 x y = (x + 2 ^ 16 - y) % 2 ^ 16

unfoldable pub push : Memory → VirtQueue → ℕ → ℕ → Outcome Memory
push m q element_index size =
    if q.queue_num == 0
    then panic
    else if leb (2 ^ 32) element_index
    then panic
    else let idx = used_index m q % q.queue_num in
      let with_id = put m (used_entry q idx) (le_bytes 4 element_index) in
      let with_len = put with_id (used_entry q idx + 4) (le_bytes 4 size) in
      assert (used_flags with_len q == 0)
      >> ok (put with_len (q.used_hva + 2) (le_bytes 2 (next16 (used_index with_len q))))

unfoldable pub pop : Memory → VirtQueue → Outcome (VirtQueue × Option (ℕ × VirtRingDescr))
pop m q =
    let num_heads = sub16 (available_index m q) q.prev_idx in
    if ltb q.queue_num num_heads
    then panic
    else if num_heads == 0
    then ok (q, none)
    else let head = load m (available_entry q (next16 q.prev_idx % q.queue_num)) 2 in
      if ltb head q.queue_num
      then ok (record q { prev_idx = next16 q.prev_idx }, some (head, descriptor m q head))
      else panic
