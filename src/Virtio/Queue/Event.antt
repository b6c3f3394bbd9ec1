-- ===== src/Virtio/Queue/Event.antt =====
-- The chains of descriptors that a queue hands over, and what is done with each.
use icewind.Common.{
  ℕ, zero, suc, ◌+◌, ◌^◌, bit_or, List, [], ◌∷◌, ◌++◌, ◌==◌, if◌then◌else◌, true, false, none, some,
  replicate, take, Outcome, ok, panic, hang, ◌>>=◌, u32,
}
use icewind.Devices.{IrqController}
use icewind.Virtio.Queue.Defs.{
  VirtQueue, Memory, VirtRingDescr, has_next, is_write, is_indirect, descriptor, load, put, push,
  pop,
}

pub record VirtQueueEventBuffer : Type 0 where
  pub data_at : ℕ
  pub size : ℕ  -- u32

-- `response_size` is an argument of `submit`.
pub record VirtQueueEvent : Type 0 where
  pub read_buffers : List VirtQueueEventBuffer
  pub write_buffers : List VirtQueueEventBuffer
  pub descriptor_index : ℕ

-- the bytes of a buffer
unfoldable pub bytes_at : Memory → ℕ → ℕ → List ℕ
bytes_at m a zero = []
bytes_at m a (suc n) = m a ∷ bytes_at m (a + 1) n

module _ (to_host : ℕ → ℕ) where
  abbrev pub buffer_of : VirtRingDescr → VirtQueueEventBuffer
  buffer_of d = record { data_at = to_host d.addr; size = d.length }

  abbrev pub add_buffer : VirtRingDescr → VirtQueueEvent → VirtQueueEvent
  add_buffer d e =
      if is_write d
      then record e { write_buffers = e.write_buffers ++ buffer_of d ∷ [] }
      else record e { read_buffers = e.read_buffers ++ buffer_of d ∷ [] }

  -- The inner loop of `process`. The memory does not change in it and a link has 16 bits, so a
  -- chain of more than 2 ^ 16 + 1 descriptors goes round for ever.
  unfoldable pub collect :
      ℕ → Memory → VirtQueue → VirtRingDescr → VirtQueueEvent → Outcome VirtQueueEvent
  collect zero m q d e = hang
  collect (suc fuel) m q d e = if is_indirect d then panic else elim (has_next d) [
    | true ↦ collect fuel m q (descriptor m q d.next) (add_buffer d e)
    | false ↦ ok (add_buffer d e)
  ]

abbrev pub chain_bound : ℕ
chain_bound = 2 ^ 16 + 1

module _ (I : IrqController) (S : Type 0) where
  open I use {State}

  -- What the handling of a request changes: the queue with the state of its callbacks, the memory
  -- of the guest, the interrupt status and the controller.
  pub record Host : Type 0 where
    pub queue : VirtQueue
    pub callback_state : S
    pub memory : Memory
    pub isr : ℕ  -- u32
    pub irq_line : ℕ
    pub controller : State

-- `read_callback` gets the length of the buffer that it fills, and gives its bytes.
module _ (I : IrqController) (S : Type 0) (to_host : ℕ → ℕ)
    (read_callback : S → ℕ → ℕ → Outcome (S × List ℕ))
    (write_callback : S → List ℕ → ℕ → Outcome S) where
  open I use {raise}

  unfoldable pub submit : ℕ → ℕ → Host I S → Outcome (Host I S)
  submit descriptor_index response_size h = do
    memory ← push h.memory h.queue descriptor_index response_size
    controller ← raise h.controller h.irq_line
    ok (record h { memory = memory; isr = bit_or h.isr 1; controller = controller })

  -- one read buffer, the request; two write buffers, the data's destination and the status
  unfoldable pub read_into :
      ℕ → ℕ → List VirtQueueEventBuffer → List VirtQueueEventBuffer → Host I S → Outcome (Host I S)
  read_into sector index (request ∷ []) (target ∷ outcome ∷ []) h =
      read_callback h.callback_state target.size sector >>= λ (s, bytes).
      let cleared = put h.memory target.data_at (replicate target.size 0) in
      let filled = put cleared target.data_at (take target.size bytes) in
      submit index (u32 (1 + target.size))
        (record h { callback_state = s; memory = put filled outcome.data_at (0 ∷ []) })
  read_into sector index reads writes h = panic

  abbrev pub handle_read_event : ℕ → VirtQueueEvent → Host I S → Outcome (Host I S)
  handle_read_event sector e = read_into sector e.descriptor_index e.read_buffers e.write_buffers

  -- two read buffers, the request and the data; one write buffer, the status
  unfoldable pub write_from :
      ℕ → ℕ → List VirtQueueEventBuffer → List VirtQueueEventBuffer → Host I S → Outcome (Host I S)
  write_from sector index (request ∷ source ∷ []) (outcome ∷ []) h =
      write_callback h.callback_state (bytes_at h.memory source.data_at source.size) sector >>= λ s.
      submit index 1
        (record h { callback_state = s; memory = put h.memory outcome.data_at (0 ∷ []) })
  write_from sector index reads writes h = panic

  abbrev pub handle_write_event : ℕ → VirtQueueEvent → Host I S → Outcome (Host I S)
  handle_write_event sector e = write_from sector e.descriptor_index e.read_buffers e.write_buffers

  -- `VirtQueueEvent::process`; the request is 16 bytes, its kind in the first four and its sector in
  -- the last eight. The other kinds are `todo!()`.
  unfoldable pub process_kind : ℕ → ℕ → VirtQueueEvent → Host I S → Outcome (Host I S)
  process_kind kind sector e h =
      if kind == 0
      then handle_read_event sector e h
      else if kind == 1
      then handle_write_event sector e h
      else panic

  unfoldable pub process_event : VirtQueueEvent → Host I S → Outcome (Host I S)
  process_event e h = elim e.read_buffers [
    | [] ↦ ok h
    | first ∷ rest ↦
        if first.size == 16
        then process_kind (load h.memory first.data_at 4) (load h.memory (first.data_at + 8) 8) e h
        else panic
  ]

  -- the body of the loop of `process`
  unfoldable pub handle_entry : ℕ × VirtRingDescr → Host I S → Outcome (Host I S)
  handle_entry (idx, descr) h = do
    event ←
        collect to_host chain_bound h.memory h.queue descr
          (record { read_buffers = []; write_buffers = []; descriptor_index = idx })
    process_event event h

  -- `VirtQueue::process`, `rounds` times at most: the guest can make entries available meanwhile.
  unfoldable pub process : ℕ → Host I S → Outcome (Host I S)
  process zero h = hang
  process (suc rounds) h = pop h.memory h.queue >>= λ (q, popped). elim popped [
    | none ↦ ok (record h { queue = q })
    | some entry ↦ handle_entry entry (record h { queue = q }) >>= process rounds
  ]
