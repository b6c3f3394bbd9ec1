-- ===== src/Virtio/Queue/Chain.antt =====
-- The chain of descriptors that starts at the head of an entry.
use icewind.Common.{
  ℕ, zero, suc, ◌≤◌, ◌≡◌, ◌∙◌, refl, sym, ap, arith, List, [], ◌∷◌, ◌++◌, true, false, Bool-cases,
  if◌then◌else◌, length, ok, inl, inr,
}
use mathlib.Core.List.{append_assoc, append-nil}
use icewind.Virtio.Queue.Defs.{
  VirtQueue, Memory, VirtRingDescr, has_next, is_write, is_indirect, descriptor,
}
use icewind.Virtio.Queue.Event.{
  VirtQueueEvent, VirtQueueEventBuffer, collect, buffer_of, add_buffer,
}

-- The descriptors from `d` on, each linked to the next, the last one without a link.
pub data IsChain (m : Memory) (q : VirtQueue) : VirtRingDescr → List VirtRingDescr → Type 0 where
  last : {d : VirtRingDescr} → is_indirect d ≡ false → has_next d ≡ false → IsChain m q d (d ∷ [])
  step :
      {d : VirtRingDescr} {ds : List VirtRingDescr}
      → is_indirect d ≡ false
      → has_next d ≡ true
      → IsChain m q (descriptor m q d.next) ds
      → IsChain m q d (d ∷ ds)

module _ (to_host : ℕ → ℕ) where
  -- the buffers that the device reads, and those that it writes
  abbrev pub read_part : List VirtRingDescr → List VirtQueueEventBuffer
  read_part [] = []
  read_part (d ∷ ds) = if is_write d then read_part ds else buffer_of to_host d ∷ read_part ds

  abbrev pub write_part : List VirtRingDescr → List VirtQueueEventBuffer
  write_part [] = []
  write_part (d ∷ ds) = if is_write d then buffer_of to_host d ∷ write_part ds else write_part ds

  add_all : List VirtRingDescr → VirtQueueEvent → VirtQueueEvent
  add_all [] e = e
  add_all (d ∷ ds) e = add_all ds (add_buffer to_host d e)

  add_all_lem :
      (ds : List VirtRingDescr) (e : VirtQueueEvent)
      → add_all ds e ≡ record e {
        read_buffers = e.read_buffers ++ read_part ds;
        write_buffers = e.write_buffers ++ write_part ds;
      }
  unfolding add_all
  add_all_lem [] e =
      ap (λ reads. record e { read_buffers = reads }) (sym (append-nil e.read_buffers))
      ∙ ap (λ writes. record e { read_buffers = e.read_buffers ++ []; write_buffers = writes })
          (sym (append-nil e.write_buffers))
  add_all_lem (d ∷ ds) e = elim (Bool-cases (is_write d)) [
    | inl c ↦ rw c (
        add_all_lem ds (record e { write_buffers = e.write_buffers ++ buffer_of to_host d ∷ [] })
        ∙ ap
            (λ writes. record e {
              read_buffers = e.read_buffers ++ read_part ds;
              write_buffers = writes;
            })
            (append_assoc e.write_buffers (buffer_of to_host d ∷ []) (write_part ds)))
    | inr c ↦ rw c (
        add_all_lem ds (record e { read_buffers = e.read_buffers ++ buffer_of to_host d ∷ [] })
        ∙ ap
            (λ reads. record e {
              read_buffers = reads;
              write_buffers = e.write_buffers ++ write_part ds;
            })
            (append_assoc e.read_buffers (buffer_of to_host d ∷ []) (read_part ds)))
  ]

  collect_all :
      (m : Memory) (q : VirtQueue) (d : VirtRingDescr) (ds : List VirtRingDescr)
      (e : VirtQueueEvent) (fuel : ℕ)
      → IsChain m q d ds
      → length ds ≤ fuel
      → collect to_host fuel m q d e ≡ ok (add_all ds e)
  unfolding collect add_all
  collect_all m q d ds e zero (last plain ends) enough = absurd (omega arith)
  collect_all m q d ds e (suc fuel) (last plain ends) enough = rw (plain, ends) refl
  collect_all m q d ds e zero (step plain more rest) enough = absurd (omega arith)
  collect_all m q d ds e (suc fuel) (step {ds = ds'} plain more rest) enough =
      rw (plain, more)
        (collect_all m q (descriptor m q d.next) ds' (add_buffer to_host d e) fuel rest
          (omega arith))

  -- For a chain of direct descriptors whose last one has no link, with fuel for its length, the
  -- walk of `process` returns, and the event has the buffers of the read-only descriptors and
  -- those of the writable ones, both in the order of the chain.
  pub collect-IsChain :
      (m : Memory) (q : VirtQueue) (d : VirtRingDescr) (ds : List VirtRingDescr) (index fuel : ℕ)
      → IsChain m q d ds
      → length ds ≤ fuel
      → collect to_host fuel m q d
          (record { read_buffers = []; write_buffers = []; descriptor_index = index })
        ≡ ok (record {
          read_buffers = read_part ds;
          write_buffers = write_part ds;
          descriptor_index = index;
        })
  collect-IsChain m q d ds index fuel chain enough =
      let start : VirtQueueEvent = record {
        read_buffers = [];
        write_buffers = [];
        descriptor_index = index;
      } in
      collect_all m q d ds start fuel chain enough ∙ ap ok (add_all_lem ds start)
