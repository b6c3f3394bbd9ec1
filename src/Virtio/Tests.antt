-- ===== src/Virtio/Tests.antt =====
-- A device with a queue of four entries, its rings at the host addresses 100 and 200.
use icewind.Common.{
  ℕ, ◌+◌, ◌*◌, ◌^◌, ◌≡◌, refl, List, [], ◌∷◌, arith, replicate, Outcome, ok, Returns,
}
use icewind.Gic
use icewind.Gic.Level.{controller}
use icewind.Gic.Serve.{new-IsValid}
use icewind.Virtio.Queue.{
  VirtQueue, new_queue, Memory, load, put, descriptor, VirtRingDescr, push, collect,
}
use icewind.Virtio.Queue.Chain.{IsChain, last, step, collect-IsChain, read_part, write_part}
use icewind.Virtio.Queue.Rings.{IsPushed, push-IsPushed}
use icewind.Virtio.Defs.{Virtio, new, acknowledge_interrupt}
use icewind.Virtio.Interrupt.{IsAcknowledged, acknowledge_interrupt-IsAcknowledged}
use icewind.Virtio.Setup.{IsSetUp, set_up, set_up-IsSetUp}

abbrev host_of : ℕ → ℕ
host_of a = a + 4096

abbrev reads : Unit {0} → ℕ → ℕ → Outcome (Unit {0} × List ℕ)
reads s len sector = ok (s, replicate len sector)

abbrev writes : Unit {0} → List ℕ → ℕ → Outcome (Unit {0})
writes s bytes sector = ok s

abbrev empty : Memory
empty a = 0

-- one entry is available, and a chain of two descriptors stands in the table at 0
abbrev filled : Memory
filled =
    put (put (put empty 102 (1 ∷ [])) 8 (16 ∷ 0 ∷ 0 ∷ 0 ∷ 1 ∷ 0 ∷ 1 ∷ [])) 24
      (8 ∷ 0 ∷ 0 ∷ 0 ∷ 2 ∷ [])

abbrev queue : VirtQueue
queue = record new_queue { queue_num = 4; available_hva = 100; used_hva = 200 }

abbrev block : Virtio controller Unit
block = new controller Unit 2 42 Gic.new tt empty

-- with an interrupt that is not acknowledged
abbrev interrupted : Virtio controller Unit
interrupted = record block { host = record block.host { isr = 1 } }

set_up-IsSetUp_example : Returns (set_up controller Unit host_of reads writes 8 1 2 3 4 5 6 block) (
    IsSetUp controller Unit host_of reads writes 8
      (1 + 2 * 2 ^ 32)
      (3 + 4 * 2 ^ 32)
      (5 + 6 * 2 ^ 32)
      block)
unfolding new
set_up-IsSetUp_example =
    set_up-IsSetUp controller Unit host_of reads writes 8 block 1 2 3 4 5 6 refl (omega arith)
      (omega arith) (omega arith) (omega arith) (omega arith) (omega arith) (omega arith)
      (omega arith) (omega arith)

acknowledge_interrupt-IsAcknowledged_example :
    Returns
      (acknowledge_interrupt controller Unit 1 interrupted)
      (IsAcknowledged controller Unit 1 interrupted)
unfolding new
acknowledge_interrupt-IsAcknowledged_example =
    acknowledge_interrupt-IsAcknowledged controller Unit 1 interrupted new-IsValid (omega arith)
      (omega arith) (omega arith)

abbrev chain : List VirtRingDescr
chain = descriptor filled queue 0 ∷ descriptor filled queue 1 ∷ []

chain-IsChain : IsChain filled queue (descriptor filled queue 0) chain
unfolding descriptor load put
chain-IsChain = step refl refl (last refl refl)

collect-IsChain_example :
    collect host_of 8 filled queue
      (descriptor filled queue 0)
      (record { read_buffers = []; write_buffers = []; descriptor_index = 0 })
    ≡ ok (record {
      read_buffers = read_part host_of chain;
      write_buffers = write_part host_of chain;
      descriptor_index = 0;
    })
collect-IsChain_example =
    collect-IsChain host_of filled queue (descriptor filled queue 0) chain 0 8 chain-IsChain
      (omega arith)

push-IsPushed_example : Returns (push empty queue 3 513) (IsPushed empty queue 3 513)
unfolding load
push-IsPushed_example =
    push-IsPushed empty queue 3 513 (omega arith) (omega arith) (omega arith) refl
