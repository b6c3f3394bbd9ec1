-- ===== src/RingBuffer/Fifo.antt =====
-- A write and the read after it: the producer's and the consumer's view of one buffer.
use icewind.Common.{
  ℕ, ◌+◌, ◌-◌, ◌%◌, ◌<◌, ◌^◌, ◌≡◌, ◌∙◌, List, arith, length, get_elem?, ap, refl, Returns,
  Returns-map,
}
use icewind.RingBuffer.Defs.{RingBuffer, MaybeSplitBuffer, write, view, len}
use icewind.RingBuffer.Wrap.{HasRoom}
use icewind.RingBuffer.Write.{IsWritten, write-IsWritten}
use icewind.RingBuffer.Read.{contents, IsPending, view-IsPending}

-- The callback is handed what was not read yet, then the bytes just written.
pub record IsQueued (r : RingBuffer) (bytes : List ℕ) (b : MaybeSplitBuffer) : Type 0 where
  pub size : len b ≡ (r.head - r.tail) + length bytes
  pub old :
      (k : ℕ)
      → k < r.head - r.tail
      → get_elem? (contents b) k ≡ get_elem? r.buffer ((r.tail + k) % r.capacity)
  pub fresh :
      (k : ℕ)
      → k < length bytes
      → get_elem? (contents b) ((r.head - r.tail) + k) ≡ get_elem? bytes k

-- On a ring that is not full, a write that leaves at least one byte free returns, and the
-- reader's callback is then handed exactly the bytes that were not read before, in order,
-- followed by the bytes just written, in order. There has to be a byte to read, and the counters
-- have to stay below 2 ^ 64.
pub view-write :
    (r : RingBuffer) (bytes : List ℕ)
    → HasRoom r
    → (r.head - r.tail) + length bytes < r.capacity
    → r.tail < r.head + length bytes
    → r.head + length bytes < 2 ^ 64
    → Returns (write r bytes) (λ out. Returns (view out.0) (IsQueued r bytes))
view-write r bytes ring strict some_bytes counts =
    let ordered = ring.ordered in
    Returns-map (write r bytes) (IsWritten r bytes) (λ out. Returns (view out.0) (IsQueued r bytes))
      (λ out written.
        let all : out.1 ≡ length bytes = omega (arith, written.total) in
        let moved : out.0.head ≡ r.head + length bytes = omega (arith, written.head, all) in
        let tail : out.0.tail ≡ r.tail = written.tail in
        let cap : out.0.capacity ≡ r.capacity = written.capacity in
        let ring' : HasRoom out.0 = record {
          positive = omega (arith, cap, ring.positive);
          fits = written.fits;
          ordered = omega (arith, moved, tail);
          room = omega (arith, moved, tail, cap);
        } in
        Returns-map (view out.0) (IsPending out.0) (IsQueued r bytes)
          (λ b pending. record {
            size = pending.size ∙ omega (arith, moved, tail);
            old = λ k lt.
                pending.inner k (omega (arith, moved, tail)) ∙ rw (tail, cap) (written.unread k lt);
            fresh = λ k lt.
                pending.inner ((r.head - r.tail) + k) (omega (arith, moved, tail))
                ∙ ap (get_elem? out.0.buffer) (
                    let place : out.0.tail + ((r.head - r.tail) + k) ≡ r.head + k =
                      omega (arith, tail) in
                    rw (place, cap) refl)
                ∙ written.stored k (omega (arith, all));
          })
          (view-IsPending out.0 ring' (omega (arith, moved, tail))))
      (write-IsWritten r bytes ring (omega arith) counts)
