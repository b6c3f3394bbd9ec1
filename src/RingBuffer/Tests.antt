-- ===== src/RingBuffer/Tests.antt =====
-- Runs of the ring buffer at small rings.
use icewind.Common.{
  ℕ, ◌+◌, ◌-◌, ◌%◌, ◌≤◌, ◌<◌, ◌^◌, ◌≡◌, List, [], ◌∷◌, arith, refl, Returns, Outcome, ok, panic,
  min,
}
use icewind.RingBuffer.Defs.{RingBuffer, MaybeSplitBuffer, len, write, view, read}
use icewind.RingBuffer.Wrap.{HasRoom}
use icewind.RingBuffer.Write.{IsWritten, write-IsWritten}
use icewind.RingBuffer.Read.{IsRead, read-IsRead, full_ring_panics}
use icewind.RingBuffer.Fifo.{IsQueued, view-write}

-- Two bytes to read, at places 3 and 4 of 8.
abbrev two_bytes : RingBuffer
two_bytes = record {
  capacity = 8;
  head = 13;
  tail = 11;
  buffer = 0 ∷ 0 ∷ 0 ∷ 41 ∷ 42 ∷ 0 ∷ 0 ∷ 0 ∷ [];
}

two_bytes-HasRoom : HasRoom two_bytes
two_bytes-HasRoom = record {
  positive = omega arith;
  fits = refl;
  ordered = omega arith;
  room = omega arith;
}

abbrev four : List ℕ
four = 1 ∷ 2 ∷ 3 ∷ 4 ∷ []

abbrev filled : RingBuffer
filled = record { capacity = 2; head = 5; tail = 3; buffer = 6 ∷ 7 ∷ [] }

abbrev take_one : MaybeSplitBuffer → ℕ
take_one b = min 1 (len b)

written_wraps :
    write two_bytes four
    ≡ ok (record two_bytes { head = 17; buffer = 4 ∷ 0 ∷ 0 ∷ 41 ∷ 42 ∷ 1 ∷ 2 ∷ 3 ∷ [] }, 4)
unfolding write icewind.Common.map_window
written_wraps = refl

write-IsWritten_example : Returns (write two_bytes four) (IsWritten two_bytes four)
write-IsWritten_example =
    write-IsWritten two_bytes four two_bytes-HasRoom (omega arith) (omega arith)

view-write_example :
    Returns (write two_bytes four) (λ out. Returns (view out.0) (IsQueued two_bytes four))
view-write_example =
    view-write two_bytes four two_bytes-HasRoom (omega arith) (omega arith) (omega arith)

read-IsRead_example : Returns (read two_bytes take_one) (IsRead two_bytes take_one)
read-IsRead_example =
    read-IsRead two_bytes take_one two_bytes-HasRoom (omega arith) (λ b. omega arith)

full_ring_panics_example : read filled take_one ≡ panic
full_ring_panics_example = full_ring_panics filled take_one (omega arith) refl
