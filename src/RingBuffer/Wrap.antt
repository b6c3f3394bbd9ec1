-- ===== src/RingBuffer/Wrap.antt =====
-- Places in the ring, and the rings in which the counters mean what they should.
use native.Mathlib.Nat.{mod-add-mod, mod-eq_of_lt, mod-eq-sub-mod, mod-lt}
use icewind.Common.{ℕ, ◌+◌, ◌-◌, ◌%◌, ◌≤◌, ◌<◌, ◌≡◌, ◌∙◌, sym, arith, length, inl, inr, ◌⊎◌, ap}
use native.Mathlib.Decide.{dec_lt}
use icewind.RingBuffer.Defs.{RingBuffer}

-- The place `k` steps after `t` is before the end, or past it and wrapped around.
pub data Place (t k cap : ℕ) : Type 0 where
  before : t % cap + k < cap → (t + k) % cap ≡ t % cap + k → Place t k cap
  wrapped : cap ≤ t % cap + k → (t + k) % cap ≡ t % cap + k - cap → Place t k cap

pub place : (t k cap : ℕ) → 0 < cap → k ≤ cap → Place t k cap
place t k cap pos le =
    let shift : (t + k) % cap ≡ (t % cap + k) % cap = sym (mod-add-mod t cap k) in
    let bound : t % cap < cap = mod-lt t pos in
    elim (dec_lt (t % cap + k) cap) [
      | yes h ↦ before h (shift ∙ mod-eq_of_lt h)
      | no h ↦
          wrapped (omega arith) (shift ∙ mod-eq-sub-mod (omega arith) ∙ mod-eq_of_lt (omega arith))
    ]

-- The buffer has the capacity of the header, and the ring is not full.
pub record HasRoom (r : RingBuffer) : Type 0 where
  pub positive : 0 < r.capacity
  pub fits : length r.buffer ≡ r.capacity
  pub ordered : r.tail ≤ r.head
  pub room : r.head < r.tail + r.capacity

-- How far the head's place is from the tail's.
pub distance :
    (r : RingBuffer)
    → HasRoom r
    → ((r.tail % r.capacity ≤ r.head % r.capacity)
        × (r.head % r.capacity ≡ r.tail % r.capacity + (r.head - r.tail)))
      ⊎ ((r.head % r.capacity < r.tail % r.capacity)
          × (r.head % r.capacity + r.capacity ≡ r.tail % r.capacity + (r.head - r.tail)))
distance r ring =
    let positive = ring.positive in
    let room = ring.room in
    let ordered = ring.ordered in
    let onward : r.tail + (r.head - r.tail) ≡ r.head = omega arith in
    let tail_in : r.tail % r.capacity < r.capacity = mod-lt r.tail positive in
    elim (place r.tail (r.head - r.tail) r.capacity positive (omega arith)) [
      | before inside e ↦ inl (omega (arith, ap (λ c. c % r.capacity) onward, e))
      | wrapped past e ↦ inr (omega (arith, ap (λ c. c % r.capacity) onward, e))
    ]
