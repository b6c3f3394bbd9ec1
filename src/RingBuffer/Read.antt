-- ===== src/RingBuffer/Read.antt =====
-- What `RingBuffer::read` hands to its callback, and the counters it leaves.
use native.Mathlib.Nat.{mod-eq_of_lt, mod-lt, add-mod_right}
use icewind.Common.{
  ℕ, ◌+◌, ◌-◌, ◌%◌, ◌≤◌, ◌<◌, ◌^◌, ◌≡◌, ◌∙◌, ◌⊎◌, sym, ==_iff, inl, inr, List, ◌++◌, arith, ltb,
  length, drop, get_elem?, ap, refl, Returns, le→ltb, ==_of_ne, ==_of_eq, Bool-cases, ltb→le,
  ltb→lt, ==→ne, ◌==◌, Returns-bind, ok, panic,
}
use icewind.Common.Slices.{
  length-take, length-drop, get_elem?-take, get_elem?-drop, get_elem?-append_left,
  get_elem?-append_right,
}
use icewind.RingBuffer.Defs.{
  RingBuffer, MaybeSplitBuffer, single, split, view, read, advance, slice, len,
}
use icewind.RingBuffer.Wrap.{before, wrapped, place, HasRoom, distance}

-- The bytes that the callback sees, the two parts in order.
abbrev pub contents : MaybeSplitBuffer → List ℕ
contents (single buf) = buf
contents (split a b) = a ++ b

-- The callback sees the bytes written and not yet read, each once and in the order of writing.
pub record IsPending (r : RingBuffer) (b : MaybeSplitBuffer) : Type 0 where
  pub size : len b ≡ r.head - r.tail
  pub inner :
      (k : ℕ)
      → k < r.head - r.tail
      → get_elem? (contents b) k ≡ get_elem? r.buffer ((r.tail + k) % r.capacity)

length-slice :
    (xs : List ℕ) (lo hi : ℕ) → lo ≤ hi → hi ≤ length xs → length (slice xs lo hi) ≡ hi - lo
length-slice xs lo hi le within =
    length-take (hi - lo) (drop lo xs) (omega (arith, length-drop lo xs))

get_elem?-slice :
    (xs : List ℕ) (lo hi i j : ℕ)
    → i < hi - lo
    → j ≡ lo + i
    → get_elem? (slice xs lo hi) i ≡ get_elem? xs j
get_elem?-slice xs lo hi i j lt e =
    get_elem?-take (hi - lo) (drop lo xs) i lt ∙ get_elem?-drop lo xs i j e

module _ (r : RingBuffer) (ring : HasRoom r) (some_bytes : r.tail < r.head) where
  abbrev hw : ℕ
  hw = r.head % r.capacity

  abbrev tw : ℕ
  tw = r.tail % r.capacity

  one_part : tw < hw → IsPending r (single (slice r.buffer tw hw))
  one_part lt =
      let room = ring.room in
      let head_in : hw < r.capacity = mod-lt r.head ring.positive in
      let gap : hw ≡ tw + (r.head - r.tail) = omega (arith, distance r ring) in
      record {
        size = length-slice r.buffer tw hw (omega arith) (omega (arith, ring.fits)) ∙ omega arith;
        inner = λ k less. elim (place r.tail k r.capacity ring.positive (omega arith)) [
          | before inside e ↦ get_elem?-slice r.buffer tw hw k _ (omega arith) e
          | wrapped past e ↦ absurd (omega arith)
        ];
      }

  two_parts : hw ≤ tw → IsPending r (split (slice r.buffer tw r.capacity) (slice r.buffer 0 hw))
  two_parts le =
      let room = ring.room in
      let head_in : hw < r.capacity = mod-lt r.head ring.positive in
      let tail_in : tw < r.capacity = mod-lt r.tail ring.positive in
      let gap : hw + r.capacity ≡ tw + (r.head - r.tail) = omega (arith, distance r ring) in
      let high = length-slice r.buffer tw r.capacity (omega arith) (omega (arith, ring.fits)) in
      let low = length-slice r.buffer 0 hw (omega arith) (omega (arith, ring.fits)) in
      record {
        size = omega (arith, high, low);
        inner = λ k less. elim (place r.tail k r.capacity ring.positive (omega arith)) [
          | before inside e ↦
              get_elem?-append_left (slice r.buffer tw r.capacity) _ k (omega (arith, high))
              ∙ get_elem?-slice r.buffer tw r.capacity k _ (omega arith) e
          | wrapped past e ↦
              get_elem?-append_right (slice r.buffer tw r.capacity) _ k (k - (r.capacity - tw))
                (omega (arith, high))
              ∙ get_elem?-slice r.buffer 0 hw (k - (r.capacity - tw)) _ (omega arith)
                  (omega (arith, e))
        ];
      }

  pub view-IsPending : Returns (view r) (IsPending r)
  unfolding view
  view-IsPending =
      let head_in : hw < r.capacity = mod-lt r.head ring.positive in
      let some_room = ==_of_ne r.capacity 0 (λ e. omega (arith, ring.positive)) in
      let apart = ==_of_ne hw tw (λ e. omega (arith, distance r ring)) in
      let head_ok = le→ltb r.capacity hw (omega arith) in
      let size_ok = le→ltb r.capacity r.capacity (omega arith) in
      rw (some_room, apart, ring.fits, head_ok, size_ok)
        (elim (Bool-cases (ltb tw hw)) [
          | inl c ↦ rw c (one_part (ltb→lt tw hw c))
          | inr c ↦ rw c (two_parts (ltb→le tw hw c))
        ])

-- What a read did to a ring with something to read: `handed` is what the callback saw. The tail
-- has moved on by what the callback used, and the rest of `handed` is what there is to read now.
pub record IsConsumed (r : RingBuffer) (consume : MaybeSplitBuffer → ℕ) (out : RingBuffer)
    : Type 0 where
  pub handed : MaybeSplitBuffer
  pub pending : IsPending r handed
  pub tail : out.tail ≡ r.tail + consume handed
  pub rest :
      (k : ℕ)
      → k < out.head - out.tail
      → get_elem? out.buffer ((out.tail + k) % out.capacity)
        ≡ get_elem? (contents handed) (consume handed + k)

pub record IsRead (r : RingBuffer) (consume : MaybeSplitBuffer → ℕ) (out : RingBuffer)
    : Type 0 where
  pub head : out.head ≡ r.head
  pub buffer : out.buffer ≡ r.buffer
  pub ring : HasRoom out
  pub consumed : ((r.head ≡ r.tail) × (out ≡ r)) ⊎ ((r.tail < r.head) × IsConsumed r consume out)

-- On a ring that is not full, with the head below 2 ^ 64, a read whose callback never claims
-- more bytes than it was handed returns, leaves the buffer and the head alone, and the ring is
-- well formed and not full again. With nothing to read, nothing changes. Otherwise the callback
-- is applied to exactly the bytes written and not yet read, in order, the tail moves on by the
-- number that it claims, and what there is to read afterwards is those bytes without the ones
-- claimed.
pub read-IsRead :
    (r : RingBuffer) (consume : MaybeSplitBuffer → ℕ)
    → HasRoom r
    → r.head < 2 ^ 64
    → ((b : MaybeSplitBuffer) → consume b ≤ len b)
    → Returns (read r consume) (IsRead r consume)
unfolding read
read-IsRead r consume ring counts honest =
    let room = ring.room in
    let ordered = ring.ordered in
    elim (Bool-cases (r.head == r.tail)) [
      | inl c ↦ rw c (record {
        head = refl;
        buffer = refl;
        ring = ring;
        consumed = inl ((==_iff r.head r.tail).0 c, refl);
      })
      | inr c ↦
          let some_bytes : r.tail < r.head = omega (arith, ==→ne r.head r.tail c) in
          rw c (
            Returns-bind (view r) (λ b. ok (record r { tail = advance (consume b) r.tail }))
              (IsPending r) (IsRead r consume) (view-IsPending r ring some_bytes)
              (λ b pending.
                let enough : consume b + r.tail ≤ r.head = omega (arith, honest b, pending.size) in
                let small : advance (consume b) r.tail ≡ consume b + r.tail =
                  mod-eq_of_lt (omega arith) in
                record {
                  head = refl;
                  buffer = refl;
                  ring = record {
                    positive = ring.positive;
                    fits = ring.fits;
                    ordered = omega (arith, small);
                    room = omega (arith, small);
                  };
                  consumed = inr (
                    some_bytes,
                    record {
                      handed = b;
                      pending = pending;
                      tail = omega (arith, small);
                      rest = λ k lt.
                          let place : advance (consume b) r.tail + k ≡ r.tail + (consume b + k) =
                            omega (arith, small) in
                          ap (λ z. get_elem? r.buffer (z % r.capacity)) place
                          ∙ sym (pending.inner (consume b + k) (omega (arith, small, lt)));
                    },
                  );
                }))
    ]

-- On a ring that is exactly full, with a capacity above 0, every read panics.
pub full_ring_panics :
    (r : RingBuffer) (consume : MaybeSplitBuffer → ℕ)
    → 0 < r.capacity
    → r.head ≡ r.tail + r.capacity
    → read r consume ≡ panic
unfolding read view
full_ring_panics r consume positive full =
    let more = ==_of_ne r.head r.tail (λ e. omega arith) in
    let some_room = ==_of_ne r.capacity 0 (λ e. omega arith) in
    let meet : r.head % r.capacity ≡ r.tail % r.capacity =
      ap (λ c. c % r.capacity) full ∙ add-mod_right r.tail r.capacity in
    let same = ==_of_eq (r.head % r.capacity) (r.tail % r.capacity) meet in
    rw (more, some_room, same) refl
