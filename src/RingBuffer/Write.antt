-- ===== src/RingBuffer/Write.antt =====
-- What `RingBuffer::write` leaves in the buffer.
use icewind.Common.{
  ℕ, ◌+◌, ◌-◌, ◌%◌, ◌≤◌, ◌<◌, ◌^◌, ◌≡◌, ◌∙◌, ◌⊎◌, inl, inr, min, List, arith, leb, length,
  get_elem?, get_or, length-map_window, get_elem?-map_window_in, get_elem?-map_window_out,
  get_elem?_total, get_elem?-eq-get_or, ap, sym, Returns, le→ltb, ==_of_ne, Bool-cases, leb→le,
  leb→lt, refl,
}
use native.Mathlib.Nat.{mod-eq_of_lt, mod-lt}
use native.Mathlib.Decide.{dec_lt}
use icewind.RingBuffer.Defs.{RingBuffer, advance, copy, write}
use icewind.RingBuffer.Wrap.{before, wrapped, place, HasRoom, distance}

-- A byte inside the window is the byte of the data; one outside is what it was.
copy_in :
    (start n : ℕ) (bytes : List ℕ) (from : ℕ) (xs : List ℕ) (i : ℕ)
    → start ≤ i
    → i < start + n
    → i < length xs
    → from + (i - start) < length bytes
    → get_elem? (copy start n bytes from xs) i ≡ get_elem? bytes (from + (i - start))
copy_in start n bytes from xs i lo hi inside known =
    let (x, e) = get_elem?_total xs i inside in
    get_elem?-map_window_in (λ j old. get_or bytes (from + j) old) start n xs i lo hi e
    ∙ sym (get_elem?-eq-get_or bytes (from + (i - start)) x known)

copy_out :
    (start n : ℕ) (bytes : List ℕ) (from : ℕ) (xs : List ℕ) (i : ℕ)
    → (i < start) ⊎ (start + n ≤ i)
    → get_elem? (copy start n bytes from xs) i ≡ get_elem? xs i
copy_out start n bytes from =
    get_elem?-map_window_out (λ j old. get_or bytes (from + j) old) start n

-- The two copies of `write`: `f` bytes from `h` on, then `s` bytes from place 0 on.
abbrev both : (h f s : ℕ) (bytes xs : List ℕ) → List ℕ
both h f s bytes xs = copy 0 s bytes f (copy h f bytes 0 xs)

module _ (h f s : ℕ) (bytes xs : List ℕ) (below : s ≤ h) (enough : f + s ≤ length bytes) where
  both_first :
      (k : ℕ)
      → k < f
      → h + k < length xs
      → get_elem? (both h f s bytes xs) (h + k) ≡ get_elem? bytes k
  both_first k lt inside =
      copy_out 0 s bytes f (copy h f bytes 0 xs) (h + k) (omega arith)
      ∙ copy_in h f bytes 0 xs (h + k) (omega arith) (omega arith) inside (omega arith)
      ∙ ap (get_elem? bytes) (omega arith)

  both_second :
      (k : ℕ) → k < s → k < length xs → get_elem? (both h f s bytes xs) k ≡ get_elem? bytes (f + k)
  both_second k lt inside =
      copy_in 0 s bytes f (copy h f bytes 0 xs) k (omega arith) (omega arith)
        (omega (arith, length-map_window (λ j old. get_or bytes (0 + j) old) h f xs)) (omega arith)
      ∙ ap (λ j. get_elem? bytes (f + j)) (omega arith)

  both_else :
      (i : ℕ) → s ≤ i → (i < h) ⊎ (h + f ≤ i) → get_elem? (both h f s bytes xs) i ≡ get_elem? xs i
  both_else i past out =
      copy_out 0 s bytes f (copy h f bytes 0 xs) i (omega arith) ∙ copy_out h f bytes 0 xs i out

-- What a write of `bytes` did to the ring `r`: as many bytes as were free, or all of them, stand
-- from the old head on, and the bytes that were not read yet are where they were.
pub record IsWritten (r : RingBuffer) (bytes : List ℕ) (out : RingBuffer × ℕ) : Type 0 where
  pub total : out.1 ≡ min (r.capacity - (r.head - r.tail)) (length bytes)
  pub head : out.0.head ≡ r.head + out.1
  pub tail : out.0.tail ≡ r.tail
  pub capacity : out.0.capacity ≡ r.capacity
  pub fits : length out.0.buffer ≡ out.0.capacity
  pub stored :
      (k : ℕ) → k < out.1 → get_elem? out.0.buffer ((r.head + k) % r.capacity) ≡ get_elem? bytes k
  pub unread :
      (k : ℕ)
      → k < r.head - r.tail
      → get_elem? out.0.buffer ((r.tail + k) % r.capacity)
        ≡ get_elem? r.buffer ((r.tail + k) % r.capacity)

module _ (r : RingBuffer) (bytes : List ℕ) (ring : HasRoom r) (small : length bytes ≤ r.capacity)
    (counts : r.head + length bytes < 2 ^ 64) where
  abbrev hw : ℕ
  hw = r.head % r.capacity

  abbrev tw : ℕ
  tw = r.tail % r.capacity

  abbrev result : ℕ → ℕ → RingBuffer × ℕ
  result t f = (record r { head = advance r.head t; buffer = both hw f (t - f) bytes r.buffer }, t)

  -- Two copies that fill the free space in order are such a write.
  result-IsWritten :
      (t f : ℕ)
      → t ≡ min (r.capacity - (r.head - r.tail)) (length bytes)
      → f ≤ t
      → t - f ≤ hw
      → hw + f ≤ r.capacity
      → (f < t → hw + f ≡ r.capacity)
      → ((k : ℕ)
          → k < r.head - r.tail
          → (t - f ≤ (r.tail + k) % r.capacity)
            × (((r.tail + k) % r.capacity < hw) ⊎ (hw + f ≤ (r.tail + k) % r.capacity)))
      → IsWritten r bytes (result t f)
  result-IsWritten t f sum part below within full apart =
      let positive = ring.positive in
      let room = ring.room in
      let ordered = ring.ordered in
      let len : f + (t - f) ≤ length bytes = omega (arith, sum) in
      record {
        total = sum;
        head = mod-eq_of_lt (omega arith);
        tail = refl;
        capacity = refl;
        fits =
            length-map_window (λ j old. get_or bytes (f + j) old) 0 (t - f)
              (copy hw f bytes 0 r.buffer)
            ∙ length-map_window (λ j old. get_or bytes (0 + j) old) hw f r.buffer
            ∙ ring.fits;
        stored = λ k lt. elim (place r.head k r.capacity positive (omega arith)) [
          | before inside e ↦
              let early : k < f = elim (dec_lt k f) [
                | yes h ↦ h
                | no h ↦ absurd (omega (arith, full (omega arith)))
              ] in
              rw e (
                both_first hw f (t - f) bytes r.buffer below len k early (omega (arith, ring.fits)))
          | wrapped past e ↦
              let at_end = full (omega arith) in
              let back : hw + k - r.capacity ≡ k - f = omega arith in
              rw (e, back)
                (both_second hw f (t - f) bytes r.buffer below len (k - f) (omega arith)
                    (omega (arith, ring.fits))
                  ∙ ap (get_elem? bytes) (omega arith))
        ];
        unread = λ k lt.
            both_else hw f (t - f) bytes r.buffer below len ((r.tail + k) % r.capacity)
              (apart k lt).0 (apart k lt).1;
      }

  straight :
      tw ≤ hw
      → IsWritten r bytes (
          result (min (r.capacity - hw + tw) (length bytes)) (min (r.capacity - hw) (length bytes)))
  straight le =
      let positive = ring.positive in
      let room = ring.room in
      let gap : hw ≡ tw + (r.head - r.tail) = omega (arith, distance r ring) in
      let head_in : hw < r.capacity = mod-lt r.head positive in
      result-IsWritten _ _ (omega arith) (omega arith) (omega arith) (omega arith)
        (λ h. omega arith)
        (λ k lt. elim (place r.tail k r.capacity positive (omega arith)) [
          | before inside e ↦ rw e (omega arith, inl (omega arith))
          | wrapped past e ↦ absurd (omega arith)
        ])

  around :
      hw < tw
      → IsWritten r bytes (result (min (tw - hw + 0) (length bytes)) (min (tw - hw) (length bytes)))
  around lt' =
      let positive = ring.positive in
      let room = ring.room in
      let gap : hw + r.capacity ≡ tw + (r.head - r.tail) = omega (arith, distance r ring) in
      let tail_in : tw < r.capacity = mod-lt r.tail positive in
      result-IsWritten _ _ (omega arith) (omega arith) (omega arith) (omega arith)
        (λ h. omega arith)
        (λ k lt. elim (place r.tail k r.capacity positive (omega arith)) [
          | before inside e ↦ rw e (omega arith, inr (omega arith))
          | wrapped past e ↦ rw e (omega arith, inl (omega arith))
        ])

  -- On a ring that is not full, a write of no more bytes than the capacity returns. It takes as
  -- many bytes as are free, or all of them, and puts them at the places from the head on,
  -- wrapping around at the end; every byte not yet read stays where it is; tail and capacity
  -- stay, and the head moves by the number of bytes taken. The counters have to stay below 2 ^
  -- 64.
  pub write-IsWritten : Returns (write r bytes) (IsWritten r bytes)
  unfolding write
  write-IsWritten =
      let head_in : hw < r.capacity = mod-lt r.head ring.positive in
      let tail_in : tw < r.capacity = mod-lt r.tail ring.positive in
      let small_ok = le→ltb r.capacity (length bytes) small in
      let some_room = ==_of_ne r.capacity 0 (λ e. omega (arith, ring.positive)) in
      let tail_ok = le→ltb r.capacity tw (omega arith) in
      let head_ok = le→ltb r.capacity hw (omega arith) in
      rw (small_ok, some_room, ring.fits, tail_ok, head_ok)
        (elim (Bool-cases (leb tw hw)) [
          | inl c ↦ rw c (straight (leb→le tw hw c))
          | inr c ↦ rw c (around (leb→lt tw hw c))
        ])
