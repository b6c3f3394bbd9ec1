-- ===== src/RingBuffer/Defs.antt =====
-- `RingBuffer`: a header of three counters before the bytes. `head` and `tail` count all bytes
-- ever written and read; their remainders by the capacity are places in the buffer.
use icewind.Common.{
  ℕ, ◌+◌, ◌-◌, ◌%◌, min, List, ltb, leb, ◌==◌, if◌then◌else◌, length, take, drop, get_or,
  map_window, Outcome, ok, panic, ◌>>=◌, ◌^◌, ◌||◌,
}

pub record RingBuffer : Type 0 where
  pub capacity : ℕ
  pub head : ℕ
  pub tail : ℕ
  pub buffer : List ℕ

-- `size_of::<Header>()`: three words of eight bytes
abbrev pub header_size : ℕ
header_size = 24

-- `init` on a memory of bytes; `split_at_mut` panics where the header does not fit
unfoldable pub init : List ℕ → Outcome RingBuffer
init mem =
    if leb header_size (length mem)
    then ok (record {
      capacity = length (drop header_size mem);
      head = 0;
      tail = 0;
      buffer = drop header_size mem;
    })
    else panic

-- `buffer[start..start + n].copy_from_slice(&bytes[from..from + n])`
abbrev pub copy : ℕ → ℕ → List ℕ → ℕ → List ℕ → List ℕ
copy start n bytes from = map_window (λ i old. get_or bytes (from + i) old) start n

-- The free space as `write` sees it: the slice `a` from the head on, and `b` from place 0 on.
pub record Space : Type 0 where
  pub a : ℕ
  pub b : ℕ

abbrev pub free_space : ℕ → ℕ → ℕ → Space
free_space len head_wrapped tail_wrapped =
    if leb tail_wrapped head_wrapped
    then record { a = len - head_wrapped; b = tail_wrapped }
    else record { a = tail_wrapped - head_wrapped; b = 0 }

-- The counters are words of 64 bits.
abbrev pub advance : ℕ → ℕ → ℕ
advance counter n = (counter + n) % 2 ^ 64

-- Returns the ring and how many bytes were written. A capacity of 0 divides by zero, and both
-- places have to be within the buffer.
unfoldable pub write : RingBuffer → List ℕ → Outcome (RingBuffer × ℕ)
write r bytes =
    if ltb r.capacity (length bytes)
    then panic
    else if r.capacity == 0
    then panic
    else let head_wrapped = r.head % r.capacity in
      let tail_wrapped = r.tail % r.capacity in
      if ltb (length r.buffer) tail_wrapped || ltb (length r.buffer) head_wrapped
      then panic
      else let space = free_space (length r.buffer) head_wrapped tail_wrapped in
        let total = min (space.a + space.b) (length bytes) in
        let first_write = min space.a (length bytes) in
        let buffer = copy head_wrapped first_write bytes 0 r.buffer in
        ok (
          record r {
            head = advance r.head total;
            buffer = copy 0 (total - first_write) bytes first_write buffer;
          },
          total,
        )

pub data MaybeSplitBuffer : Type 0 where
  single : List ℕ → MaybeSplitBuffer
  split : List ℕ → List ℕ → MaybeSplitBuffer

-- `MaybeSplitBuffer::len`
abbrev pub len : MaybeSplitBuffer → ℕ
len (single buf) = length buf
len (split a b) = length a + length b

-- `buffer[lo..hi]`
abbrev pub slice : List ℕ → ℕ → ℕ → List ℕ
slice buffer lo hi = take (hi - lo) (drop lo buffer)

-- What `read` hands to its callback once there is something to read.
unfoldable pub view : RingBuffer → Outcome MaybeSplitBuffer
view r =
    if r.capacity == 0
    then panic
    else let head_wrapped = r.head % r.capacity in
      let tail_wrapped = r.tail % r.capacity in
      if head_wrapped == tail_wrapped
      then panic
      else if ltb tail_wrapped head_wrapped
      then if ltb (length r.buffer) head_wrapped
        then panic
        else ok (single (slice r.buffer tail_wrapped head_wrapped))
      else if ltb (length r.buffer) r.capacity
      then panic
      else ok (split (slice r.buffer tail_wrapped r.capacity) (slice r.buffer 0 head_wrapped))

-- `consume` is the callback: how many of the bytes that it is handed it has used.
unfoldable pub read : RingBuffer → (MaybeSplitBuffer → ℕ) → Outcome RingBuffer
read r consume =
    if r.head == r.tail
    then ok r
    else do buffer ← view r; ok (record r { tail = advance (consume buffer) r.tail })
