-- ===== src/Virtio/Queue/Rings.antt =====
-- What the two rings give and take.
use icewind.Common.{
  ℕ, zero, suc, ◌+◌, ◌-◌, ◌/◌, ◌%◌, ◌^◌, ◌≤◌, ◌<◌, ◌≡◌, ◌∙◌, ◌⊎◌, inl, inr, refl, sym, ap, arith,
  get_or, le→leb, lt→leb, ==_of_ne, ==_of_eq, Returns,
}
use native.Mathlib.Nat.{pow-succ'}
use icewind.Virtio.Queue.Defs.{
  VirtQueue, Memory, load, put, le_bytes, push, used_index, used_flags, used_entry, next16,
}

load_ext :
    (n : ℕ) (m m' : Memory) (a : ℕ)
    → ((i : ℕ) → i < n → m (a + i) ≡ m' (a + i))
    → load m a n ≡ load m' a n
unfolding load
load_ext zero m m' a h = refl
load_ext (suc n) m m' a h =
    let zeroth : a + 0 ≡ a = omega arith in
    let first : m a ≡ m' a = sym (ap m zeroth) ∙ h 0 (omega arith) ∙ ap m' zeroth in
    let rest = load_ext n m m' (a + 1) (λ i lt.
      let place : a + 1 + i ≡ a + (i + 1) = omega arith in rw place (h (i + 1) (omega arith))) in
    omega (arith, first, rest)

load-le_bytes :
    (n v : ℕ) (m : Memory) (a : ℕ)
    → v < 256 ^ n
    → ((i : ℕ) → i < n → m (a + i) ≡ get_or (le_bytes n v) i 0)
    → load m a n ≡ v
unfolding load le_bytes
load-le_bytes zero v m a small h = omega arith
load-le_bytes (suc n) v m a small h =
    let zeroth : a + 0 ≡ a = omega arith in
    let first : m a ≡ v % 256 = sym (ap m zeroth) ∙ h 0 (omega arith) in
    let rest = load-le_bytes n (v / 256) m (a + 1) (omega (arith, pow-succ' 256 n)) (λ i lt.
      let place : a + 1 + i ≡ a + suc i = omega arith in rw place (h (suc i) (omega arith))) in
    omega (arith, first, rest)

get_or-le_bytes : (n v i d : ℕ) → i < n → get_or (le_bytes n v) i d ≡ get_or (le_bytes n v) i 0
unfolding le_bytes
get_or-le_bytes zero v i d lt = absurd (omega arith)
get_or-le_bytes (suc n) v zero d lt = refl
get_or-le_bytes (suc n) v (suc i) d lt = get_or-le_bytes n (v / 256) i d (omega arith)

get_or-le_bytes_beyond : (n v i d : ℕ) → n ≤ i → get_or (le_bytes n v) i d ≡ d
unfolding le_bytes
get_or-le_bytes_beyond zero v i d le = refl
get_or-le_bytes_beyond (suc n) v zero d le = absurd (omega arith)
get_or-le_bytes_beyond (suc n) v (suc i) d le = get_or-le_bytes_beyond n (v / 256) i d (omega arith)

put_at :
    (m : Memory) (a n v i : ℕ) → i < n → put m a (le_bytes n v) (a + i) ≡ get_or (le_bytes n v) i 0
unfolding put
put_at m a n v i lt =
    let over = le→leb a (a + i) (omega arith) in
    let place : a + i - a ≡ i = omega arith in
    rw (over, place) (get_or-le_bytes n v i (m (a + i)) lt)

-- A write of `n` bytes changes no byte outside them.
put_else : (m : Memory) (a n v x : ℕ) → (x < a) ⊎ (a + n ≤ x) → put m a (le_bytes n v) x ≡ m x
unfolding put
put_else m a n v x (inl before) = rw (lt→leb x a before) refl
put_else m a n v x (inr after) =
    rw (le→leb a x (omega arith)) (get_or-le_bytes_beyond n v (x - a) (m x) (omega arith))

-- A word just written is what is read.
load-put : (m : Memory) (a n v : ℕ) → v < 256 ^ n → load (put m a (le_bytes n v)) a n ≡ v
load-put m a n v small = load-le_bytes n v (put m a (le_bytes n v)) a small (put_at m a n v)

-- A word apart from the one written is what it was.
load-put_else :
    (m : Memory) (a n v b k : ℕ)
    → (b + k ≤ a) ⊎ (a + n ≤ b)
    → load (put m a (le_bytes n v)) b k ≡ load m b k
load-put_else m a n v b k apart =
    load_ext k (put m a (le_bytes n v)) m b (λ i lt. put_else m a n v (b + i) (omega arith))

-- What `push` did to the memory: the entry has the element and the size, the index is one on, and
-- no other byte has changed.
pub record IsPushed (m : Memory) (q : VirtQueue) (element size : ℕ) (m' : Memory) : Type 0 where
  pub index : used_index m' q ≡ next16 (used_index m q)
  pub id : load m' (used_entry q (used_index m q % q.queue_num)) 4 ≡ element
  pub len : load m' (used_entry q (used_index m q % q.queue_num) + 4) 4 ≡ size
  pub others :
      (x : ℕ)
      → (x < used_entry q (used_index m q % q.queue_num))
        ⊎ (used_entry q (used_index m q % q.queue_num) + 8 ≤ x)
      → (x < q.used_hva + 2) ⊎ (q.used_hva + 4 ≤ x)
      → m' x ≡ m x

-- On a queue with at least one entry, whose used ring has no flags set, `push` of an element and
-- a size of 32 bits returns. The entry at the used index, modulo the queue's size, then holds
-- both, the used index is one on, modulo 2 ^ 16, and no byte of the memory outside the entry and
-- the index has changed.
pub push-IsPushed :
    (m : Memory) (q : VirtQueue) (element size : ℕ)
    → 0 < q.queue_num
    → element < 2 ^ 32
    → size < 2 ^ 32
    → used_flags m q ≡ 0
    → Returns (push m q element size) (IsPushed m q element size)
unfolding push
push-IsPushed m q element size some_entries small_element small_size no_flags =
    let idx = used_index m q % q.queue_num in
    let entry = used_entry q idx in
    let above : q.used_hva + 4 ≤ entry = omega arith in
    let m1 = put m entry (le_bytes 4 element) in
    let m2 = put m1 (entry + 4) (le_bytes 4 size) in
    let flags : used_flags m2 q ≡ 0 =
      load-put_else m1 (entry + 4) 4 size q.used_hva 2 (inl (omega arith))
      ∙ load-put_else m entry 4 element q.used_hva 2 (inl (omega arith))
      ∙ no_flags in
    let same_index : used_index m2 q ≡ used_index m q =
      load-put_else m1 (entry + 4) 4 size (q.used_hva + 2) 2 (inl (omega arith))
      ∙ load-put_else m entry 4 element (q.used_hva + 2) 2 (inl (omega arith)) in
    let v = next16 (used_index m2 q) in
    let positive = ==_of_ne q.queue_num 0 (λ e. omega arith) in
    let fits = lt→leb element (2 ^ 32) small_element in
    let clear = ==_of_eq (used_flags m2 q) 0 flags in
    simp (positive, fits, clear)
      (record {
        index = load-put m2 (q.used_hva + 2) 2 v (omega arith) ∙ ap next16 same_index;
        id =
            load-put_else m2 (q.used_hva + 2) 2 v entry 4 (inr (omega arith))
            ∙ load-put_else m1 (entry + 4) 4 size entry 4 (inl (omega arith))
            ∙ load-put m entry 4 element (omega arith);
        len =
            load-put_else m2 (q.used_hva + 2) 2 v (entry + 4) 4 (inr (omega arith))
            ∙ load-put m1 (entry + 4) 4 size (omega arith);
        others = λ x out_entry out_index.
            put_else m2 (q.used_hva + 2) 2 v x (omega arith)
            ∙ put_else m1 (entry + 4) 4 size x (omega arith)
            ∙ put_else m entry 4 element x (omega arith);
      })
