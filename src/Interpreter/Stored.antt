-- ===== src/Interpreter/Stored.antt =====
-- A write of a register followed by a read of it.
use icewind.Common.{
  ℕ, zero, suc, ◌+◌, ◌-◌, ◌*◌, ◌/◌, ◌%◌, ◌^◌, ◌<◌, ◌≤◌, ◌≡◌, ◌⊎◌, inl, inr, refl, sym, ap, ◌∙◌,
  arith, lt→ltb, lt→leb, le→leb, le→ltb, ==_of_ne, bit_and, ok, Returns,
}
use icewind.Common.Bits.{bit_and_mask, two-pow-add}
use native.Mathlib.Nat.{div-div-eq-div-mul, mod-eq_of_lt, one-le-pow, pow-le-pow_right}
use icewind.BitFields.Defs.{mask}
use icewind.BitFields.Insert.{mask_lem}
use icewind.Rudder.Types
use icewind.Interpreter.Values.{unsigned_integer}
use icewind.Interpreter.RegisterFile.{
  RegisterFile, put, get, write_raw, read_raw, validate_range, in_bounds,
}
use icewind.Interpreter.Registers.{
  bytes_of, fitting, write_integer, read_integer, write_register, read_register,
}

put_at :
    (inner : ℕ → ℕ) (size offset value j : ℕ)
    → j < size
    → put inner size offset value (offset + j) ≡ value / 2 ^ (8 * j) % 2 ^ 8
unfolding put
put_at inner size offset value j h =
    let back : offset + j - offset ≡ j = omega arith in
    rw
      (
        le→leb offset (offset + j) (omega arith),
        lt→ltb (offset + j) (offset + size) (omega arith),
        back,
      )
      refl

put_outside :
    (inner : ℕ → ℕ) (size offset value i : ℕ)
    → (i < offset) ⊎ (offset + size ≤ i)
    → put inner size offset value i ≡ inner i
unfolding put
put_outside inner size offset value i (inl h) = rw (lt→leb i offset h) refl
put_outside inner size offset value i (inr h) =
    rw (le→leb offset i (omega arith), le→ltb i (offset + size) h) refl

byte_mod : (a m : ℕ) → 0 < m → a % (2 ^ 8 * m) ≡ a % 2 ^ 8 + 2 ^ 8 * (a / 2 ^ 8 % m)
byte_mod a m h = grind arith

eight_more : (n : ℕ) → 2 ^ (8 * suc n) ≡ 2 ^ 8 * 2 ^ (8 * n)
eight_more n =
    let sum : 8 * suc n ≡ 8 + 8 * n = omega arith in ap (λ y. 2 ^ y) sum ∙ two-pow-add 8 (8 * n)

-- one byte and the rest
bytes_rest : (x n : ℕ) → x % 2 ^ (8 * suc n) ≡ x % 2 ^ 8 + 2 ^ 8 * (x / 2 ^ 8 % 2 ^ (8 * n))
bytes_rest x n =
    ap (λ y. x % y) (eight_more n) ∙ byte_mod x (2 ^ (8 * n)) (one-le-pow (8 * n) 2 (omega arith))

later : (value j : ℕ) → value / 2 ^ (8 * (j + 1)) ≡ value / 2 ^ (8 * j) / 2 ^ 8
later value j =
    let sum : 8 * (j + 1) ≡ 8 * j + 8 = omega arith in
    ap (λ y. value / y) (ap (λ y. 2 ^ y) sum ∙ two-pow-add (8 * j) 8)
    ∙ sym (div-div-eq-div-mul value (2 ^ (8 * j)) (2 ^ 8))

get-put_from :
    (inner : ℕ → ℕ) (size offset value n j : ℕ)
    → j + n ≤ size
    → get (put inner size offset value) n (offset + j) ≡ value / 2 ^ (8 * j) % 2 ^ (8 * n)
unfolding get
get-put_from inner size offset value zero j h = omega arith
get-put_from inner size offset value (suc n) j h =
    let next : offset + j + 1 ≡ offset + (j + 1) = omega arith in
    let rest : get (put inner size offset value) n (offset + j + 1)
        ≡ value / 2 ^ (8 * j) / 2 ^ 8 % 2 ^ (8 * n) =
      ap (get (put inner size offset value) n) next
      ∙ get-put_from inner size offset value n (j + 1) (omega arith)
      ∙ ap (λ y. y % 2 ^ (8 * n)) (later value j) in
    omega (
      arith,
      put_at inner size offset value j (omega arith),
      rest,
      bytes_rest (value / 2 ^ (8 * j)) n,
    )

get-put :
    (inner : ℕ → ℕ) (size offset value : ℕ)
    → value < 2 ^ (8 * size)
    → get (put inner size offset value) size offset ≡ value
get-put inner size offset value h =
    let here : offset + 0 ≡ offset = omega arith in
    ap (get (put inner size offset value) size) (sym here)
    ∙ get-put_from inner size offset value size 0 (omega arith)
    ∙ ap (λ y. y % 2 ^ (8 * size)) (omega arith)
    ∙ mod-eq_of_lt h

raw_returns :
    (f : RegisterFile) (size offset value : ℕ)
    → validate_range f size offset ≡ ok tt
    → offset + size ≤ f.size
    → write_raw f size offset value ≡ ok (record f { inner = put f.inner size offset value })
unfolding write_raw in_bounds
raw_returns f size offset value valid room = rw (valid, le→leb (offset + size) f.size room) refl

read_returns :
    (f : RegisterFile) (size offset : ℕ)
    → validate_range f size offset ≡ ok tt
    → offset + size ≤ f.size
    → read_raw f size offset ≡ ok (get f.inner size offset)
unfolding read_raw in_bounds
read_returns f size offset valid room = rw (valid, le→leb (offset + size) f.size room) refl

wide_enough : (w : ℕ) → w ≤ 64 → w ≤ 8 * bytes_of w
unfolding bytes_of
wide_enough w h = ground arith

module _ (f : RegisterFile) (value w offset : ℕ) (pos : 0 < w) (small : w ≤ 64)
    (fits : value < 2 ^ w) (valid : validate_range f (bytes_of w) offset ≡ ok tt)
    (room : offset + bytes_of w ≤ f.size) where
  -- the state after the write
  stored : RegisterFile
  stored = record f { inner = put f.inner (bytes_of w) offset value }

  has_room : value < 2 ^ (8 * bytes_of w)
  has_room =
      let wide : 2 ^ w ≤ 2 ^ (8 * bytes_of w) =
        pow-le-pow_right (omega arith) (wide_enough w small) in
      omega (arith, wide, fits)

  write_stores : write_register f (unsigned_integer value w) offset ≡ ok stored
  unfolding write_register write_integer fitting stored
  write_stores =
      rw
        (
          ==_of_ne w 0 (λ e. omega (arith, e, pos)),
          le→leb w 64 small,
          lt→ltb value (2 ^ (8 * bytes_of w)) has_room,
        )
        (raw_returns f (bytes_of w) offset value valid room)

  unmasked : bit_and (get stored.inner (bytes_of w) offset) (mask w) ≡ value
  unfolding stored
  unmasked =
      ap (λ y. bit_and y (mask w)) (get-put f.inner (bytes_of w) offset value has_room)
      ∙ ap (bit_and value) (mask_lem w small)
      ∙ bit_and_mask w value
      ∙ mod-eq_of_lt fits

  read_back :
      read_register stored (Types.primitive (Types.unsigned_integer w)) offset
      ≡ ok (unsigned_integer value w)
  unfolding read_register read_integer stored validate_range
  read_back =
      rw
        (
          ==_of_ne w 0 (λ e. omega (arith, e, pos)),
          le→leb w 64 small,
          read_returns stored (bytes_of w) offset valid room,
        )
        (ap (λ y. ok (unsigned_integer y w)) unmasked)

-- When an unsigned value of 1 to 64 bits is written to a register whose bytes lie in the
-- register file and pass the range check, the write returns, a read with that type gives the
-- value again, and no byte outside the register has changed.
pub read_register-write_register :
    (f : RegisterFile) (value w offset : ℕ)
    → 0 < w
    → w ≤ 64
    → value < 2 ^ w
    → validate_range f (bytes_of w) offset ≡ ok tt
    → offset + bytes_of w ≤ f.size
    → Returns (write_register f (unsigned_integer value w) offset) (λ f'.
      (read_register f' (Types.primitive (Types.unsigned_integer w)) offset
        ≡ ok (unsigned_integer value w))
      × ((i : ℕ) → (i < offset) ⊎ (offset + bytes_of w ≤ i) → f'.inner i ≡ f.inner i))
unfolding stored
read_register-write_register f value w offset pos small fits valid room =
    rw (write_stores f value w offset pos small fits valid room) (
      read_back f value w offset pos small fits valid room,
      λ i out. put_outside f.inner (bytes_of w) offset value i out,
    )
