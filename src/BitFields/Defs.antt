-- ===== src/BitFields/Defs.antt =====
-- `mask`, `bit_insert` and `bit_extract`, and the smallest widths of values.
use icewind.Common.{
  ℕ, zero, suc, ◌+◌, ◌-◌, ◌%◌, ◌^◌, leb, ltb, ◌==◌, if◌then◌else◌, bit_or, bit_and, ◌<<<◌, ◌>>>◌,
  complement, u64, Outcome, ok, panic, ◌>>=◌,
}

unfoldable pub mask : ℕ → ℕ
mask width = if leb 64 width then 2 ^ 64 - 1 else (1 <<< width) - 1

-- `u32::try_from(n).unwrap()`
unfoldable pub to_u32 : ℕ → Outcome ℕ
to_u32 n = if ltb n (2 ^ 32) then ok n else panic

unfoldable pub bit_insert : ℕ → ℕ → ℕ → ℕ → Outcome ℕ
bit_insert target source start length =
    if leb 64 start then (if source == 0 then ok 0 else panic) else do
      length' ← to_u32 length
      let cleared_target : ℕ = bit_and target (complement 64 (u64 (mask length' <<< start)))
      let shifted_source : ℕ = u64 (bit_and source (mask length') <<< start)
      ok (bit_or cleared_target shifted_source)

-- a shift by a word takes the amount modulo 64
unfoldable pub bit_extract : ℕ → ℕ → ℕ → Outcome ℕ
bit_extract value start length = do
  length' ← to_u32 length
  ok (bit_and (value >>> (start % 64)) (mask length'))

-- the exponent `e` of `next_power_of_two`, the first with `n ≤ 2 ^ e`, from `e` on with fuel
unfoldable pub next_exponent : ℕ → ℕ → ℕ → ℕ
next_exponent zero e n = e
next_exponent (suc fuel) e n =
    let rest : ℕ = next_exponent fuel (suc e) n in if leb n (2 ^ e) then e else rest

-- `next_power_of_two().ilog2()` of a `u64`: a power that has no room is 0 in the release profile,
-- and `ilog2` of 0 panics
unfoldable pub ilog2_of_next_power : ℕ → Outcome ℕ
ilog2_of_next_power n = if leb n (2 ^ 63) then ok (next_exponent 63 0 n) else panic

unfoldable pub unsigned_smallest_width_of_value : ℕ → Outcome ℕ
unsigned_smallest_width_of_value value = ilog2_of_next_power (u64 (value + 1))

-- of an `i64`, given by its word
unfoldable pub signed_smallest_width_of_value : ℕ → Outcome ℕ
signed_smallest_width_of_value value = do
  let magnitude : ℕ = if leb (2 ^ 63) value then 2 ^ 64 - value - 1 else value
  width ← unsigned_smallest_width_of_value magnitude
  ok (width + 1)
