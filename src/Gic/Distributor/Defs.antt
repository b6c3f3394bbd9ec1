-- ===== src/Gic/Distributor/Defs.antt =====
-- The `read` and `write` methods of `DistributorInterface`.
use icewind.Common.{
  ℕ, zero, suc, ◌+◌, ◌-◌, ◌*◌, ◌/◌, bit_and, bit_or, min, Bool, not, ◌&&◌, ◌||◌, List, [], ◌∷◌, ltb,
  leb, ◌==◌, if◌then◌else◌, length, set, take, drop, map_window, Outcome, ok, panic, ◌>>=◌, index,
  u8, u32, ◌>>>◌, ◌<<<◌, of_bool,
}
use icewind.Gic.Defs.{IrqLine, Controller, raise, rescind}
use icewind.Gic.Bytes.{written, copied}

-- `lines_for_bitvector`: the lines from index `start` on, `count` of them. The slice
-- `lines[start..end]` panics if `end < start` or the array is shorter than `end`.
pub record Window : Type 0 where
  pub start : ℕ
  pub count : ℕ

unfoldable pub lines_for_bitvector : Controller → ℕ → ℕ → ℕ → Outcome Window
lines_for_bitvector c base len bits =
    let start = 8 * base / bits in
    let end = min (8 * len / bits + start) 1019 in
    if leb start end && leb end (length c.lines)
    then ok (record { start = start; count = end - start })
    else panic

-- `lines.iter().enumerate().for_each(f)` over that slice
unfoldable pub for_each : Controller → ℕ → ℕ → ℕ → (ℕ → IrqLine → IrqLine) → Outcome Controller
for_each c base len bits f = do
  w ← lines_for_bitvector c base len bits
  ok (record c { lines = map_window f w.start w.count c.lines })

-- `lines.iter().enumerate().fold(0, ..)` with `acc | (field(line) << (index * shift))`, on `u32`
unfoldable pub fold_fields : (IrqLine → ℕ) → ℕ → ℕ → ℕ → List IrqLine → ℕ
fold_fields field shift i acc [] = acc
fold_fields field shift i acc (l ∷ ls) =
    fold_fields field shift (i + 1) (bit_or acc (u32 (field l <<< (i * shift)))) ls

unfoldable pub gather : Controller → ℕ → ℕ → ℕ → (IrqLine → ℕ) → ℕ → Outcome ℕ
gather c base len bits field shift = do
  w ← lines_for_bitvector c base len bits
  ok (fold_fields field shift 0 0 (take w.count (drop w.start c.lines)))

-- `(value >> index) & 1 == 1`
abbrev pub bit_set : ℕ → ℕ → Bool
bit_set value i = bit_and (value >>> i) 1 == 1

-- `fetch_or` and `fetch_nand` on a flag
abbrev pub isenable : ℕ → ℕ → IrqLine → IrqLine
isenable value i l = record l { enabled = l.enabled || bit_set value i }

abbrev pub icenable : ℕ → ℕ → IrqLine → IrqLine
icenable value i l = record l { enabled = not (l.enabled && bit_set value i) }

abbrev pub icactive : ℕ → ℕ → IrqLine → IrqLine
icactive value i l = record l { active = not (l.active && bit_set value i) }

abbrev pub ipriority : ℕ → ℕ → IrqLine → IrqLine
ipriority value i l = record l { priority = u8 (bit_and (value >>> (i * 8)) 0xff) }

abbrev pub itargets : ℕ → ℕ → IrqLine → IrqLine
itargets value i l = record l { cpu_mask = u8 (bit_and (value >>> (i * 8)) 0xff) }

abbrev pub icfg : ℕ → ℕ → IrqLine → IrqLine
icfg value i l = record l { config = u8 (bit_and (value >>> (i * 2)) 0x3) }

-- GICD_SGIR
unfoldable pub software_interrupt : Controller → ℕ → Outcome Controller
software_interrupt c value = if ltb (u8 value) 16 then raise c (u8 value) else ok c

-- the loop of GICD_CPENDSGIR over the `n` lines from index `i` on
unfoldable pub clear_pending : ℕ → ℕ → ℕ → Controller → Outcome Controller
clear_pending zero i value c = ok c
clear_pending (suc n) i value c = do
  line ← index c.lines i
  c' ←
      rescind
        (record c {
          lines =
              set c.lines i (record line { pending = line.pending && not (bit_and value 1 == 1) });
        })
        i
  clear_pending n (i + 1) (value >>> 1) c'

unfoldable pub clear_pending_sgi : Controller → ℕ → ℕ → Outcome Controller
clear_pending_sgi c base value = do
  w ← lines_for_bitvector c base 4 1
  clear_pending w.count w.start value c

-- `lo..=hi`
abbrev pub within : ℕ → ℕ → ℕ → Bool
within lo hi offset = leb lo offset && leb offset hi

-- the arms of `write`, in their order
unfoldable pub write_register : Controller → ℕ → ℕ → Outcome Controller
write_register c offset value =
    if offset == 0x0000
    then ok (record c { distributor_enabled = bit_and value 1 == 1 })
    else if within 0x0100 0x017f offset
    then for_each c (offset - 0x0100) 4 1 (isenable value)
    else if within 0x0180 0x01ff offset
    then for_each c (offset - 0x0180) 4 1 (icenable value)
    else if within 0x0380 0x03ff offset
    then for_each c (offset - 0x0380) 4 1 (icactive value)
    else if within 0x0400 0x07fb offset
    then for_each c (offset - 0x0400) 4 8 (ipriority value)
    else if within 0x0800 0x0bfb offset
    then for_each c (offset - 0x0800) 4 8 (itargets value)
    else if within 0x0c00 0x0dff offset
    then for_each c (offset - 0x0c00) 4 2 (icfg value)
    else if offset == 0x0f00
    then software_interrupt c value
    else if within 0x0f10 0x0f1f offset
    then clear_pending_sgi c (offset - 0xf10) value
    else panic

unfoldable pub write : Controller → ℕ → List ℕ → Outcome Controller
write c offset bytes = written bytes >>= write_register c offset

-- the arms of `read`
unfoldable pub response : Controller → ℕ → Outcome ℕ
response c offset =
    if offset == 0x0000
    then ok (of_bool c.distributor_enabled)
    else if offset == 0x0004
    then ok 0x81f
    else if offset == 0x0008
    then ok 0x200143b
    else if within 0x0100 0x017c offset || within 0x0300 0x037c offset
    then ok 0
    else if within 0x0800 0x0bfb offset
    then gather c (offset - 0x0800) 4 8 (λ l. l.cpu_mask) 8
    else if within 0x0c00 0x0dff offset
    then gather c (offset - 0x0c00) 4 2 (λ l. l.config) 2
    else if offset == 0x0fe0
    then ok 0x90
    else if offset == 0x0fe4
    then ok 0xb4
    else if offset == 0x0fe8
    then ok 0x2b
    else if offset == 0x0fec
    then ok 0x00
    else if offset == 0x0ff0
    then ok 0x0d
    else if offset == 0x0ff4
    then ok 0xf0
    else if offset == 0x0ff8
    then ok 0x05
    else if offset == 0x0ffc
    then ok 0xb1
    else panic

unfoldable pub read : Controller → ℕ → ℕ → Outcome (List ℕ)
read c offset len = response c offset >>= copied len
