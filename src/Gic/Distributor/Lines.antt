-- ===== src/Gic/Distributor/Lines.antt =====
-- What a write to a distributor register does to each line.
use icewind.Common.{
  ℕ, ◌+◌, ◌-◌, ◌*◌, ◌/◌, ◌%◌, ◌^◌, bit_and, sym, ==_iff, ◌≤◌, ◌<◌, min, ◌≡◌, refl, ◌∙◌, Bool, true,
  false, ◌&&◌, ◌||◌, some, arith, ltb, leb, if◌then◌else◌, length, get_elem?, length-map_window,
  get_elem?-map_window_in, get_elem?-map_window_out, ok, panic, Returns, Returns-map, ◌↔◌,
  Bool-cases, inl, inr, ◌⊎◌,
}
use icewind.Common.Bits.{bit_and_mask}
use icewind.Gic.Defs.{IrqLine, Controller}
use icewind.Gic.Distributor.Defs.{
  lines_for_bitvector, for_each, write_register, isenable, icenable, icactive, ipriority, itargets,
  icfg, bit_set,
}

-- `lines_for_bitvector` gives the lines from `8 * base / bits` on, one for each field of `len`
-- bytes, but never line 1019.
pub lines_for_bitvector_lem :
    (c : Controller) (base len bits : ℕ)
    → 1019 ≤ length c.lines
    → 8 * base / bits ≤ 1019
    → lines_for_bitvector c base len bits
      ≡ ok (record {
        start = 8 * base / bits;
        count = min (8 * len / bits) (1019 - 8 * base / bits);
      })
unfolding lines_for_bitvector
lines_for_bitvector_lem c base len bits enough low = ground arith

-- It panics where the first line lies beyond line 1019.
pub lines_for_bitvector_panic :
    (c : Controller) (base len bits : ℕ)
    → 1019 < 8 * base / bits
    → lines_for_bitvector c base len bits ≡ panic
unfolding lines_for_bitvector
lines_for_bitvector_panic c base len bits high = ground arith

-- Line `i` is among the `count` lines from `start` on, and is not line 1019.
abbrev pub is_covered : ℕ → ℕ → ℕ → Bool
is_covered start count i = leb start i && ltb i (start + count) && ltb i 1019

covered_in : (s n i : ℕ) → is_covered s n i ≡ true → (s ≤ i) × (i < s + min n (1019 - s))
covered_in s n i h = ground arith

covered_out :
    (s n i : ℕ) → s ≤ 1019 → is_covered s n i ≡ false → (i < s) ⊎ (s + min n (1019 - s) ≤ i)
covered_out s n i low h = ground arith

-- `f` has been applied to each covered line, at its place in the window, and to no other line.
pub record IsApplied (c : Controller) (start count : ℕ) (f : ℕ → IrqLine → IrqLine)
    (c' : Controller) : Type 0 where
  pub same_length : length c'.lines ≡ length c.lines
  pub line :
      (i : ℕ) (l : IrqLine)
      → get_elem? c.lines i ≡ some l
      → get_elem? c'.lines i ≡ some (if is_covered start count i then f (i - start) l else l)
  pub same_rest : c' ≡ record c { lines = c'.lines }

pub for_each-IsApplied :
    (c : Controller) (base len bits : ℕ) (f : ℕ → IrqLine → IrqLine) {start : ℕ}
    → 1019 ≤ length c.lines
    → 8 * base / bits ≡ start
    → start ≤ 1019
    → Returns (for_each c base len bits f) (IsApplied c start (8 * len / bits) f)
unfolding for_each
for_each-IsApplied c base len bits f {start} enough e low =
    rw (lines_for_bitvector_lem c base len bits enough (rw e low), e)
      (record {
        same_length = length-map_window f start count c.lines;
        line = λ i l at. elim (Bool-cases (is_covered start (8 * len / bits) i)) [
          | inl hit ↦
              let (lo, hi) = covered_in start (8 * len / bits) i hit in
              rw hit (get_elem?-map_window_in f start count c.lines i lo hi at)
          | inr miss ↦ rw miss (
              get_elem?-map_window_out f start count c.lines i
                (covered_out start (8 * len / bits) i low miss)
              ∙ at)
        ];
        same_rest = refl;
      })
  where
    count : ℕ
    count = min (8 * len / bits) (1019 - start)

module _ (c : Controller) (offset value : ℕ) (enough : 1019 ≤ length c.lines) where
  -- GICD_ISENABLE, with a bit for each of 32 lines.
  pub write-isenable :
      0x0100 ≤ offset
      → offset ≤ 0x017f
      → Returns
          (write_register c offset value)
          (IsApplied c (8 * (offset - 0x0100)) 32 (isenable value))
  unfolding write_register
  write-isenable lo hi =
      let arm : write_register c offset value ≡ for_each c (offset - 0x0100) 4 1 (isenable value) =
        ground arith in
      rw arm (
        for_each-IsApplied c (offset - 0x0100) 4 1 (isenable value) enough (omega arith)
          (omega arith))

  -- GICD_ICENABLE: a line stays disabled, or becomes so, only if it was enabled and its bit is one.
  pub write-icenable :
      0x0180 ≤ offset
      → offset ≤ 0x01ff
      → Returns
          (write_register c offset value)
          (IsApplied c (8 * (offset - 0x0180)) 32 (icenable value))
  unfolding write_register
  write-icenable lo hi =
      let arm : write_register c offset value ≡ for_each c (offset - 0x0180) 4 1 (icenable value) =
        ground arith in
      rw arm (
        for_each-IsApplied c (offset - 0x0180) 4 1 (icenable value) enough (omega arith)
          (omega arith))

  -- GICD_ICACTIVE, with the same effect on the active flag.
  pub write-icactive :
      0x0380 ≤ offset
      → offset ≤ 0x03ff
      → Returns
          (write_register c offset value)
          (IsApplied c (8 * (offset - 0x0380)) 32 (icactive value))
  unfolding write_register
  write-icactive lo hi =
      let arm : write_register c offset value ≡ for_each c (offset - 0x0380) 4 1 (icactive value) =
        ground arith in
      rw arm (
        for_each-IsApplied c (offset - 0x0380) 4 1 (icactive value) enough (omega arith)
          (omega arith))

  -- GICD_IPRIORITY, one byte for each of four lines.
  pub write-ipriority :
      0x0400 ≤ offset
      → offset ≤ 0x07fb
      → Returns (write_register c offset value) (IsApplied c (offset - 0x0400) 4 (ipriority value))
  unfolding write_register
  write-ipriority lo hi =
      let arm : write_register c offset value ≡ for_each c (offset - 0x0400) 4 8 (ipriority value) =
        ground arith in
      rw arm (
        for_each-IsApplied c (offset - 0x0400) 4 8 (ipriority value) enough (omega arith)
          (omega arith))

  -- GICD_ITARGETS, one byte for each of four lines.
  pub write-itargets :
      0x0800 ≤ offset
      → offset ≤ 0x0bfb
      → Returns (write_register c offset value) (IsApplied c (offset - 0x0800) 4 (itargets value))
  unfolding write_register
  write-itargets lo hi =
      let arm : write_register c offset value ≡ for_each c (offset - 0x0800) 4 8 (itargets value) =
        ground arith in
      rw arm (
        for_each-IsApplied c (offset - 0x0800) 4 8 (itargets value) enough (omega arith)
          (omega arith))

  -- GICD_ICFG, two bits for each of 16 lines, as far as the lines go.
  pub write-icfg :
      0x0c00 ≤ offset
      → offset ≤ 0x0cfe
      → Returns
          (write_register c offset value)
          (IsApplied c (4 * (offset - 0x0c00)) 16 (icfg value))
  unfolding write_register
  write-icfg lo hi =
      let arm : write_register c offset value ≡ for_each c (offset - 0x0c00) 4 2 (icfg value) =
        ground arith in
      rw arm
        (for_each-IsApplied c (offset - 0x0c00) 4 2 (icfg value) enough (omega arith) (omega arith))

-- At the offsets from 0xcff to 0xdff, which the arm for GICD_ICFG accepts, every write panics.
pub write-icfg_panic :
    (c : Controller) (offset value : ℕ)
    → 0x0cff ≤ offset
    → offset ≤ 0x0dff
    → write_register c offset value ≡ panic
unfolding write_register for_each
write-icfg_panic c offset value lo hi =
    let arm : write_register c offset value ≡ for_each c (offset - 0x0c00) 4 2 (icfg value) =
      ground arith in
    let beyond = lines_for_bitvector_panic c (offset - 0x0c00) 4 2 (omega arith) in arm ∙ rw beyond

-- With at least 1019 lines, after a write to GICD_ICENABLE a line of the register is disabled
-- exactly if it was enabled and its bit is one.
pub icenable_disables :
    (c : Controller) (offset value i : ℕ) (l : IrqLine)
    → 1019 ≤ length c.lines
    → 0x0180 ≤ offset
    → offset ≤ 0x01ff
    → get_elem? c.lines i ≡ some l
    → is_covered (8 * (offset - 0x0180)) 32 i ≡ true
    → Returns (write_register c offset value) (λ c'.
      (l' : IrqLine) × (get_elem? c'.lines i ≡ some l')
      × ((l'.enabled ≡ false)
          ↔ ((l.enabled ≡ true) × (bit_set value (i - 8 * (offset - 0x0180)) ≡ true))))
icenable_disables c offset value i l enough lo hi at covered =
    Returns-map (write_register c offset value) _ _
      (λ c' a.
        (icenable value (i - 8 * (offset - 0x0180)) l, a.line i l at ∙ rw covered, ground arith))
      (write-icenable c offset value enough lo hi)

bit_set_iff : (value k : ℕ) → (bit_set value k ≡ true) ↔ (value / 2 ^ k % 2 ≡ 1)
bit_set_iff value k =
    let low : bit_and (value / 2 ^ k) 1 ≡ value / 2 ^ k % 2 = bit_and_mask 1 (value / 2 ^ k) in
    let test = ==_iff (bit_and (value / 2 ^ k) 1) 1 in
    (λ h. sym low ∙ test.0 h, λ h. test.1 (low ∙ h))

or_iff :
    (a b : Bool) {P : Type 0}
    → (b ≡ true) ↔ P
    → ((a || b) ≡ true) ↔ ((a ≡ true) ⊎ ((true ≡ true) × P))
or_iff true b h = (λ e. inl refl, λ s. refl)
or_iff false b h =
    (λ e. inr (refl, h.0 e), λ s. elim s [ inl never ↦ absurd cc | inr (_, p) ↦ h.1 p ])

-- the line is as before, but enabled if it was or if it is covered and its bit is one
abbrev pub IsEnabling : ℕ → ℕ → ℕ → IrqLine → IrqLine → Type 0
IsEnabling start value i l l' =
    (l' ≡ record l { enabled = l'.enabled })
    × ((l'.enabled ≡ true) ↔ (
        (l.enabled ≡ true) ⊎ ((is_covered start 32 i ≡ true) × (value / 2 ^ (i - start) % 2 ≡ 1))))

isenable-IsEnabling :
    (start value i : ℕ) (l : IrqLine)
    → IsEnabling start value i l (if is_covered start 32 i then isenable value (i - start) l else l)
isenable-IsEnabling start value i l = elim (Bool-cases (is_covered start 32 i)) [
  | inl hit ↦ rw hit (
      let bit = bit_set_iff value (i - start) in
      (refl, or_iff l.enabled (bit_set value (i - start)) bit))
  | inr miss ↦ rw miss (refl, (λ e. inl e, λ s. elim s [ inl e ↦ e | inr (never, _) ↦ absurd cc ]))
]

-- With at least 1019 lines, a write to GICD_ISENABLE returns and changes nothing but lines,
-- whose number stays. A line that exists is enabled afterwards exactly if it was before, or if
-- it is one of the 32 lines of the register, below 1019, and its bit of the value is one; its
-- other fields stay.
pub isenable_enables :
    (c : Controller) (offset value i : ℕ) (l : IrqLine)
    → 1019 ≤ length c.lines
    → 0x0100 ≤ offset
    → offset ≤ 0x017f
    → get_elem? c.lines i ≡ some l
    → Returns (write_register c offset value) (λ c'.
      (c' ≡ record c { lines = c'.lines })
      × (length c'.lines ≡ length c.lines)
      × ((l' : IrqLine) × (get_elem? c'.lines i ≡ some l')
          × IsEnabling (8 * (offset - 0x0100)) value i l l'))
isenable_enables c offset value i l enough lo hi at =
    Returns-map (write_register c offset value) _ _
      (λ c' a. (
        a.same_rest,
        a.same_length,
        (_, a.line i l at, isenable-IsEnabling (8 * (offset - 0x0100)) value i l),
      ))
      (write-isenable c offset value enough lo hi)
