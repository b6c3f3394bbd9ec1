-- ===== src/Mmu/Pages.antt =====
-- The walk looks at the page of an address only, and the offset in the page goes into the answer.
use icewind.Common.{
  ℕ, ◌<◌, ◌-◌, ◌^◌, ◌/◌, ◌%◌, ◌+◌, ◌≡◌, refl, sym, ap, ◌∙◌, arith, bit_or, bit_and, ◌>>>◌, ◌<<<◌,
  complement, inl, inr, Bool-cases, if◌then◌else◌, ◌==◌,
}
use icewind.Common.Bits.{bit_and_mask}
use icewind.Common.Disjoint.{bit_or_add, bit_or_assoc}
use mathlib.Core.Path.{ap₂}
use icewind.Mmu.Defs.{
  Paging, Guest, ExecutionLevel, TranslationType, Translation, address, fault,
  MmuTranslationContext, FaultLevel, l1, l2, l3,
}
use icewind.Mmu.Walk.{leaf, translate_l1, translate_l2, translate_l3}
use icewind.Mmu.Buffers.{walk, base_table}

unfoldable pub with_offset : Translation → ℕ → Translation
with_offset (address q) o = address (bit_or q o)
with_offset (fault e) o = fault e

-- the address of the page of `va`
abbrev pub page_address : ℕ → ℕ
page_address va = (va >>> 12) <<< 12

-- an address cut into its page and its offset, below `2 ^ k`
IsSplit : ℕ → ℕ → Type 0
IsSplit k va = va % 2 ^ k ≡ bit_or (page_address va % 2 ^ k) (va % 2 ^ 12)

split :
    (k c va : ℕ)
    → page_address va % 2 ^ k ≡ c <<< 12
    → va % 2 ^ k ≡ (c <<< 12) + va % 2 ^ 12
    → IsSplit k va
unfolding IsSplit
split k c va high sum =
    let low : va % 2 ^ 12 < 2 ^ 12 = omega arith in
    sym (ap (λ y. bit_or y (va % 2 ^ 12)) high ∙ bit_or_add 12 c (va % 2 ^ 12) low ∙ sym sum)

split12 : (va : ℕ) → IsSplit 12 va
split12 va = split 12 0 va (omega arith) (omega arith)

split21 : (va : ℕ) → IsSplit 21 va
split21 va = split 21 (va / 2 ^ 12 % 2 ^ 9) va (omega arith) (omega arith)

split30 : (va : ℕ) → IsSplit 30 va
split30 va = split 30 (va / 2 ^ 12 % 2 ^ 18) va (omega arith) (omega arith)

-- a mask of `k` ones at least a page wide
masked :
    (k out va : ℕ)
    → IsSplit k va
    → bit_or out (bit_and va (2 ^ k - 1))
      ≡ bit_or (bit_or out (bit_and (page_address va) (2 ^ k - 1))) (bit_and va 0xfff)
unfolding IsSplit
masked k out va h =
    ap (bit_or out) (bit_and_mask k va ∙ h)
    ∙ sym (bit_or_assoc out (page_address va % 2 ^ k) (va % 2 ^ 12))
    ∙ ap₂ (λ x y. bit_or (bit_or out x) y) (sym (bit_and_mask k (page_address va)))
        (sym (bit_and_mask 12 va))

module _ (P : Paging) (tables : ℕ → ℕ → P.Descriptor) where
  open P use {Descriptor, accessed, user, read_only, is_table_or_page, is_valid, output_address}

  leaf-with_offset :
      (level : FaultLevel) (el : ExecutionLevel) (typ : TranslationType) (e : Descriptor)
      (q o va va' : ℕ)
      → leaf P tables level
          (record { guest_virtual_address = va; execution_level = el })
          typ
          e
          (bit_or q o)
        ≡ with_offset
            (leaf P tables level
              (record { guest_virtual_address = va'; execution_level = el })
              typ
              e
              q)
            o
  unfolding leaf with_offset
  leaf-with_offset level el typ e q o va va' = ground arith

  -- an entry of the last level
  page-with_offset :
      (level : FaultLevel) (el : ExecutionLevel) (typ : TranslationType) (e : Descriptor)
      (k out va : ℕ)
      → IsSplit k va
      → leaf P tables level
          (record { guest_virtual_address = va; execution_level = el })
          typ
          e
          (bit_or out (bit_and va (2 ^ k - 1)))
        ≡ with_offset
            (leaf P tables level
              (record { guest_virtual_address = page_address va; execution_level = el })
              typ
              e
              (bit_or out (bit_and (page_address va) (2 ^ k - 1))))
            (bit_and va 0xfff)
  page-with_offset level el typ e k out va h =
      ap (leaf P tables level (record { guest_virtual_address = va; execution_level = el }) typ e)
        (masked k out va h)
      ∙ leaf-with_offset level el typ e (bit_or out (bit_and (page_address va) (2 ^ k - 1)))
          (bit_and va 0xfff) va (page_address va)

  l3-with_offset :
      (table : ℕ → Descriptor) (el : ExecutionLevel) (typ : TranslationType) (va : ℕ)
      → translate_l3 P tables table
          (record { guest_virtual_address = va; execution_level = el })
          typ
        ≡ with_offset
            (translate_l3 P tables table
              (record { guest_virtual_address = page_address va; execution_level = el })
              typ)
            (bit_and va 0xfff)
  unfolding translate_l3 with_offset
  l3-with_offset table el typ va =
      let same : page_address va >>> 12 ≡ va >>> 12 = omega arith in
      rw same (elim (Bool-cases (is_table_or_page (table (bit_and (va >>> 12) 0x1ff)))) [
        | inl h ↦ rw h (
            let e : Descriptor = table (bit_and (va >>> 12) 0x1ff) in
            page-with_offset l3 el typ e 12 (output_address e) va (split12 va))
        | inr h ↦ rw h refl
      ])

  l2-with_offset :
      (table : ℕ → Descriptor) (el : ExecutionLevel) (typ : TranslationType) (va : ℕ)
      → translate_l2 P tables table
          (record { guest_virtual_address = va; execution_level = el })
          typ
        ≡ with_offset
            (translate_l2 P tables table
              (record { guest_virtual_address = page_address va; execution_level = el })
              typ)
            (bit_and va 0xfff)
  unfolding translate_l2 with_offset
  l2-with_offset table el typ va =
      let same : page_address va >>> 21 ≡ va >>> 21 = omega arith in
      let e : Descriptor = table (bit_and (va >>> 21) 0x1ff) in
      rw same (elim (Bool-cases (is_valid e)) [
        | inl h ↦ elim (Bool-cases (is_table_or_page e)) [
          | inl h' ↦ rw (h, h') (l3-with_offset (tables (output_address e)) el typ va)
          | inr h' ↦
              rw (h, h')
                (page-with_offset l2 el typ e 21
                  (bit_and (output_address e) (complement 64 ((1 <<< 21) - 1))) va (split21 va))
        ]
        | inr h ↦ rw h refl
      ])

  l1-with_offset :
      (table : ℕ → Descriptor) (el : ExecutionLevel) (typ : TranslationType) (va : ℕ)
      → translate_l1 P tables table
          (record { guest_virtual_address = va; execution_level = el })
          typ
        ≡ with_offset
            (translate_l1 P tables table
              (record { guest_virtual_address = page_address va; execution_level = el })
              typ)
            (bit_and va 0xfff)
  unfolding translate_l1 with_offset
  l1-with_offset table el typ va =
      let same : page_address va >>> 30 ≡ va >>> 30 = omega arith in
      let e : Descriptor = table (bit_and (va >>> 30) 0x1ff) in
      rw same (elim (Bool-cases (is_valid e)) [
        | inl h ↦ elim (Bool-cases (is_table_or_page e)) [
          | inl h' ↦ rw (h, h') (l2-with_offset (tables (output_address e)) el typ va)
          | inr h' ↦
              rw (h, h')
                (page-with_offset l1 el typ e 30
                  (bit_and (output_address e) (complement 64 ((1 <<< 30) - 1))) va (split30 va))
        ]
        | inr h ↦ rw h refl
      ])

module _ (P : Paging) where
  base_table-page : (g : Guest P) (va : ℕ) → base_table P g va ≡ base_table P g (page_address va)
  unfolding base_table
  base_table-page g va =
      let same : va >>> 39 ≡ page_address va >>> 39 = omega arith in
      ap
        (λ y. g.tables (
          bit_and (if bit_and y 1 == 0 then g.ttbr0_el1 else g.ttbr1_el1)
            (complement 64 0xffff000000000fff)))
        same

  -- The walk of an address is the walk of its page, with the offset in the page added.
  pub walk-page :
      (g : Guest P) (level : ExecutionLevel) (typ : TranslationType) (va : ℕ)
      → walk P g level typ va
        ≡ with_offset (walk P g level typ (page_address va)) (bit_and va 0xfff)
  unfolding walk
  walk-page g level typ va =
      let ctx : MmuTranslationContext = record {
        guest_virtual_address = page_address va;
        execution_level = level;
      } in
      l1-with_offset P g.tables (base_table P g va) level typ va
      ∙ ap (λ t. with_offset (translate_l1 P g.tables t ctx typ) (bit_and va 0xfff))
          (base_table-page g va)
