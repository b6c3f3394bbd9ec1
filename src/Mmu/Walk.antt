-- ===== src/Mmu/Walk.antt =====
-- `translate_l1`, `translate_l2` and `translate_l3`: the walk through the guest's page tables.
use icewind.Common.{ℕ, ◌-◌, not, if◌then◌else◌, bit_or, bit_and, ◌>>>◌, complement, ◌<<<◌}
use icewind.Mmu.Defs.{
  Paging, MmuTranslationContext, TranslationType, Translation, address, fault, FaultLevel, l1, l2,
  l3, FaultType, translation, access_flag, permission, has_permission,
}

abbrev failure : FaultLevel → FaultType → TranslationType → Translation
failure level fault_type typ =
    fault (record { level = level; fault_type = fault_type; translation_type = typ })

-- `(output & !mask) | (va & mask)` for the mask of `k` ones
abbrev pub within_block : ℕ → ℕ → ℕ → ℕ
within_block k output va =
    bit_or (bit_and output (complement 64 ((1 <<< k) - 1))) (bit_and va ((1 <<< k) - 1))

module _ (P : Paging) (tables : ℕ → ℕ → P.Descriptor) where
  open P use {Descriptor, is_valid, is_table_or_page, accessed, user, read_only, output_address}

  -- the checks on a block or a page, and its answer
  unfoldable pub leaf :
      FaultLevel → MmuTranslationContext → TranslationType → Descriptor → ℕ → Translation
  leaf level ctx typ entry output =
      if not (accessed entry)
      then failure level access_flag typ
      else if not (has_permission ctx.execution_level typ (user entry) (read_only entry))
      then failure level permission typ
      else address output

  unfoldable pub translate_l3 :
      (ℕ → Descriptor) → MmuTranslationContext → TranslationType → Translation
  translate_l3 table ctx typ =
      let va : ℕ = ctx.guest_virtual_address in
      let entry : Descriptor = table (bit_and (va >>> 12) 0x1ff) in
      if not (is_table_or_page entry)
      then failure l3 translation typ
      else leaf l3 ctx typ entry (bit_or (output_address entry) (bit_and va ((1 <<< 12) - 1)))

  unfoldable pub translate_l2 :
      (ℕ → Descriptor) → MmuTranslationContext → TranslationType → Translation
  translate_l2 table ctx typ =
      let va : ℕ = ctx.guest_virtual_address in
      let entry : Descriptor = table (bit_and (va >>> 21) 0x1ff) in
      if not (is_valid entry)
      then failure l2 translation typ
      else if is_table_or_page entry
      then translate_l3 (tables (output_address entry)) ctx typ
      else leaf l2 ctx typ entry (within_block 21 (output_address entry) va)

  unfoldable pub translate_l1 :
      (ℕ → Descriptor) → MmuTranslationContext → TranslationType → Translation
  translate_l1 table ctx typ =
      let va : ℕ = ctx.guest_virtual_address in
      let entry : Descriptor = table (bit_and (va >>> 30) 0x1ff) in
      if not (is_valid entry)
      then failure l1 translation typ
      else if is_table_or_page entry
      then translate_l2 (tables (output_address entry)) ctx typ
      else leaf l1 ctx typ entry (within_block 30 (output_address entry) va)
