-- ===== src/Mmu/Buffers.antt =====
-- `raw_guest_translate`, and `guest_translate` with its three translation buffers.
use icewind.Common.{
  ℕ, ◌%◌, ◌==◌, not, if◌then◌else◌, bit_or, bit_and, ◌>>>◌, ◌<<<◌, complement, Outcome, ok, panic,
  ◌>>=◌, ◌>>◌, assert, Option, none, some, Bool, true, false, ◌&&◌,
}
use icewind.Mmu.Defs.{
  Paging, Guest, Ending, translated, interrupted, ExecutionLevel, el0, el1, el2, el3, is_el1,
  TranslationType, read, write, fetch, translate, is_translate, Translation, address, fault,
  to_syndrome, Tlb, rtlb, wtlb, ftlb, TlbEntry,
}
use icewind.Mmu.Walk.{translate_l1}
use icewind.Mmu.Exception.{guest_page_fault}

unfoldable pub execution_level : ℕ → Outcome ExecutionLevel
execution_level el =
    if el == 0
    then ok el0
    else if el == 1
    then ok el1
    else if el == 2
    then ok el2
    else if el == 3
    then ok el3
    else panic

unfoldable pub tlb_for : TranslationType → Option Tlb
tlb_for read = some rtlb
tlb_for write = some wtlb
tlb_for fetch = some ftlb
tlb_for translate = none

abbrev pub is_tlb : Tlb → Tlb → Bool
is_tlb rtlb rtlb = true
is_tlb wtlb wtlb = true
is_tlb ftlb ftlb = true
is_tlb _ _ = false

module _ (P : Paging) where
  -- the table that the top bit of the address selects
  unfoldable pub base_table : Guest P → ℕ → ℕ → P.Descriptor
  base_table g va =
      let base : ℕ = if bit_and (va >>> 39) 1 == 0 then g.ttbr0_el1 else g.ttbr1_el1 in
      g.tables (bit_and base (complement 64 0xffff000000000fff))

  unfoldable pub walk : Guest P → ExecutionLevel → TranslationType → ℕ → Translation
  walk g level typ va =
      translate_l1 P g.tables (base_table g va)
        (record { guest_virtual_address = va; execution_level = level }) typ

  -- the level of the access, and the state with the flag of unprivileged accesses taken back
  unfoldable pub effective_level : Guest P → Outcome (ExecutionLevel × Guest P)
  effective_level g = do
    current_el ← execution_level g.pstate.el
    if g.unprivileged_access == 0
        then ok (current_el, g)
        else do assert (is_el1 current_el); ok (el0, record g { unprivileged_access = 0 })

  -- the `match` on what the walk finds
  unfoldable pub conclude :
      ExecutionLevel → TranslationType → ℕ → Guest P → Translation → Outcome (Ending P)
  conclude level typ va g (address addr) = ok (
      translated addr
        (if is_translate typ then record g { par_el1 = bit_and addr 0x0000fffffffff000 } else g))
  conclude level typ va g (fault error) =
      if is_translate typ
      then ok (translated 0 (record g { par_el1 = bit_or (to_syndrome error <<< 1) 1 }))
      else do
        g' ←
            guest_page_fault P g (record { guest_virtual_address = va; execution_level = level })
              error
        ok (interrupted g')

  unfoldable pub raw_guest_translate : Guest P → ℕ → TranslationType → Outcome (Ending P)
  raw_guest_translate g va typ = do
    found ← effective_level g
    conclude (found.0) typ va (found.1) (walk (found.1) (found.0) typ va)

  -- `tlb[i]` gets the entry `e`
  unfoldable pub insert : Guest P → Tlb → ℕ → TlbEntry → Guest P
  insert g t i e = record g { tlbs = λ t' j. if is_tlb t t' && j == i then e else g.tlbs t' j }

  -- what follows the translation of the page on a miss
  unfoldable pub fill : Tlb → ℕ → ℕ → Ending P → Ending P
  fill t page offset (translated p g) =
      translated (bit_or p offset)
        (insert g t (page % 4096) (record { guest_virt_page = page; guest_phys_page = p }))
  fill t page offset (interrupted g) = interrupted g

  unfoldable pub cached_translate : Guest P → ℕ → TranslationType → Tlb → Outcome (Ending P)
  cached_translate g va typ t =
      let page : ℕ = va >>> 12 in
      let offset : ℕ = bit_and va 0xfff in
      let entry : TlbEntry = g.tlbs t (page % 4096) in
      if entry.guest_virt_page == page
      then ok (translated (bit_or entry.guest_phys_page offset) g)
      else do ending ← raw_guest_translate g (page <<< 12) typ; ok (fill t page offset ending)

  unfoldable pub guest_translate : Guest P → ℕ → TranslationType → Outcome (Ending P)
  guest_translate g va typ =
      if not (bit_and g.sctlr_el1 1 == 1) then ok (translated va g) else elim (tlb_for typ) [
        | none ↦ raw_guest_translate g va translate
        | some t ↦ cached_translate g va typ t
      ]
