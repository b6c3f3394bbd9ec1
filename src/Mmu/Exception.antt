-- ===== src/Mmu/Exception.antt =====
-- `take_arm_exception`, `get_psr_from_pstate`, `get_exception_class` and `guest_page_fault`, with
-- `write_to_el` of brig/brig/src/guest/models.rs.
use icewind.Common.{
  ℕ, ◌+◌, ◌==◌, ltb, not, ◌||◌, if◌then◌else◌, bit_or, bit_and, ◌<<<◌, u64, Outcome, ok, panic,
  ◌>>=◌,
}
use icewind.Mmu.Defs.{
  Paging, Guest, Pstate, TranslationError, is_fetch, to_syndrome, empty_entry,
  MmuTranslationContext,
}

unfoldable pub get_psr_from_pstate : Pstate → ℕ
get_psr_from_pstate p =
    let nzcv : ℕ = bit_or (bit_or (bit_or (p.n <<< 31) (p.z <<< 30)) (p.c <<< 29)) (p.v <<< 28) in
    let daif : ℕ =
      bit_or (bit_or (bit_or (bit_or nzcv (p.d <<< 9)) (p.a <<< 8)) (p.i <<< 7)) (p.f <<< 6) in
    bit_or (bit_or daif (p.el <<< 2)) p.sp

unfoldable pub get_exception_class : ℕ → ℕ → ℕ → Outcome ℕ
get_exception_class current_el target_el typ =
    if typ == 0
    then ok (0x38 + 4)
    else if typ == 1
    then ok (if target_el == current_el then 0x25 else 0x24)
    else if typ == 2
    then ok 0
    else if typ == 3
    then ok (0x11 + 4)
    else if typ == 4
    then ok (if target_el == current_el then 0x21 else 0x20)
    else if typ == 5
    then ok 0x07
    else if typ == 6
    then ok 0x32
    else panic

-- the added offset of the vector
unfoldable pub vector_offset : ℕ → Pstate → ℕ → ℕ
vector_offset target_el p voff =
    if ltb p.el target_el then voff + 0x400 else if p.sp == 1 then voff + 0x200 else voff

module _ (P : Paging) where
  open P use {invalidate_guest_mappings}

  unfoldable pub flush_tlb : Guest P → Guest P
  flush_tlb g = record g { tlbs = λ t i. empty_entry }

  unfoldable pub write_to_el : ℕ → ℕ → Guest P → Guest P
  write_to_el old new g =
      if old == new then g else flush_tlb (record g { host = invalidate_guest_mappings g.host })

  -- the syndrome and fault address registers, which an IRQ leaves alone
  unfoldable pub report : ℕ → ℕ → ℕ → ℕ → ℕ → Guest P → Outcome (Guest P)
  report current_el target_el typ syndrome vaddr g = if typ == 255 then ok g else do
    ec ← get_exception_class current_el target_el typ
    ok (record g {
      esr_el1 = bit_or (bit_or (ec <<< 26) (1 <<< 25)) (bit_and syndrome 0x1ffffff);
      far_el1 = if typ == 1 || typ == 4 then vaddr else g.far_el1;
    })

  -- the last writes, of the masks and of the program counter
  unfoldable pub enter_vector : ℕ → ℕ → Guest P → Outcome (Guest P)
  enter_vector target_el voff g =
      let masked : Pstate = record g.pstate { d = 1; a = 1; i = 1; f = 1 } in
      if target_el == 1
      then ok (record g { pstate = masked; pc = u64 (g.vbar_el1 + voff) })
      else if target_el == 2
      then ok (record g { pstate = masked; pc = u64 (g.vbar_el2 + voff) })
      else if target_el == 3
      then ok (record g { pstate = masked; pc = u64 (g.vbar_el3 + voff) })
      else panic

  unfoldable pub take_arm_exception : Guest P → ℕ → ℕ → ℕ → ℕ → ℕ → ℕ → Outcome (Guest P)
  take_arm_exception g target_el typ syndrome vaddr retaddr voff =
      let spsr : ℕ = get_psr_from_pstate g.pstate in
      let current_el : ℕ = g.pstate.el in
      let offset : ℕ = vector_offset target_el g.pstate voff in
      let moved : Guest P = write_to_el current_el target_el g in
      let entered : Guest P = record moved {
        pstate = record moved.pstate { el = target_el; sp = 1 };
      } in
      if not (target_el == 1) then panic else do
        reported ←
            report current_el target_el typ syndrome vaddr
              (record entered { spsr_el1 = spsr; elr_el1 = retaddr })
        enter_vector target_el offset reported

  unfoldable pub guest_page_fault :
      Guest P → MmuTranslationContext → TranslationError → Outcome (Guest P)
  guest_page_fault g ctx error =
      let typ : ℕ = if is_fetch error.translation_type then 4 else 1 in
      take_arm_exception g 1 typ (to_syndrome error) ctx.guest_virtual_address g.pc 0
