-- ===== src/Mmu/Taken.antt =====
-- What an exception that is taken to EL1 leaves in the registers of the guest.
use icewind.Common.{
  ℕ, ◌+◌, ◌^◌, ◌*◌, ◌/◌, ◌%◌, ◌<◌, ◌≤◌, ◌≡◌, ◌≢◌, ◌⊎◌, refl, ap, ◌∙◌, arith, bit_or, bit_and, ◌<<<◌,
  inl, inr, Bool-cases, ◌==◌, ==_iff, ==_of_eq, ==_of_ne, ==→ne, ok, Returns, Returns-map, true,
  false, if◌then◌else◌, ◌||◌,
}
use icewind.Common.Bits.{bit_and_mask}
use icewind.Common.Disjoint.{bit_or_add}
use icewind.Mmu.Defs.{Paging, Guest, empty_entry, Tlb}
use icewind.Mmu.Saved.{IsPacked, saved, IsVector, get_psr_from_pstate-saved, vector_offset-IsVector}
use icewind.Mmu.Exception.{
  take_arm_exception, write_to_el, flush_tlb, report, enter_vector, get_exception_class,
  get_psr_from_pstate,
}

-- the class of each exception type, from the same level or from a lower one
pub class_of : ℕ → ℕ → ℕ
class_of typ el =
    if typ == 0
    then 0x3c
    else if typ == 1
    then (if 1 == el then 0x25 else 0x24)
    else if typ == 2
    then 0
    else if typ == 3
    then 0x15
    else if typ == 4
    then (if 1 == el then 0x21 else 0x20)
    else if typ == 5
    then 7
    else 0x32

-- the fields of the syndrome register
esr_fields :
    (ec syndrome : ℕ)
    → bit_or (bit_or (ec <<< 26) (1 <<< 25)) (bit_and syndrome 0x1ffffff)
      ≡ ec * 2 ^ 26 + 2 ^ 25 + syndrome % 2 ^ 25
esr_fields ec syndrome =
    let low : syndrome % 2 ^ 25 < 2 ^ 25 = omega arith in
    let high : bit_or (ec <<< 26) (1 <<< 25) ≡ (2 * ec + 1) <<< 25 =
      bit_or_add 26 ec (1 <<< 25) (omega arith) ∙ omega arith in
    ap (λ y. bit_or y (bit_and syndrome 0x1ffffff)) high
    ∙ ap (bit_or ((2 * ec + 1) <<< 25)) (bit_and_mask 25 syndrome)
    ∙ bit_or_add 25 (2 * ec + 1) (syndrome % 2 ^ 25) low
    ∙ omega arith

field_class :
    (ec syndrome : ℕ)
    → bit_or (bit_or (ec <<< 26) (1 <<< 25)) (bit_and syndrome 0x1ffffff) / 2 ^ 26 ≡ ec
field_class ec syndrome = ap (λ y. y / 2 ^ 26) (esr_fields ec syndrome) ∙ omega arith

field_cause :
    (ec syndrome : ℕ)
    → bit_or (bit_or (ec <<< 26) (1 <<< 25)) (bit_and syndrome 0x1ffffff) % 2 ^ 26
      ≡ 2 ^ 25 + syndrome % 2 ^ 25
field_cause ec syndrome = ap (λ y. y % 2 ^ 26) (esr_fields ec syndrome) ∙ omega arith

fault_at :
    (typ vaddr old : ℕ)
    → (typ ≡ 1) ⊎ (typ ≡ 4)
    → (if typ == 1 || typ == 4 then vaddr else old) ≡ vaddr
fault_at typ vaddr old h = ground arith

no_fault :
    (typ vaddr old : ℕ) → typ ≢ 1 → typ ≢ 4 → (if typ == 1 || typ == 4 then vaddr else old) ≡ old
no_fault typ vaddr old h h' = ground arith

module _ (P : Paging) where
  pub record IsTaken (g : Guest P) (typ syndrome vaddr retaddr voff : ℕ) (g' : Guest P)
      : Type 0 where
    pub level : (g'.pstate.el ≡ 1) × (g'.pstate.sp ≡ 1)
    pub masks : (g'.pstate.d ≡ 1) × (g'.pstate.a ≡ 1) × (g'.pstate.i ≡ 1) × (g'.pstate.f ≡ 1)
    pub return_state : (g'.elr_el1 ≡ retaddr) × (g'.spsr_el1 ≡ get_psr_from_pstate g.pstate)
    pub vector : IsVector g.pstate (g.vbar_el1 + voff) g'.pc
    pub class : typ ≤ 6 → g'.esr_el1 / 2 ^ 26 ≡ class_of typ g.pstate.el
    pub cause : typ ≤ 6 → g'.esr_el1 % 2 ^ 26 ≡ 2 ^ 25 + syndrome % 2 ^ 25
    pub faulting : (typ ≡ 1) ⊎ (typ ≡ 4) → g'.far_el1 ≡ vaddr
    pub not_faulting : typ ≢ 1 → typ ≢ 4 → g'.far_el1 ≡ g.far_el1
    pub interrupt : typ ≡ 255 → g'.esr_el1 ≡ g.esr_el1
    pub kept_tables : (g'.tables ≡ g.tables) × (g'.sctlr_el1 ≡ g.sctlr_el1)
    pub kept_bases : (g'.ttbr0_el1 ≡ g.ttbr0_el1) × (g'.ttbr1_el1 ≡ g.ttbr1_el1)
    pub kept_access : g'.unprivileged_access ≡ g.unprivileged_access
    pub kept_tlbs : g.pstate.el ≡ 1 → (t : Tlb) (i : ℕ) → g'.tlbs t i ≡ g.tlbs t i
    pub emptied_tlbs : g.pstate.el ≢ 1 → (t : Tlb) (i : ℕ) → g'.tlbs t i ≡ empty_entry

  class-Returns : (el typ : ℕ) → typ ≤ 6 → get_exception_class el 1 typ ≡ ok (class_of typ el)
  unfolding get_exception_class class_of
  class-Returns el typ h = ground arith

  pub take_arm_exception-IsTaken :
      (g : Guest P) (typ syndrome vaddr retaddr voff : ℕ)
      → (typ ≤ 6) ⊎ (typ ≡ 255)
      → Returns
          (take_arm_exception P g 1 typ syndrome vaddr retaddr voff)
          (IsTaken g typ syndrome vaddr retaddr voff)
  unfolding take_arm_exception report enter_vector write_to_el flush_tlb
  take_arm_exception-IsTaken g typ syndrome vaddr retaddr voff (inl h) =
      let sync : (typ == 255) ≡ false = ==_of_ne typ 255 (omega arith) in
      rw (sync, class-Returns g.pstate.el typ h)
        (elim (Bool-cases (g.pstate.el == 1)) [
          | inl same ↦ rw same (record {
            level = (refl, refl);
            masks = (refl, refl, refl, refl);
            return_state = (refl, refl);
            vector = vector_offset-IsVector g.pstate g.vbar_el1 voff;
            class = λ _. field_class (class_of typ g.pstate.el) syndrome;
            cause = λ _. field_cause (class_of typ g.pstate.el) syndrome;
            faulting = fault_at typ vaddr g.far_el1;
            not_faulting = no_fault typ vaddr g.far_el1;
            interrupt = λ irq. absurd (omega (arith, h, irq));
            kept_tables = (refl, refl);
            kept_bases = (refl, refl);
            kept_access = refl;
            kept_tlbs = λ _ t i. refl;
            emptied_tlbs = λ ne. absurd (ne ((==_iff g.pstate.el 1).0 same));
          })
          | inr other ↦ rw other (record {
            level = (refl, refl);
            masks = (refl, refl, refl, refl);
            return_state = (refl, refl);
            vector = vector_offset-IsVector g.pstate g.vbar_el1 voff;
            class = λ _. field_class (class_of typ g.pstate.el) syndrome;
            cause = λ _. field_cause (class_of typ g.pstate.el) syndrome;
            faulting = fault_at typ vaddr g.far_el1;
            not_faulting = no_fault typ vaddr g.far_el1;
            interrupt = λ irq. absurd (omega (arith, h, irq));
            kept_tables = (refl, refl);
            kept_bases = (refl, refl);
            kept_access = refl;
            kept_tlbs = λ el. absurd (==→ne g.pstate.el 1 other el);
            emptied_tlbs = λ _ t i. refl;
          })
        ])
  take_arm_exception-IsTaken g typ syndrome vaddr retaddr voff (inr h) =
      let irq : (typ == 255) ≡ true = ==_of_eq typ 255 h in
      rw irq (elim (Bool-cases (g.pstate.el == 1)) [
        | inl same ↦ rw same (record {
          level = (refl, refl);
          masks = (refl, refl, refl, refl);
          return_state = (refl, refl);
          vector = vector_offset-IsVector g.pstate g.vbar_el1 voff;
          class = λ small. absurd (omega (arith, small, h));
          cause = λ small. absurd (omega (arith, small, h));
          faulting = λ abort. elim abort [
            | inl one ↦ absurd (omega (arith, one, h))
            | inr four ↦ absurd (omega (arith, four, h))
          ];
          not_faulting = λ _ _. refl;
          interrupt = λ _. refl;
          kept_tables = (refl, refl);
          kept_bases = (refl, refl);
          kept_access = refl;
          kept_tlbs = λ _ t i. refl;
          emptied_tlbs = λ ne. absurd (ne ((==_iff g.pstate.el 1).0 same));
        })
        | inr other ↦ rw other (record {
          level = (refl, refl);
          masks = (refl, refl, refl, refl);
          return_state = (refl, refl);
          vector = vector_offset-IsVector g.pstate g.vbar_el1 voff;
          class = λ small. absurd (omega (arith, small, h));
          cause = λ small. absurd (omega (arith, small, h));
          faulting = λ abort. elim abort [
            | inl one ↦ absurd (omega (arith, one, h))
            | inr four ↦ absurd (omega (arith, four, h))
          ];
          not_faulting = λ _ _. refl;
          interrupt = λ _. refl;
          kept_tables = (refl, refl);
          kept_bases = (refl, refl);
          kept_access = refl;
          kept_tlbs = λ el. absurd (==→ne g.pstate.el 1 other el);
          emptied_tlbs = λ _ t i. refl;
        })
      ])

  -- When the flags and masks of the guest are bits, an exception of type 0 to 6, or an
  -- interrupt, that is taken to EL1 with any vector offset returns. The level is EL1 on its own
  -- stack, all interrupts are masked, the return address is kept, and the saved state has each
  -- flag, mask, level and stack bit at its place. The program counter is the vector base plus
  -- the given offset, plus 0x400 from EL0, plus 0x200 from a higher level on its own stack, as a
  -- word of 64 bits. For types 0 to 6 the syndrome register has the class of the type and the
  -- low 25 bits of the syndrome, an abort sets the fault address, and an interrupt sets neither.
  -- The buffers are emptied if the level changed, and kept otherwise.
  pub take-IsTaken :
      (g : Guest P) (typ syndrome vaddr retaddr voff : ℕ)
      → IsPacked g.pstate
      → (typ ≤ 6) ⊎ (typ ≡ 255)
      → Returns
          (take_arm_exception P g 1 typ syndrome vaddr retaddr voff)
          (λ g'. IsTaken g typ syndrome vaddr retaddr voff g' × (g'.spsr_el1 ≡ saved g.pstate))
  take-IsTaken g typ syndrome vaddr retaddr voff packed h =
      Returns-map (take_arm_exception P g 1 typ syndrome vaddr retaddr voff) _ _
        (λ g' taken. (taken, taken.return_state.1 ∙ get_psr_from_pstate-saved g.pstate packed))
        (take_arm_exception-IsTaken g typ syndrome vaddr retaddr voff h)
