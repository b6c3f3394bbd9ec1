-- ===== src/Mmu/Entered.antt =====
-- An exception leaves buffers that are coherent for EL1.
use icewind.Common.{
  ℕ, ◌≡◌, sym, ap, ◌∙◌, subst, inl, inr, ok, Outcome, ◌==◌, Bool-cases, ==_iff, ==→ne,
  if◌then◌else◌, bit_and, complement, ◌>>>◌, ◌<<<◌,
}
use icewind.Mmu.Defs.{
  Paging, Guest, ExecutionLevel, el1, TranslationType, Translation, Tlb, TlbEntry, empty_entry,
}
use icewind.Mmu.Walk.{translate_l1}
use icewind.Mmu.Buffers.{walk, base_table, execution_level}
use icewind.Mmu.Taken.{IsTaken}
use icewind.Mmu.Coherent.{Coherent, Agrees, typ_of, IsReady}

-- what a call returned, or `d`
returned : Outcome ExecutionLevel → ExecutionLevel
returned (ok a) = a
returned _ = el1

at_one : (n : ℕ) (level : ExecutionLevel) → execution_level n ≡ ok level → n ≡ 1 → el1 ≡ level
unfolding execution_level returned
at_one n level h one = ap returned (sym (ap execution_level one) ∙ h)

module _ (P : Paging) where
  -- the walk as a function of the tables and the two base registers
  walk_from : (ℕ → ℕ → P.Descriptor) → ℕ → ℕ → ExecutionLevel → TranslationType → ℕ → Translation
  walk_from tables b0 b1 level typ va =
      translate_l1 P tables
        (tables (
          bit_and (if bit_and (va >>> 39) 1 == 0 then b0 else b1)
            (complement 64 0xffff000000000fff)))
        (record { guest_virtual_address = va; execution_level = level }) typ

  walk_same :
      (g g' : Guest P) (level : ExecutionLevel) (typ : TranslationType) (va : ℕ)
      → g'.tables ≡ g.tables
      → g'.ttbr0_el1 ≡ g.ttbr0_el1
      → g'.ttbr1_el1 ≡ g.ttbr1_el1
      → walk P g level typ va ≡ walk P g' level typ va
  unfolding walk base_table walk_from
  walk_same g g' level typ va ht h0 h1 =
      ap (λ y. walk_from y g.ttbr0_el1 g.ttbr1_el1 level typ va) (sym ht)
      ∙ ap (λ y. walk_from g'.tables y g.ttbr1_el1 level typ va) (sym h0)
      ∙ ap (λ y. walk_from g'.tables g'.ttbr0_el1 y level typ va) (sym h1)

  Agrees-after :
      (g g' : Guest P) (level : ExecutionLevel) (t : Tlb) (e : TlbEntry)
      → el1 ≡ level
      → g'.tables ≡ g.tables
      → g'.ttbr0_el1 ≡ g.ttbr0_el1
      → g'.ttbr1_el1 ≡ g.ttbr1_el1
      → Agrees P g level t e
      → Agrees P g' el1 t e
  unfolding Agrees
  Agrees-after g g' level t e same ht h0 h1 (inl empty) = inl empty
  Agrees-after g g' level t e same ht h0 h1 (inr found) = inr (
      sym (walk_same g g' el1 (typ_of t) (e.guest_virt_page <<< 12) ht h0 h1)
      ∙ ap (λ l. walk P g l (typ_of t) (e.guest_virt_page <<< 12)) same
      ∙ found)

  pub taken-IsReady :
      (g g' : Guest P) (level : ExecutionLevel) (typ syndrome vaddr retaddr : ℕ)
      → IsReady P g level
      → IsTaken P g typ syndrome vaddr retaddr 0 g'
      → IsReady P g' el1
  unfolding Coherent Agrees execution_level empty_entry
  taken-IsReady g g' level typ syndrome vaddr retaddr ready taken = record {
    coherent = λ t i. elim (Bool-cases (g.pstate.el == 1)) [
      | inl same ↦
          subst (λ e. Agrees P g' el1 t e)
            (sym (taken.kept_tlbs ((==_iff g.pstate.el 1).0 same) t i))
            (Agrees-after g g' level t (g.tlbs t i)
              (at_one g.pstate.el level ready.at_level ((==_iff g.pstate.el 1).0 same))
              (taken.kept_tables.0) (taken.kept_bases.0) (taken.kept_bases.1) (ready.coherent t i))
      | inr other ↦
          inl (ap (λ e. e.guest_virt_page) (taken.emptied_tlbs (==→ne g.pstate.el 1 other) t i))
    ];
    at_level = ap execution_level (taken.level.0);
    privileged = taken.kept_access ∙ ready.privileged;
  }
