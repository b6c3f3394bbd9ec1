-- ===== src/Mmu/Coherent.antt =====
-- The translation buffers hold what the walk gives, so that a translation through them is the walk.
use icewind.Common.{
  ℕ, ◌-◌, ◌^◌, ◌<◌, ◌≡◌, ◌⊎◌, refl, ap, ◌∙◌, arith, bit_or, bit_and, ◌>>>◌, ◌<<<◌, inl, inr,
  Bool-cases, ◌==◌, ==_of_eq, ok, Bool, true, false, ◌&&◌, subst,
}
use icewind.Mmu.Defs.{
  Paging, Guest, ExecutionLevel, TranslationType, read, write, fetch, address, Tlb, rtlb, wtlb,
  ftlb, TlbEntry,
}
use icewind.Mmu.Buffers.{walk, base_table, effective_level, execution_level, insert, is_tlb}
use icewind.Mmu.Pages.{page_address, walk-page, with_offset}

-- the accesses that a buffer serves
abbrev pub typ_of : Tlb → TranslationType
typ_of rtlb = read
typ_of wtlb = write
typ_of ftlb = fetch

is_tlb→eq : (t t' : Tlb) → is_tlb t t' ≡ true → t ≡ t'
is_tlb→eq rtlb rtlb h = refl
is_tlb→eq wtlb wtlb h = refl
is_tlb→eq ftlb ftlb h = refl
is_tlb→eq rtlb wtlb h = absurd (ground arith)
is_tlb→eq rtlb ftlb h = absurd (ground arith)
is_tlb→eq wtlb rtlb h = absurd (ground arith)
is_tlb→eq wtlb ftlb h = absurd (ground arith)
is_tlb→eq ftlb rtlb h = absurd (ground arith)
is_tlb→eq ftlb wtlb h = absurd (ground arith)

and_left : (a b : Bool) → (a && b) ≡ true → a ≡ true
and_left true b h = refl
and_left false b h = h

module _ (P : Paging) where
  -- An entry is empty, or has what the walk gives for its page.
  unfoldable pub Agrees : Guest P → ExecutionLevel → Tlb → TlbEntry → Type 0
  Agrees g level t e =
      (e.guest_virt_page ≡ 2 ^ 64 - 1)
      ⊎ (walk P g level (typ_of t) (e.guest_virt_page <<< 12) ≡ address e.guest_phys_page)

  unfoldable pub Coherent : Guest P → ExecutionLevel → Type 0
  Coherent g level = (t : Tlb) (i : ℕ) → Agrees g level t (g.tlbs t i)

  pub insert-Coherent :
      (g : Guest P) (level : ExecutionLevel) (t : Tlb) (i : ℕ) (e : TlbEntry)
      → Coherent g level
      → Agrees g level t e
      → Coherent (insert P g t i e) level
  unfolding insert Coherent Agrees walk base_table
  insert-Coherent g level t i e hg he t' j = elim (Bool-cases (is_tlb t t' && j == i)) [
    | inl h ↦
        rw h
          (subst (λ t. Agrees g level t e) (is_tlb→eq t t' (and_left (is_tlb t t') (j == i) h)) he)
    | inr h ↦ rw h (hg t' j)
  ]

  pub hit :
      (g : Guest P) (level : ExecutionLevel) (t : Tlb) (va : ℕ) (e : TlbEntry)
      → va < 2 ^ 64
      → Agrees g level t e
      → e.guest_virt_page ≡ va >>> 12
      → walk P g level (typ_of t) va ≡ address (bit_or e.guest_phys_page (bit_and va 0xfff))
  unfolding Agrees with_offset
  hit g level t va e hva (inl empty) same = absurd (omega arith)
  hit g level t va e hva (inr found) same =
      let page : walk P g level (typ_of t) (page_address va) ≡ address e.guest_phys_page =
        subst (λ y. walk P g level (typ_of t) (y <<< 12) ≡ address e.guest_phys_page) same found in
      walk-page P g level (typ_of t) va ∙ ap (λ w. with_offset w (bit_and va 0xfff)) page

  -- What holds between two accesses of the guest that are not unprivileged ones.
  pub record IsReady (g : Guest P) (level : ExecutionLevel) : Type 0 where
    pub coherent : Coherent g level
    pub at_level : execution_level g.pstate.el ≡ ok level
    pub privileged : g.unprivileged_access ≡ 0

  pub effective_level-IsReady :
      (g : Guest P) (level : ExecutionLevel) → IsReady g level → effective_level P g ≡ ok (level, g)
  unfolding effective_level
  effective_level-IsReady g level h =
      rw (h.at_level, ==_of_eq g.unprivileged_access 0 h.privileged) refl
