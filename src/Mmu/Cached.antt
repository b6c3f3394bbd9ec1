-- ===== src/Mmu/Cached.antt =====
-- A translation through the buffers is the walk of the page tables, and keeps the buffers ready.
use icewind.Common.{
  ℕ, ◌<◌, ◌^◌, ◌≡◌, ◌⊎◌, ◌≤◌, refl, sym, ap, ◌∙◌, arith, bit_and, ◌>>>◌, inl, inr, Bool-cases, ◌==◌,
  ==_iff, ==_of_eq, subst, ok, Returns, Returns-bind, if◌then◌else◌, false, ◌%◌,
}
use icewind.Mmu.Defs.{
  Paging, Guest, Ending, translated, interrupted, ExecutionLevel, el1, TranslationType, Translation,
  address, fault, Tlb, TlbEntry, rtlb, wtlb, ftlb, TranslationError, to_syndrome, is_fetch,
  is_translate,
}
use icewind.Mmu.Exception.{guest_page_fault, take_arm_exception}
use icewind.Mmu.Buffers.{
  walk, raw_guest_translate, conclude, cached_translate, guest_translate, fill, tlb_for, insert,
}
use icewind.Mmu.Pages.{page_address, walk-page, with_offset}
use icewind.Mmu.Taken.{IsTaken, take_arm_exception-IsTaken}
use icewind.Mmu.Coherent.{
  IsReady, typ_of, hit, insert-Coherent, effective_level-IsReady, Agrees, Coherent,
}
use icewind.Mmu.Entered.{taken-IsReady}

-- the exception type of a fault
abbrev pub abort_type : TranslationError → ℕ
abort_type e = if is_fetch e.translation_type then 4 else 1

Translation-cases :
    (t : Translation) → ((a : ℕ) × (t ≡ address a)) ⊎ ((e : TranslationError) × (t ≡ fault e))
Translation-cases (address a) = inl (a, refl)
Translation-cases (fault e) = inr (e, refl)

served : (t : Tlb) → is_translate (typ_of t) ≡ false
served rtlb = refl
served wtlb = refl
served ftlb = refl

abort_small : (e : TranslationError) → abort_type e ≤ 6
abort_small e = ground arith

module _ (P : Paging) where
  -- An access that ends with an address has the one that the walk gives; one that ends in the
  -- exception vector has a walk with a fault, which the registers then report for the page.
  unfoldable pub IsTranslation : Guest P → ExecutionLevel → TranslationType → ℕ → Ending P → Type 0
  IsTranslation g level typ va (translated p g') =
      (walk P g level typ va ≡ address p) × IsReady P g' level
  IsTranslation g level typ va (interrupted g') =
      (e : TranslationError) × (walk P g level typ va ≡ fault e)
      × IsTaken P g (abort_type e) (to_syndrome e) (page_address va) g.pc 0 g'
      × IsReady P g' el1

  -- the same of a walk that is for a page, and leaves the state alone
  IsRaw : Guest P → ExecutionLevel → TranslationType → ℕ → Ending P → Type 0
  IsRaw g level typ page (translated p g') = (walk P g level typ page ≡ address p) × (g' ≡ g)
  IsRaw g level typ page (interrupted g') =
      (e : TranslationError) × (walk P g level typ page ≡ fault e)
      × IsTaken P g (abort_type e) (to_syndrome e) page g.pc 0 g'

  raw_guest_translate-IsRaw :
      (g : Guest P) (level : ExecutionLevel) (t : Tlb) (page : ℕ)
      → IsReady P g level
      → Returns (raw_guest_translate P g page (typ_of t)) (IsRaw g level (typ_of t) page)
  unfolding raw_guest_translate conclude guest_page_fault IsRaw
  raw_guest_translate-IsRaw g level t page ready =
      rw (effective_level-IsReady P g level ready)
        (elim (Translation-cases (walk P g level (typ_of t) page)) [
          | inl (a, e) ↦ rw (e, served t) (e, refl)
          | inr (e, h) ↦
              rw (h, served t)
                (Returns-bind (take_arm_exception P g 1 (abort_type e) (to_syndrome e) page g.pc 0)
                  (λ g'. ok (interrupted g'))
                  (IsTaken P g (abort_type e) (to_syndrome e) page g.pc 0)
                  (IsRaw g level (typ_of t) page)
                  (take_arm_exception-IsTaken P g (abort_type e) (to_syndrome e) page g.pc 0
                    (inl (abort_small e)))
                  (λ g' taken. (e, h, taken)))
        ])

  insert-IsReady :
      (g : Guest P) (level : ExecutionLevel) (t : Tlb) (va p : ℕ)
      → IsReady P g level
      → walk P g level (typ_of t) (page_address va) ≡ address p
      → IsReady P
          (insert P g t
            ((va >>> 12) % 4096)
            (record { guest_virt_page = va >>> 12; guest_phys_page = p }))
          level
  unfolding insert Agrees
  insert-IsReady g level t va p ready found = record {
    coherent =
        insert-Coherent P g level t ((va >>> 12) % 4096)
          (record { guest_virt_page = va >>> 12; guest_phys_page = p }) ready.coherent (inr found);
    at_level = ready.at_level;
    privileged = ready.privileged;
  }

  fill-IsTranslation :
      (g : Guest P) (level : ExecutionLevel) (t : Tlb) (va : ℕ) (ending : Ending P)
      → IsReady P g level
      → IsRaw g level (typ_of t) (page_address va) ending
      → IsTranslation g level (typ_of t) va (fill P t (va >>> 12) (bit_and va 0xfff) ending)
  unfolding fill IsRaw IsTranslation with_offset
  fill-IsTranslation g level t va (translated p g') ready (found, same) = (
    walk-page P g level (typ_of t) va ∙ ap (λ w. with_offset w (bit_and va 0xfff)) found,
    subst
        (λ x.
          IsReady P
            (insert P x t ((va >>> 12) % 4096)
              (record { guest_virt_page = va >>> 12; guest_phys_page = p }))
            level)
        (sym same) (insert-IsReady g level t va p ready found),
  )
  fill-IsTranslation g level t va (interrupted g') ready (e, found, taken) = (
    e,
    walk-page P g level (typ_of t) va ∙ ap (λ w. with_offset w (bit_and va 0xfff)) found,
    taken,
    taken-IsReady P g g' level (abort_type e) (to_syndrome e) (page_address va) g.pc ready taken,
  )

  cached-IsTranslation :
      (g : Guest P) (level : ExecutionLevel) (t : Tlb) (va : ℕ)
      → va < 2 ^ 64
      → IsReady P g level
      → Returns (cached_translate P g va (typ_of t) t) (IsTranslation g level (typ_of t) va)
  unfolding cached_translate IsTranslation Coherent
  cached-IsTranslation g level t va small ready =
      let entry : TlbEntry = g.tlbs t ((va >>> 12) % 4096) in
      elim (Bool-cases (entry.guest_virt_page == (va >>> 12))) [
        | inl same ↦ rw same (
          hit P g level t va entry small (ready.coherent t ((va >>> 12) % 4096))
              ((==_iff entry.guest_virt_page (va >>> 12)).0 same),
          ready,
        )
        | inr other ↦ rw other (
            Returns-bind (raw_guest_translate P g (page_address va) (typ_of t))
              (λ ending. ok (fill P t (va >>> 12) (bit_and va 0xfff) ending))
              (IsRaw g level (typ_of t) (page_address va)) (IsTranslation g level (typ_of t) va)
              (raw_guest_translate-IsRaw g level t (page_address va) ready)
              (λ ending raw. fill-IsTranslation g level t va ending ready raw))
      ]

  -- With the MMU on, buffers that hold only what the walk gives for the current level, and no
  -- unprivileged access under way, a read, write or fetch at any word returns. If it ends with
  -- an address, that is the one the walk of the page tables gives; if it ends in the exception
  -- vector, the walk has a fault and the registers report it for the page of the address. The
  -- buffers are again what the walk gives, for the level then reached.
  pub guest_translate-IsTranslation :
      (g : Guest P) (level : ExecutionLevel) (t : Tlb) (va : ℕ)
      → bit_and g.sctlr_el1 1 ≡ 1
      → va < 2 ^ 64
      → IsReady P g level
      → Returns (guest_translate P g va (typ_of t)) (IsTranslation g level (typ_of t) va)
  unfolding guest_translate tlb_for
  guest_translate-IsTranslation g level rtlb va on small ready =
      rw (==_of_eq (bit_and g.sctlr_el1 1) 1 on) (cached-IsTranslation g level rtlb va small ready)
  guest_translate-IsTranslation g level wtlb va on small ready =
      rw (==_of_eq (bit_and g.sctlr_el1 1) 1 on) (cached-IsTranslation g level wtlb va small ready)
  guest_translate-IsTranslation g level ftlb va on small ready =
      rw (==_of_eq (bit_and g.sctlr_el1 1) 1 on) (cached-IsTranslation g level ftlb va small ready)
