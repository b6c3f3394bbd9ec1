-- ===== src/Mmu/Permitted.antt =====
-- An address that a translation answers with is mapped for the access by a leaf of the page tables.
use icewind.Common.{
  ℕ, ◌<◌, ◌^◌, ◌≡◌, ◌⊎◌, refl, sym, arith, bit_or, bit_and, ◌>>>◌, inl, inr, Bool, true, false, not,
  if◌then◌else◌, Returns, Returns-map, subst,
}
use icewind.Mmu.Defs.{
  Paging, Guest, Ending, translated, interrupted, ExecutionLevel, el0, el1, el2, el3,
  TranslationType, write, Translation, address, fault, has_permission, MmuTranslationContext,
  FaultLevel, translation, access_flag, permission, l1, l2, l3, TranslationError, Tlb,
}
use icewind.Mmu.Walk.{leaf, within_block, translate_l1, translate_l2, translate_l3}
use icewind.Mmu.Buffers.{walk, base_table, guest_translate}
use icewind.Mmu.Coherent.{IsReady, typ_of}
use icewind.Mmu.Cached.{IsTranslation, guest_translate-IsTranslation}

permission-user :
    (typ : TranslationType) (u r : Bool) → has_permission el0 typ u r ≡ true → u ≡ true
unfolding has_permission
permission-user typ true r h = refl
permission-user typ false true h = h
permission-user typ false false h = h

permission-write :
    (level : ExecutionLevel) (u r : Bool) → has_permission level write u r ≡ true → r ≡ false
unfolding has_permission
permission-write level u false h = refl
permission-write level true true h = sym h
permission-write el0 false true h = sym h
permission-write el1 false true h = sym h
permission-write el2 false true h = sym h
permission-write el3 false true h = sym h

-- What a failing test would have answered is no address.
reached :
    (b : Bool) (e : TranslationError) (t : Translation) (p : ℕ)
    → (if not b then fault e else t) ≡ address p
    → (b ≡ true) × (t ≡ address p)
reached true e t p h = (refl, h)
reached false e t p h = absurd (ground arith)

branch :
    (b : Bool) (s t : Translation) (p : ℕ)
    → (if b then s else t) ≡ address p
    → ((b ≡ true) × (s ≡ address p)) ⊎ (t ≡ address p)
branch true s t p h = inl (refl, h)
branch false s t p h = inr h

answered :
    (a b : Bool) (e e' : TranslationError) (out p : ℕ)
    → (if not a then fault e else if not b then fault e' else address out) ≡ address p
    → (a ≡ true) × (b ≡ true) × (p ≡ out)
answered true true e e' out p h = (refl, refl, ground arith)
answered true false e e' out p h = absurd (ground arith)
answered false b e e' out p h = absurd (ground arith)

module _ (P : Paging) where
  open P use {Descriptor, is_valid, is_table_or_page, accessed, user, read_only, output_address}

  -- The leaf lets the access in.
  pub record Allows (level : ExecutionLevel) (typ : TranslationType) (e : Descriptor) : Type 0 where
    pub has_accessed : accessed e ≡ true
    pub for_user : level ≡ el0 → user e ≡ true
    pub for_write : typ ≡ write → read_only e ≡ false

  module _ (tables : ℕ → ℕ → Descriptor) (va p : ℕ) where
    -- The tables of each level map `va` to `p` through the leaf `e`.
    unfoldable pub Maps3 : (ℕ → Descriptor) → Descriptor → Type 0
    Maps3 table e =
        (e ≡ table (bit_and (va >>> 12) 0x1ff)) × (p ≡ bit_or (output_address e) (bit_and va 0xfff))

    unfoldable pub Maps2 : (ℕ → Descriptor) → Descriptor → Type 0
    Maps2 table e =
        let entry : Descriptor = table (bit_and (va >>> 21) 0x1ff) in
        (is_valid entry ≡ true)
        × (((is_table_or_page entry ≡ true) × Maps3 (tables (output_address entry)) e)
            ⊎ ((e ≡ entry) × (p ≡ within_block 21 (output_address e) va)))

    unfoldable pub Maps1 : (ℕ → Descriptor) → Descriptor → Type 0
    Maps1 table e =
        let entry : Descriptor = table (bit_and (va >>> 30) 0x1ff) in
        (is_valid entry ≡ true)
        × (((is_table_or_page entry ≡ true) × Maps2 (tables (output_address entry)) e)
            ⊎ ((e ≡ entry) × (p ≡ within_block 30 (output_address e) va)))

  module _ (tables : ℕ → ℕ → Descriptor) where
    leaf-Allows :
        (lev : FaultLevel) (ctx : MmuTranslationContext) (typ : TranslationType) (e : Descriptor)
        (out p : ℕ)
        → leaf P tables lev ctx typ e out ≡ address p
        → Allows ctx.execution_level typ e × (p ≡ out)
    unfolding leaf
    leaf-Allows lev ctx typ e out p h =
        let checked =
          answered (accessed e) (has_permission ctx.execution_level typ (user e) (read_only e))
            (record { level = lev; fault_type = access_flag; translation_type = typ })
            (record { level = lev; fault_type = permission; translation_type = typ }) out p h in
        (
          record {
            has_accessed = checked.0;
            for_user = λ at.
                permission-user typ (user e) (read_only e)
                  (subst (λ l. has_permission l typ (user e) (read_only e) ≡ true) at (checked.1));
            for_write = λ at. permission-write ctx.execution_level (user e) (read_only e) (
                subst (λ t. has_permission ctx.execution_level t (user e) (read_only e) ≡ true) at
                  (checked.1));
          },
          checked.2,
        )

    -- The leaf of level 3, from the table that has it.
    mapped3 :
        (table : ℕ → Descriptor) (ctx : MmuTranslationContext) (typ : TranslationType) (p : ℕ)
        → translate_l3 P tables table ctx typ ≡ address p
        → (e : Descriptor) × Maps3 tables ctx.guest_virtual_address p table e
          × Allows ctx.execution_level typ e
    unfolding translate_l3 Maps3
    mapped3 table ctx typ p h =
        let e : Descriptor = table (bit_and (ctx.guest_virtual_address >>> 12) 0x1ff) in
        let found =
          reached (is_table_or_page e)
            (record { level = l3; fault_type = translation; translation_type = typ })
            (leaf P tables l3 ctx typ e
              (bit_or (output_address e) (bit_and ctx.guest_virtual_address 0xfff)))
            p h in
        let allowed = leaf-Allows l3 ctx typ e _ p (found.1) in (e, (refl, allowed.1), allowed.0)

    mapped2 :
        (table : ℕ → Descriptor) (ctx : MmuTranslationContext) (typ : TranslationType) (p : ℕ)
        → translate_l2 P tables table ctx typ ≡ address p
        → (e : Descriptor) × Maps2 tables ctx.guest_virtual_address p table e
          × Allows ctx.execution_level typ e
    unfolding translate_l2 Maps2
    mapped2 table ctx typ p h =
        let e : Descriptor = table (bit_and (ctx.guest_virtual_address >>> 21) 0x1ff) in
        let valid =
          reached (is_valid e)
            (record { level = l2; fault_type = translation; translation_type = typ }) _ p h in
        elim (branch (is_table_or_page e) _ _ p (valid.1)) [
          | inl (t, below) ↦
              let found = mapped3 (tables (output_address e)) ctx typ p below in
              (found.0, (valid.0, inl (t, found.1)), found.2)
          | inr here ↦
              let allowed = leaf-Allows l2 ctx typ e _ p here in
              (e, (valid.0, inr (refl, allowed.1)), allowed.0)
        ]

    mapped1 :
        (table : ℕ → Descriptor) (ctx : MmuTranslationContext) (typ : TranslationType) (p : ℕ)
        → translate_l1 P tables table ctx typ ≡ address p
        → (e : Descriptor) × Maps1 tables ctx.guest_virtual_address p table e
          × Allows ctx.execution_level typ e
    unfolding translate_l1 Maps1
    mapped1 table ctx typ p h =
        let e : Descriptor = table (bit_and (ctx.guest_virtual_address >>> 30) 0x1ff) in
        let valid =
          reached (is_valid e)
            (record { level = l1; fault_type = translation; translation_type = typ }) _ p h in
        elim (branch (is_table_or_page e) _ _ p (valid.1)) [
          | inl (t, below) ↦
              let found = mapped2 (tables (output_address e)) ctx typ p below in
              (found.0, (valid.0, inl (t, found.1)), found.2)
          | inr here ↦
              let allowed = leaf-Allows l1 ctx typ e _ p here in
              (e, (valid.0, inr (refl, allowed.1)), allowed.0)
        ]

  -- the address in an ending is mapped for the access
  unfoldable pub IsPermitted : Guest P → ExecutionLevel → TranslationType → ℕ → Ending P → Type 0
  IsPermitted g level typ va (translated p g') =
      (e : Descriptor) × Maps1 g.tables va p (base_table P g va) e × Allows level typ e
  IsPermitted g level typ va (interrupted g') = Unit

  permitted :
      (g : Guest P) (level : ExecutionLevel) (typ : TranslationType) (va : ℕ) (ending : Ending P)
      → IsTranslation P g level typ va ending
      → IsPermitted g level typ va ending
  unfolding IsPermitted IsTranslation walk
  permitted g level typ va (translated p g') (found, ready) =
      mapped1 g.tables (base_table P g va)
        (record { guest_virtual_address = va; execution_level = level }) typ p found
  permitted g level typ va (interrupted g') h = tt

  -- Under the same conditions, when a read, write or fetch ends with an address, the tables at
  -- that moment map the accessed address to it through a leaf whose access flag is set, which is
  -- for users if the level is EL0, and which is not read-only if the access is a write.
  pub guest_translate-IsPermitted :
      (g : Guest P) (level : ExecutionLevel) (t : Tlb) (va : ℕ)
      → bit_and g.sctlr_el1 1 ≡ 1
      → va < 2 ^ 64
      → IsReady P g level
      → Returns (guest_translate P g va (typ_of t)) (IsPermitted g level (typ_of t) va)
  guest_translate-IsPermitted g level t va on small ready =
      Returns-map (guest_translate P g va (typ_of t)) (IsTranslation P g level (typ_of t) va)
        (IsPermitted g level (typ_of t) va) (permitted g level (typ_of t) va)
        (guest_translate-IsTranslation P g level t va on small ready)
