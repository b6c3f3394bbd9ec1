-- ===== src/Mmu/Tests.antt =====
-- A guest in EL1 whose first gigabyte is mapped by one block.
use icewind.Common.{ℕ, refl, inl, inr, arith, bit, bit_and, ◌==◌, ◌≡◌, Returns}
use icewind.Mmu.Defs.{Paging, Guest, el1, write, wtlb, empty_entry}
use icewind.Mmu.Exception.{take_arm_exception}
use icewind.Mmu.Buffers.{guest_translate, execution_level}
use icewind.Mmu.Saved.{IsPacked, saved}
use icewind.Mmu.Taken.{IsTaken, take-IsTaken}
use icewind.Mmu.Coherent.{IsReady, Coherent, Agrees}
use icewind.Mmu.Cached.{IsTranslation, guest_translate-IsTranslation}
use icewind.Mmu.Permitted.{IsPermitted, guest_translate-IsPermitted}

-- descriptors as the words that the architecture has
abbrev words : Paging
words = record {
  Descriptor = ℕ;
  is_valid = λ d. bit d 0 == 1;
  is_table_or_page = λ d. bit_and d 3 == 3;
  accessed = λ d. bit d 10 == 1;
  user = λ d. bit d 6 == 1;
  read_only = λ d. bit d 7 == 1;
  output_address = λ d. bit_and d 0x0000fffffffff000;
  Host = ℕ;
  invalidate_guest_mappings = λ n. 0;
}

abbrev guest : Guest words
guest = record {
  sctlr_el1 = 1;
  ttbr0_el1 = 0x1000;
  ttbr1_el1 = 0x2000;
  par_el1 = 0;
  pc = 0x400;
  pstate = record { n = 1; z = 0; c = 0; v = 0; d = 0; a = 0; i = 1; f = 0; el = 1; sp = 1 };
  spsr_el1 = 0;
  elr_el1 = 0;
  esr_el1 = 0;
  far_el1 = 0;
  vbar_el1 = 0x10000;
  vbar_el2 = 0;
  vbar_el3 = 0;
  unprivileged_access = 0;
  tlbs = λ t i. empty_entry;
  tables = λ base i. 0x40000401;
  host = 3;
}

guest-IsReady : IsReady words guest el1
unfolding Coherent Agrees empty_entry execution_level
guest-IsReady = record { coherent = λ t i. inl refl; at_level = refl; privileged = refl }

guest_translate-IsTranslation_example :
    Returns (guest_translate words guest 0x1234 write) (IsTranslation words guest el1 write 0x1234)
guest_translate-IsTranslation_example =
    guest_translate-IsTranslation words guest el1 wtlb 0x1234 refl (omega arith) guest-IsReady

guest_translate-IsPermitted_example :
    Returns (guest_translate words guest 0x1234 write) (IsPermitted words guest el1 write 0x1234)
guest_translate-IsPermitted_example =
    guest_translate-IsPermitted words guest el1 wtlb 0x1234 refl (omega arith) guest-IsReady

guest-IsPacked : IsPacked guest.pstate
guest-IsPacked = record {
  n = omega arith;
  z = omega arith;
  c = omega arith;
  v = omega arith;
  d = omega arith;
  a = omega arith;
  i = omega arith;
  f = omega arith;
  el = omega arith;
  sp = omega arith;
}

-- the interrupt that the execution loop takes
take-IsTaken_example :
    Returns
      (take_arm_exception words guest 1 255 0 0 0x400 0x80)
      (λ g'. IsTaken words guest 255 0 0 0x400 0x80 g' × (g'.spsr_el1 ≡ saved guest.pstate))
take-IsTaken_example = take-IsTaken words guest 255 0 0 0x400 0x80 guest-IsPacked (inr refl)
