-- ===== src/Mmu/Defs.antt =====
-- The types of brig/brig/src/guest/devices/arm/mmu.rs, its permission check and its syndromes, and
-- the part of the guest's state that it reads and writes.
use icewind.Common.{ℕ, ◌^◌, ◌-◌, Bool, true, false, not, ◌&&◌, ◌||◌, bit_or}

pub data ExecutionLevel : Type 0 where
  el0 : ExecutionLevel
  el1 : ExecutionLevel
  el2 : ExecutionLevel
  el3 : ExecutionLevel

pub data TranslationType : Type 0 where
  read : TranslationType
  write : TranslationType
  fetch : TranslationType
  translate : TranslationType

pub data FaultLevel : Type 0 where
  l0 : FaultLevel
  l1 : FaultLevel
  l2 : FaultLevel
  l3 : FaultLevel

pub data FaultType : Type 0 where
  address_size : FaultType
  translation : FaultType
  access_flag : FaultType
  permission : FaultType

pub record TranslationError : Type 0 where
  pub level : FaultLevel
  pub fault_type : FaultType
  pub translation_type : TranslationType

-- `Result<u64, TranslationError>`
pub data Translation : Type 0 where
  address : ℕ → Translation
  fault : TranslationError → Translation

pub record MmuTranslationContext : Type 0 where
  pub guest_virtual_address : ℕ
  pub execution_level : ExecutionLevel

-- The crate `aarch64_paging`: descriptors, with the attributes that the code asks for. `Host` is
-- the kernel's map of the guest's memory, which `write_to_el` invalidates.
pub record Paging : Type 1 where
  pub Descriptor : Type 0
  pub is_valid : Descriptor → Bool
  pub is_table_or_page : Descriptor → Bool
  pub accessed : Descriptor → Bool
  pub user : Descriptor → Bool
  pub read_only : Descriptor → Bool
  pub output_address : Descriptor → ℕ
  pub Host : Type 0
  pub invalidate_guest_mappings : Host → Host

-- `==` on the two enums that derive it
abbrev pub is_el0 : ExecutionLevel → Bool
is_el0 el0 = true
is_el0 _ = false

abbrev pub is_el1 : ExecutionLevel → Bool
is_el1 el1 = true
is_el1 _ = false

abbrev pub is_read : TranslationType → Bool
is_read read = true
is_read _ = false

abbrev pub is_write : TranslationType → Bool
is_write write = true
is_write _ = false

abbrev pub is_fetch : TranslationType → Bool
is_fetch fetch = true
is_fetch _ = false

abbrev pub is_translate : TranslationType → Bool
is_translate translate = true
is_translate _ = false

unfoldable pub has_permission : ExecutionLevel → TranslationType → Bool → Bool → Bool
has_permission level typ false false = not (is_el0 level)
has_permission level typ true false = true
has_permission level typ false true =
    not (is_el0 level) && (is_read typ || is_translate typ || is_fetch typ)
has_permission level typ true true = is_read typ || is_translate typ || is_fetch typ

abbrev level_bits : FaultLevel → ℕ
level_bits l0 = 0
level_bits l1 = 1
level_bits l2 = 2
level_bits l3 = 3

abbrev fault_bits : FaultType → ℕ
fault_bits address_size = 0
fault_bits translation = 4
fault_bits access_flag = 8
fault_bits permission = 12

abbrev access_bits : TranslationType → ℕ
access_bits write = 0x40
access_bits translate = 0x100
access_bits _ = 0

unfoldable pub to_syndrome : TranslationError → ℕ
to_syndrome e =
    bit_or (bit_or (fault_bits e.fault_type) (level_bits e.level)) (access_bits e.translation_type)

pub record TlbEntry : Type 0 where
  pub guest_virt_page : ℕ
  pub guest_phys_page : ℕ

-- `TlbEntry::new`, and what `clear` leaves
unfoldable pub empty_entry : TlbEntry
empty_entry = record { guest_virt_page = 2 ^ 64 - 1; guest_phys_page = 0 }

-- the statics `RTLB`, `WTLB` and `FTLB`
pub data Tlb : Type 0 where
  rtlb : Tlb
  wtlb : Tlb
  ftlb : Tlb

-- `PSTATE_N` to `PSTATE_SP`
pub record Pstate : Type 0 where
  pub n : ℕ
  pub z : ℕ
  pub c : ℕ
  pub v : ℕ
  pub d : ℕ
  pub a : ℕ
  pub i : ℕ
  pub f : ℕ
  pub el : ℕ
  pub sp : ℕ

module _ (P : Paging) where
  open P use {Descriptor, Host}

  -- The registers of the guest that are used here, its execution context, the three buffers, and
  -- its memory as page tables: `tables base` is the table at the guest physical address `base`.
  pub record Guest : Type 0 where
    pub sctlr_el1 : ℕ
    pub ttbr0_el1 : ℕ
    pub ttbr1_el1 : ℕ
    pub par_el1 : ℕ
    pub pc : ℕ
    pub pstate : Pstate
    pub spsr_el1 : ℕ
    pub elr_el1 : ℕ
    pub esr_el1 : ℕ
    pub far_el1 : ℕ
    pub vbar_el1 : ℕ
    pub vbar_el2 : ℕ
    pub vbar_el3 : ℕ
    pub unprivileged_access : ℕ
    pub tlbs : Tlb → ℕ → TlbEntry
    pub tables : ℕ → ℕ → Descriptor
    pub host : Host

  -- How a translation ends: with an address, or in the exception vector of the guest, where
  -- `interrupt_restore_safepoint` jumps without coming back.
  pub data Ending : Type 0 where
    translated : ℕ → Guest → Ending
    interrupted : Guest → Ending
