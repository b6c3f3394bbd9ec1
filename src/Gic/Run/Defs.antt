-- ===== src/Gic/Run/Defs.antt =====
-- The accesses to the controller: calls of `IrqController` by the devices, and reads and writes of
-- the two register files by the guest.
use icewind.Common.{ℕ, ◌≤◌, ◌<◌, ◌≡◌, ◌⊎◌, List, [], ◌∷◌, length, Outcome, ok, ◌>>=◌}
use icewind.Gic.Defs.{Controller, line_count, raise, rescind}
use icewind.Gic.CpuInterface
use icewind.Gic.Distributor
use icewind.Gic.Distributor.Safety.{IsSafe}

pub data Access : Type 0 where
  line_up line_down : ℕ → Access
  cpu_read distributor_read : ℕ → ℕ → Access
  cpu_write distributor_write : ℕ → List ℕ → Access

unfoldable pub perform : Access → Controller → Outcome Controller
perform (line_up i) c = raise c i
perform (line_down i) c = rescind c i
perform (cpu_read offset len) c = CpuInterface.read c offset len >>= λ (c', bytes). ok c'
perform (distributor_read offset len) c = Distributor.read c offset len >>= λ bytes. ok c
perform (cpu_write offset bytes) c = CpuInterface.write c offset bytes
perform (distributor_write offset bytes) c = Distributor.write c offset bytes

unfoldable pub run : List Access → Controller → Outcome Controller
run [] c = ok c
run (a ∷ as') c = perform a c >>= run as'

-- The code takes a value from one byte or from four.
abbrev pub IsValue : List ℕ → Type 0
IsValue bytes = (length bytes ≡ 1) ⊎ (length bytes ≡ 4)

-- What the code handles, less the writes of priorities: reads of four bytes and writes of one or
-- four, at the offsets of a register, and calls for a line that exists.
abbrev pub IsAllowed : Access → Type 0
IsAllowed (line_up i) = i < line_count
IsAllowed (line_down i) = i < line_count
IsAllowed (cpu_read offset len) =
    ((offset ≡ 0x0000) ⊎ (offset ≡ 0x000c) ⊎ (offset ≡ 0x00fc)) × (len ≡ 4)
IsAllowed (distributor_read offset len) =
    (((0x0800 ≤ offset) × (offset ≤ 0x0bfb)) ⊎ ((0x0c00 ≤ offset) × (offset ≤ 0x0cfe))) × (len ≡ 4)
IsAllowed (cpu_write offset bytes) =
    ((offset ≡ 0x0000) ⊎ (offset ≡ 0x0004) ⊎ (offset ≡ 0x0010)) × IsValue bytes
IsAllowed (distributor_write offset bytes) = IsSafe offset × IsValue bytes

abbrev pub AllAllowed : List Access → Type 0
AllAllowed [] = Unit
AllAllowed (a ∷ as') = IsAllowed a × AllAllowed as'
