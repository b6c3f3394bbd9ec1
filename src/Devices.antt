-- ===== src/Devices.antt =====
-- The traits of brig/common/src/device.rs by which the devices of a machine meet.
use icewind.Common.{ℕ, ◌<◌, ◌≡◌, ◌≢◌, Bool, true, false, Outcome, Returns, if◌then◌else◌}

-- `IrqController`, with what its callers rely on: each line has a level, which `raise` sets and
-- `rescind` clears, and both leave the other lines alone.
pub record IrqController : Type 1 where
  pub State : Type 0
  pub IsReady : State → Type 0
  pub lines : ℕ
  pub level : State → ℕ → Bool
  pub raise : State → ℕ → Outcome State
  pub rescind : State → ℕ → Outcome State
  pub raise_sets :
      (s : State) (i : ℕ)
      → IsReady s
      → i < lines
      → Returns
          (raise s i)
          (λ s'. IsReady s' × (level s' i ≡ true) × ((j : ℕ) → j ≢ i → level s' j ≡ level s j))
  pub rescind_clears :
      (s : State) (i : ℕ)
      → IsReady s
      → i < lines
      → Returns
          (rescind s i)
          (λ s'. IsReady s' × (level s' i ≡ false) × ((j : ℕ) → j ≢ i → level s' j ≡ level s j))

-- `if level { controller.raise(line) } else { controller.rescind(line) }`
module _ (I : IrqController) where
  open I use {State, IsReady, lines, level, raise, rescind, raise_sets, rescind_clears}

  unfoldable pub drive : Bool → State → ℕ → Outcome State
  drive b s i = if b then raise s i else rescind s i

  pub drive_lem :
      (b : Bool) (s : State) (i : ℕ)
      → IsReady s
      → i < lines
      → Returns
          (drive b s i)
          (λ s'. IsReady s' × (level s' i ≡ b) × ((j : ℕ) → j ≢ i → level s' j ≡ level s j))
  unfolding drive
  drive_lem true s i = raise_sets s i
  drive_lem false s i = rescind_clears s i
