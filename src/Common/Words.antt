-- ===== src/Common/Words.antt =====
-- Machine words of w bits as numbers below 2 ^ w, shifts, and the bits of a number.
use Prim.Native.Nat.{ℕ, ◌+◌, ◌-◌, ◌*◌, ◌/◌, ◌%◌, ◌^◌}
use mathlib.Core.Bool.{Bool, true, false}
use mathlib.Core.List.{List, [], ◌∷◌}

abbrev pub u8 : ℕ → ℕ
u8 n = n % 2 ^ 8

abbrev pub u16 : ℕ → ℕ
u16 n = n % 2 ^ 16

abbrev pub u32 : ℕ → ℕ
u32 n = n % 2 ^ 32

abbrev pub u64 : ℕ → ℕ
u64 n = n % 2 ^ 64

infixl 75 ◌<<<◌ ◌>>>◌
abbrev pub ◌<<<◌ : ℕ → ℕ → ℕ
x <<< k = x * 2 ^ k

abbrev pub ◌>>>◌ : ℕ → ℕ → ℕ
x >>> k = x / 2 ^ k

-- `!x` of a word of w bits
abbrev pub complement : ℕ → ℕ → ℕ
complement w x = 2 ^ w - 1 - x

-- the bit of x at place i, as 0 or 1
abbrev pub bit : ℕ → ℕ → ℕ
bit x i = x >>> i % 2

-- `to_le_bytes` of a `u32`
abbrev pub le_bytes32 : ℕ → List ℕ
le_bytes32 n = n % 256 ∷ (n / 256 % 256) ∷ (n / 65536 % 256) ∷ (n / 16777216 % 256) ∷ []

-- `u32::from_le_bytes`
abbrev pub from_le_bytes32 : ℕ → ℕ → ℕ → ℕ → ℕ
from_le_bytes32 a b c d = a + 256 * b + 65536 * c + 16777216 * d

-- a `bool as u32`
abbrev pub of_bool : Bool → ℕ
of_bool true = 1
of_bool false = 0
