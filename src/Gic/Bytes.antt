-- ===== src/Gic/Bytes.antt =====
-- How the two interfaces take a value from the bytes of a write and give the bytes of a read.
use icewind.Common.{
  ℕ, ◌==◌, List, [], ◌∷◌, if◌then◌else◌, Outcome, ok, panic, le_bytes32, from_le_bytes32,
}

-- `match *value { [x] => .., [a, b, c, d] => .., _ => todo!() }`
unfoldable pub written : List ℕ → Outcome ℕ
written (x ∷ []) = ok x
written (a ∷ b ∷ c ∷ d ∷ []) = ok (from_le_bytes32 a b c d)
written _ = panic

-- `value.copy_from_slice(&response.to_le_bytes())` into `len` bytes
unfoldable pub copied : ℕ → ℕ → Outcome (List ℕ)
copied len response = if len == 4 then ok (le_bytes32 response) else panic
