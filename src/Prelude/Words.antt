-- ===== src/Prelude/Words.antt =====
-- Byte orders of the machine words that the code writes and reads.
use Prim.Native.Nat.{ℕ, ◌+◌, ◌*◌, ◌/◌, ◌%◌, ◌<◌, ◌^◌}
use mathlib.Core.Path.{◌≡◌}
use mathlib.Core.List.{List, [], ◌∷◌}
use native.Mathlib.Omega.{arith}

-- `u32::to_le_bytes`.
abbrev pub to_le_bytes : ℕ → List ℕ
to_le_bytes v = v % 256 ∷ (v / 256) % 256 ∷ (v / 65536) % 256 ∷ (v / 16777216) % 256 ∷ []

-- `u32::from_le_bytes`, on the bytes of a slice.
abbrev pub from_le_bytes : List ℕ → ℕ
from_le_bytes [] = 0
from_le_bytes (b ∷ bs) = b + 256 * from_le_bytes bs

-- `u16::to_be_bytes`.
abbrev pub to_be_bytes : ℕ → List ℕ
to_be_bytes v = (v / 256) % 256 ∷ v % 256 ∷ []

-- `u16::from_be_bytes`, on two bytes.
abbrev pub from_be_bytes : ℕ → ℕ → ℕ
from_be_bytes a b = a * 256 + b

pub from_le_bytes-to_le_bytes : (v : ℕ) → v < 2 ^ 32 → from_le_bytes (to_le_bytes v) ≡ v
from_le_bytes-to_le_bytes v h = omega arith
