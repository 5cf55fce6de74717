-- ===== src/Hdlc/Crc.antt =====
-- libmaestro/src/hdlc/crc.rs: the table-driven CRC-32.
pub mod Table
pub mod Reference
pub mod Detection
pub mod Residue
use pbpctrl.Prelude.{ℕ, zero, suc, ◌-◌, ◌/◌, ◌%◌, ◌^◌, bit_xor, List, [], ◌∷◌, get_or}
use Table.{table}

pub record Crc32 : Type 0 where
  pub state : ℕ

abbrev pub with_state : ℕ → Crc32
with_state state = record { state = state }

abbrev pub new : Crc32
new = with_state 0xFFFFFFFF

abbrev pub reset : Crc32 → Crc32
reset c = record c { state = 0xFFFFFFFF }

-- `!state` on u32.
abbrev pub value : Crc32 → ℕ
value c = 2 ^ 32 - 1 - c.state

unfoldable pub put_u8 : Crc32 → ℕ → Crc32
put_u8 c byte =
    with_state (bit_xor (get_or table (bit_xor (c.state % 256) byte) 0) (c.state / 2 ^ 8))

unfoldable pub put_bytes : Crc32 → List ℕ → Crc32
put_bytes c [] = c
put_bytes c (b ∷ bytes) = put_bytes (put_u8 c b) bytes

unfoldable pub crc32 : List ℕ → ℕ
crc32 bytes = value (put_bytes new bytes)
