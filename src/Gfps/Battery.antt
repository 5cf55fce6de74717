-- ===== src/Gfps/Battery.antt =====
-- libgfps/src/msg/types.rs: battery levels in one byte.
use Prim.Native.String.{String}
use pbpctrl.Service.Settings.Display.{text}
use pbpctrl.Prelude.{
  ℕ, [], ◌∷◌, ◌<◌, ◌≡◌, refl, Bool, true, false, not, bit_and, bit_or, ◌==◌, if◌then◌else◌,
  all_below, IsByte, eq_below,
}

pub data BatteryInfo : Type 0 where
  unknown : BatteryInfo
  known : (is_charging : Bool) (percent : ℕ) → BatteryInfo

unfoldable pub from_byte : ℕ → BatteryInfo
from_byte value =
    if bit_and value 0x7F == 0x7F
    then unknown
    else known (not (bit_and value 0x80 == 0)) (bit_and value 0x7F)

unfoldable pub to_byte : BatteryInfo → ℕ
to_byte unknown = 0xFF
to_byte (known true percent) = bit_or 0x80 (bit_and 0x7F percent)
to_byte (known false percent) = bit_and 0x7F percent

-- `Display for BatteryInfo`. `int` is the standard library's text of a `u8`.
unfoldable pub battery_text : (ℕ → String) → BatteryInfo → String
battery_text int unknown = "unknown"
battery_text int (known true percent) = text (int percent ∷ "% (charging)" ∷ [])
battery_text int (known false percent) = text (int percent ∷ "% (not charging)" ∷ [])

-- Every byte but 0x7F is given back; 0x7F, the other form of an unknown level, becomes 0xFF.
pub to_byte-from_byte : (b : ℕ) → IsByte b → to_byte (from_byte b) ≡ (if b == 0x7F then 0xFF else b)
unfolding all_below to_byte from_byte
to_byte-from_byte = eq_below 256 _ _ refl

kept : (p : ℕ) → p < 128 → bit_and (bit_and 0x7F p) 0x7F ≡ p
unfolding all_below
kept = eq_below 128 _ _ refl

kept_charging : (p : ℕ) → p < 128 → bit_and (bit_or 0x80 (bit_and 0x7F p)) 0x7F ≡ p
unfolding all_below
kept_charging = eq_below 128 _ _ refl

flag_clear : (p : ℕ) → p < 128 → bit_and (bit_and 0x7F p) 0x80 ≡ 0
unfolding all_below
flag_clear = eq_below 128 _ _ refl

flag_set : (p : ℕ) → p < 128 → bit_and (bit_or 0x80 (bit_and 0x7F p)) 0x80 ≡ 0x80
unfolding all_below
flag_set = eq_below 128 _ _ refl

-- A level below 127 is read back with its charging flag; the level 127 is read as unknown.
pub from_byte-to_byte :
    (c : Bool) (p : ℕ)
    → p < 128
    → from_byte (to_byte (known c p)) ≡ (if p == 127 then unknown else known c p)
unfolding from_byte to_byte
from_byte-to_byte true p h = rw (kept_charging p h, flag_set p h)
from_byte-to_byte false p h = rw (kept p h, flag_clear p h)
