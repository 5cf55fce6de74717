-- ===== src/Service/Settings.antt =====
-- libmaestro/src/service/settings.rs: numbers of settings, the noise control, gestures and the volume
-- asymmetry, with the messages that the build generates for them from
-- libmaestro/proto/maestro_pw.proto. An i32 is an integer; where a shift can lose bits, its wrap is
-- written out.
pub mod Volume
pub mod Gestures
pub mod Bands
pub mod Value
pub mod Keys
pub mod Display
use pbpctrl.Prelude.{
  ℕ, zero, suc, ◌+◌, ◌-◌, ◌*◌, ◌/◌, ◌%◌, ◌^◌, bit_or, Bool, true, false, ltb, ◌==◌, if◌then◌else◌,
  Option, none, some,
}

-- The integers: `negsuc n` is -(n + 1).
pub data ℤ : Type 0 where
  pos negsuc : ℕ → ℤ

unfoldable pub negate : ℤ → ℤ
negate (pos zero) = pos 0
negate (pos (suc n)) = negsuc n
negate (negsuc n) = pos (suc n)

unfoldable pub increment : ℤ → ℤ
increment (pos n) = pos (suc n)
increment (negsuc zero) = pos 0
increment (negsuc (suc n)) = negsuc n

-- The i32 with the given 32 bits.
abbrev pub from_bits : ℕ → ℤ
from_bits n = if ltb n (2 ^ 31) then pos n else negsuc (2 ^ 32 - 1 - n)

-- `v & 1` and `v >> 1`, which rounds down.
unfoldable pub low_bit : ℤ → ℕ
low_bit (pos n) = n % 2
low_bit (negsuc n) = (n + 1) % 2

unfoldable pub half : ℤ → ℤ
half (pos n) = pos (n / 2)
half (negsuc n) = negsuc (n / 2)

-- Left if negative, right if positive.
pub record VolumeAsymmetry : Type 0 where
  pub value : ℤ

unfoldable pub from_normalized : ℤ → VolumeAsymmetry
from_normalized (pos n) = record { value = if ltb 100 n then pos 100 else pos n }
from_normalized (negsuc n) = record { value = if ltb 99 n then negsuc 99 else negsuc n }

unfoldable pub from_raw : ℤ → VolumeAsymmetry
from_raw raw_value = record {
  value = if low_bit raw_value == 0 then negate (half raw_value) else increment (half raw_value);
}

-- The negation of the smallest i32 overflows in the source; no value made by the two functions above
-- is that small.
unfoldable pub raw : VolumeAsymmetry → ℤ
raw v = elim v.value [
  | pos zero ↦ pos 0
  | pos (suc n) ↦ from_bits (bit_or (n * 2 % 2 ^ 32) 1)
  | negsuc n ↦ from_bits ((n + 1) * 2 % 2 ^ 32)
]

pub record AncrGestureLoop : Type 0 where
  pub active : Bool
  pub off : Bool
  pub aware : Bool

abbrev pub as_u32 : Bool → ℕ
as_u32 true = 1
as_u32 false = 0

unfoldable pub is_valid : AncrGestureLoop → Bool
is_valid l = ltb 1 (as_u32 l.active + as_u32 l.off + as_u32 l.aware)

pub data AncState : Type 0 where
  off active aware : AncState
  unknown : ℤ → AncState

unfoldable pub anc_state_from : ℤ → AncState
anc_state_from (negsuc n) = AncState.unknown (negsuc n)
anc_state_from (pos n) =
    if n == 1
    then AncState.off
    else if n == 2
    then AncState.active
    else if n == 3
    then AncState.aware
    else AncState.unknown (pos n)

unfoldable pub anc_state_into : AncState → ℤ
anc_state_into AncState.off = pos 1
anc_state_into AncState.active = pos 2
anc_state_into AncState.aware = pos 3
anc_state_into (AncState.unknown v) = v

pub data RegularActionTarget : Type 0 where
  check_notifications previous_track_repeat next_track play_pause_track anc_control :
      RegularActionTarget
  assistant_query : RegularActionTarget
  unknown : ℤ → RegularActionTarget

unfoldable pub action_target_from : ℤ → RegularActionTarget
action_target_from (negsuc n) = RegularActionTarget.unknown (negsuc n)
action_target_from (pos n) =
    if n == 1
    then RegularActionTarget.check_notifications
    else if n == 2
    then RegularActionTarget.previous_track_repeat
    else if n == 3
    then RegularActionTarget.next_track
    else if n == 4
    then RegularActionTarget.play_pause_track
    else if n == 5
    then RegularActionTarget.anc_control
    else if n == 6
    then RegularActionTarget.assistant_query
    else RegularActionTarget.unknown (pos n)

unfoldable pub action_target_into : RegularActionTarget → ℤ
action_target_into RegularActionTarget.check_notifications = pos 1
action_target_into RegularActionTarget.previous_track_repeat = pos 2
action_target_into RegularActionTarget.next_track = pos 3
action_target_into RegularActionTarget.play_pause_track = pos 4
action_target_into RegularActionTarget.anc_control = pos 5
action_target_into RegularActionTarget.assistant_query = pos 6
action_target_into (RegularActionTarget.unknown v) = v

pub record GestureControl : Type 0 where
  pub left : RegularActionTarget
  pub right : RegularActionTarget

-- The generated messages of the same names: a side may be missing, and so may its action.
pub record DeviceGestureControl : Type 0 where
  pub value_oneof : Option ℤ

pub record GestureControlMessage : Type 0 where
  pub left : Option DeviceGestureControl
  pub right : Option DeviceGestureControl

-- One side of the conversion from the message.
unfoldable pub side_from : Option DeviceGestureControl → RegularActionTarget
side_from none = RegularActionTarget.unknown (negsuc 0)
side_from (some d) = elim d.value_oneof [
  | none ↦ RegularActionTarget.unknown (negsuc 0)
  | some v ↦ action_target_from v
]

unfoldable pub gesture_control_from : GestureControlMessage → GestureControl
gesture_control_from m = record { left = side_from m.left; right = side_from m.right }

abbrev pub side_into : RegularActionTarget → DeviceGestureControl
side_into target = record { value_oneof = some (action_target_into target) }

unfoldable pub gesture_control_into : GestureControl → GestureControlMessage
gesture_control_into g = record { left = some (side_into g.left); right = some (side_into g.right) }
