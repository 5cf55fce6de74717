-- ===== src/Service/Settings/Keys.antt =====
-- libmaestro/src/service/settings.rs: the trait Setting and the types of the module `id`, each a key
-- that determines the type of the setting's value.
pub mod Typed
use pbpctrl.Prelude.{Bool, Option, none, some}
use pbpctrl.Service.Settings.{ℤ, AncState, AncrGestureLoop, GestureControl, VolumeAsymmetry}
use pbpctrl.Service.Settings.Value.{SettingId, SettingValue, EqBands}

pub data SettingKey : Type 0 where
  auto_ota_enable ohd_enable oobe_is_finished gesture_enable diagnostics_enable oobe_mode
        gesture_control :
      SettingKey
  multipoint_enable ancr_gesture_loop current_ancr_state otts_mode volume_eq_enable current_user_eq
        volume_asymmetry :
      SettingKey
  -- `impl Setting for SettingId`
  var : SettingId → SettingKey

-- `Setting::Type`.
abbrev pub SettingType : Type 0 → SettingKey → Type 0
SettingType F SettingKey.auto_ota_enable = Bool
SettingType F SettingKey.ohd_enable = Bool
SettingType F SettingKey.oobe_is_finished = Bool
SettingType F SettingKey.gesture_enable = Bool
SettingType F SettingKey.diagnostics_enable = Bool
SettingType F SettingKey.oobe_mode = Bool
SettingType F SettingKey.gesture_control = GestureControl
SettingType F SettingKey.multipoint_enable = Bool
SettingType F SettingKey.ancr_gesture_loop = AncrGestureLoop
SettingType F SettingKey.current_ancr_state = AncState
SettingType F SettingKey.otts_mode = ℤ
SettingType F SettingKey.volume_eq_enable = Bool
SettingType F SettingKey.current_user_eq = EqBands F
SettingType F SettingKey.volume_asymmetry = VolumeAsymmetry
SettingType F (SettingKey.var id) = SettingValue F

unfoldable pub key_id : SettingKey → SettingId
key_id SettingKey.auto_ota_enable = SettingId.auto_ota_enable
key_id SettingKey.ohd_enable = SettingId.ohd_enable
key_id SettingKey.oobe_is_finished = SettingId.oobe_is_finished
key_id SettingKey.gesture_enable = SettingId.gesture_enable
key_id SettingKey.diagnostics_enable = SettingId.diagnostics_enable
key_id SettingKey.oobe_mode = SettingId.oobe_mode
key_id SettingKey.gesture_control = SettingId.gesture_control
key_id SettingKey.multipoint_enable = SettingId.multipoint_enable
key_id SettingKey.ancr_gesture_loop = SettingId.ancr_gesture_loop
key_id SettingKey.current_ancr_state = SettingId.current_ancr_state
key_id SettingKey.otts_mode = SettingId.otts_mode
key_id SettingKey.volume_eq_enable = SettingId.volume_eq_enable
key_id SettingKey.current_user_eq = SettingId.current_user_eq
key_id SettingKey.volume_asymmetry = SettingId.volume_asymmetry
key_id (SettingKey.var id) = id

unfoldable pub from_var :
    {F : Type 0} → (key : SettingKey) → SettingValue F → Option (SettingType F key)
from_var SettingKey.auto_ota_enable (SettingValue.auto_ota_enable x) = some x
from_var SettingKey.ohd_enable (SettingValue.ohd_enable x) = some x
from_var SettingKey.oobe_is_finished (SettingValue.oobe_is_finished x) = some x
from_var SettingKey.gesture_enable (SettingValue.gesture_enable x) = some x
from_var SettingKey.diagnostics_enable (SettingValue.diagnostics_enable x) = some x
from_var SettingKey.oobe_mode (SettingValue.oobe_mode x) = some x
from_var SettingKey.gesture_control (SettingValue.gesture_control x) = some x
from_var SettingKey.multipoint_enable (SettingValue.multipoint_enable x) = some x
from_var SettingKey.ancr_gesture_loop (SettingValue.ancr_gesture_loop x) = some x
from_var SettingKey.current_ancr_state (SettingValue.current_ancr_state x) = some x
from_var SettingKey.otts_mode (SettingValue.otts_mode x) = some x
from_var SettingKey.volume_eq_enable (SettingValue.volume_eq_enable x) = some x
from_var SettingKey.current_user_eq (SettingValue.current_user_eq x) = some x
from_var SettingKey.volume_asymmetry (SettingValue.volume_asymmetry x) = some x
from_var (SettingKey.var id) value = some value
from_var _ _ = none
