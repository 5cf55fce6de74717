-- ===== src/Cli/Command.antt =====
-- cli/src/main.rs: the setting that each `get` reads and that each `set` sends.
pub mod SetGet
use pbpctrl.Prelude.{Bool, Option, none, some, if◌then◌else◌}
use pbpctrl.Service.Settings.{AncrGestureLoop, is_valid, from_normalized}
use pbpctrl.Service.Settings.Value.{Floats, SettingValue, new_bands}
use pbpctrl.Service.Settings.Keys.{SettingKey}
use pbpctrl.Cli.Args.{GetSetting, SetSetting, anc_state_into, action_into}

unfoldable pub get_key : GetSetting → SettingKey
get_key GetSetting.auto_ota = SettingKey.auto_ota_enable
get_key GetSetting.ohd = SettingKey.ohd_enable
get_key GetSetting.oobe_is_finished = SettingKey.oobe_is_finished
get_key GetSetting.gestures = SettingKey.gesture_enable
get_key GetSetting.diagnostics = SettingKey.diagnostics_enable
get_key GetSetting.oobe_mode = SettingKey.oobe_mode
get_key GetSetting.gesture_control = SettingKey.gesture_control
get_key GetSetting.multipoint = SettingKey.multipoint_enable
get_key GetSetting.anc_gesture_loop = SettingKey.ancr_gesture_loop
get_key GetSetting.anc = SettingKey.current_ancr_state
get_key GetSetting.volume_eq = SettingKey.volume_eq_enable
get_key GetSetting.eq = SettingKey.current_user_eq
get_key GetSetting.balance = SettingKey.volume_asymmetry

-- `none` is the exit with an error of a gesture loop that is not valid.
unfoldable pub set_value : (f : Floats) → SetSetting f.F → Option (SettingValue f.F)
set_value f (SetSetting.auto_ota value) = some (SettingValue.auto_ota_enable value)
set_value f (SetSetting.ohd value) = some (SettingValue.ohd_enable value)
set_value f (SetSetting.oobe_is_finished value) = some (SettingValue.oobe_is_finished value)
set_value f (SetSetting.gestures value) = some (SettingValue.gesture_enable value)
set_value f (SetSetting.diagnostics value) = some (SettingValue.diagnostics_enable value)
set_value f (SetSetting.oobe_mode value) = some (SettingValue.oobe_mode value)
set_value f (SetSetting.gesture_control left right) =
    some
      (SettingValue.gesture_control (record { left = action_into left; right = action_into right }))
set_value f (SetSetting.multipoint value) = some (SettingValue.multipoint_enable value)
set_value f (SetSetting.anc_gesture_loop off active aware) =
    let value : AncrGestureLoop = record { active = active; off = off; aware = aware } in
    if is_valid value then some (SettingValue.ancr_gesture_loop value) else none
set_value f (SetSetting.anc value) = some (SettingValue.current_ancr_state (anc_state_into value))
set_value f (SetSetting.volume_eq value) = some (SettingValue.volume_eq_enable value)
set_value f (SetSetting.eq low_bass bass mid treble upper_treble) =
    some (SettingValue.current_user_eq (new_bands f low_bass bass mid treble upper_treble))
set_value f (SetSetting.balance value) =
    some (SettingValue.volume_asymmetry (from_normalized value))
