-- ===== src/Service/Settings/Keys/Typed.antt =====
-- libmaestro/src/service/settings.rs: the key of a setting finds the setting's value, and no other.
use pbpctrl.Prelude.{◌≡◌, refl, ◌↔◌, some}
use pbpctrl.Service.Settings.Value.{SettingValue}
use pbpctrl.Service.Settings.Keys.{SettingKey, SettingType, from_var}

module _ (F : Type 0) where
  -- The setting of a key's own kind with the given value.
  unfoldable pub setting_of : (key : SettingKey) → SettingType F key → SettingValue F
  setting_of SettingKey.auto_ota_enable x = SettingValue.auto_ota_enable x
  setting_of SettingKey.ohd_enable x = SettingValue.ohd_enable x
  setting_of SettingKey.oobe_is_finished x = SettingValue.oobe_is_finished x
  setting_of SettingKey.gesture_enable x = SettingValue.gesture_enable x
  setting_of SettingKey.diagnostics_enable x = SettingValue.diagnostics_enable x
  setting_of SettingKey.oobe_mode x = SettingValue.oobe_mode x
  setting_of SettingKey.gesture_control x = SettingValue.gesture_control x
  setting_of SettingKey.multipoint_enable x = SettingValue.multipoint_enable x
  setting_of SettingKey.ancr_gesture_loop x = SettingValue.ancr_gesture_loop x
  setting_of SettingKey.current_ancr_state x = SettingValue.current_ancr_state x
  setting_of SettingKey.otts_mode x = SettingValue.otts_mode x
  setting_of SettingKey.volume_eq_enable x = SettingValue.volume_eq_enable x
  setting_of SettingKey.current_user_eq x = SettingValue.current_user_eq x
  setting_of SettingKey.volume_asymmetry x = SettingValue.volume_asymmetry x
  setting_of (SettingKey.var id) value = value

  from_var-setting_of :
      (key : SettingKey) (x : SettingType F key) → from_var key (setting_of key x) ≡ some x
  unfolding from_var setting_of
  from_var-setting_of SettingKey.ohd_enable x = refl
  from_var-setting_of _ x = refl

  from_var-some :
      (key : SettingKey) (v : SettingValue F) (x : SettingType F key)
      → from_var key v ≡ some x
      → v ≡ setting_of key x
  unfolding from_var setting_of
  from_var-some SettingKey.auto_ota_enable (SettingValue.auto_ota_enable y) x e = cc
  from_var-some SettingKey.auto_ota_enable _ x e = cc
  from_var-some SettingKey.ohd_enable (SettingValue.ohd_enable y) x e = cc
  from_var-some SettingKey.ohd_enable _ x e = cc
  from_var-some SettingKey.oobe_is_finished (SettingValue.oobe_is_finished y) x e = cc
  from_var-some SettingKey.oobe_is_finished _ x e = cc
  from_var-some SettingKey.gesture_enable (SettingValue.gesture_enable y) x e = cc
  from_var-some SettingKey.gesture_enable _ x e = cc
  from_var-some SettingKey.diagnostics_enable (SettingValue.diagnostics_enable y) x e = cc
  from_var-some SettingKey.diagnostics_enable _ x e = cc
  from_var-some SettingKey.oobe_mode (SettingValue.oobe_mode y) x e = cc
  from_var-some SettingKey.oobe_mode _ x e = cc
  from_var-some SettingKey.gesture_control (SettingValue.gesture_control y) x e = cc
  from_var-some SettingKey.gesture_control _ x e = cc
  from_var-some SettingKey.multipoint_enable (SettingValue.multipoint_enable y) x e = cc
  from_var-some SettingKey.multipoint_enable _ x e = cc
  from_var-some SettingKey.ancr_gesture_loop (SettingValue.ancr_gesture_loop y) x e = cc
  from_var-some SettingKey.ancr_gesture_loop _ x e = cc
  from_var-some SettingKey.current_ancr_state (SettingValue.current_ancr_state y) x e = cc
  from_var-some SettingKey.current_ancr_state _ x e = cc
  from_var-some SettingKey.otts_mode (SettingValue.otts_mode y) x e = cc
  from_var-some SettingKey.otts_mode _ x e = cc
  from_var-some SettingKey.volume_eq_enable (SettingValue.volume_eq_enable y) x e = cc
  from_var-some SettingKey.volume_eq_enable _ x e = cc
  from_var-some SettingKey.current_user_eq (SettingValue.current_user_eq y) x e = cc
  from_var-some SettingKey.current_user_eq _ x e = cc
  from_var-some SettingKey.volume_asymmetry (SettingValue.volume_asymmetry y) x e = cc
  from_var-some SettingKey.volume_asymmetry _ x e = cc
  from_var-some (SettingKey.var id) v x e = cc

  -- A key reads a value from exactly the settings of its own kind.
  pub from_var_iff :
      (key : SettingKey) (v : SettingValue F) (x : SettingType F key)
      → (from_var key v ≡ some x) ↔ (v ≡ setting_of key x)
  from_var_iff key v x = (from_var-some key v x, λ e. rw e (from_var-setting_of key x))
