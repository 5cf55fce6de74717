-- ===== src/Service/Settings/Value.antt =====
-- libmaestro/src/service/settings.rs: settings, their numbers, and the conversions between a setting
-- and the generated message.
pub mod RoundTrip
pub use pbpctrl.Service.Settings.Bands.{
  Floats, EqBands, EqBandsMessage, default_bands, set_low_bass, set_bass, set_mid, set_treble,
  set_upper_treble,
}
unfoldable pub use pbpctrl.Service.Settings.Bands.{eq_bands_from, new_bands, eq_bands_into}
use pbpctrl.Prelude.{ℕ, Bool, ◌==◌, if◌then◌else◌}
use pbpctrl.Service.Settings.{
  ℤ, pos, negsuc, AncState, anc_state_from, anc_state_into, AncrGestureLoop, GestureControl,
  GestureControlMessage, gesture_control_from, gesture_control_into, VolumeAsymmetry, from_raw, raw,
}

pub data SettingId : Type 0 where
  auto_ota_enable ohd_enable oobe_is_finished gesture_enable diagnostics_enable oobe_mode :
      SettingId
  gesture_control anc_accessibility_mode ancr_state_one_bud ancr_state_two_buds multipoint_enable
        ancr_gesture_loop :
      SettingId
  current_ancr_state otts_mode volume_eq_enable current_user_eq volume_asymmetry
        last_saved_user_eq :
      SettingId
  unknown : ℤ → SettingId

unfoldable pub setting_id_from : ℤ → SettingId
setting_id_from (negsuc n) = SettingId.unknown (negsuc n)
setting_id_from (pos n) =
    if n == 1
    then SettingId.auto_ota_enable
    else if n == 2
    then SettingId.ohd_enable
    else if n == 3
    then SettingId.oobe_is_finished
    else if n == 4
    then SettingId.gesture_enable
    else if n == 5
    then SettingId.diagnostics_enable
    else if n == 6
    then SettingId.oobe_mode
    else if n == 7
    then SettingId.gesture_control
    else if n == 8
    then SettingId.anc_accessibility_mode
    else if n == 9
    then SettingId.ancr_state_one_bud
    else if n == 10
    then SettingId.ancr_state_two_buds
    else if n == 11
    then SettingId.multipoint_enable
    else if n == 12
    then SettingId.ancr_gesture_loop
    else if n == 13
    then SettingId.current_ancr_state
    else if n == 14
    then SettingId.otts_mode
    else if n == 15
    then SettingId.volume_eq_enable
    else if n == 16
    then SettingId.current_user_eq
    else if n == 17
    then SettingId.volume_asymmetry
    else if n == 18
    then SettingId.last_saved_user_eq
    else SettingId.unknown (pos n)

unfoldable pub setting_id_into : SettingId → ℤ
setting_id_into SettingId.auto_ota_enable = pos 1
setting_id_into SettingId.ohd_enable = pos 2
setting_id_into SettingId.oobe_is_finished = pos 3
setting_id_into SettingId.gesture_enable = pos 4
setting_id_into SettingId.diagnostics_enable = pos 5
setting_id_into SettingId.oobe_mode = pos 6
setting_id_into SettingId.gesture_control = pos 7
setting_id_into SettingId.anc_accessibility_mode = pos 8
setting_id_into SettingId.ancr_state_one_bud = pos 9
setting_id_into SettingId.ancr_state_two_buds = pos 10
setting_id_into SettingId.multipoint_enable = pos 11
setting_id_into SettingId.ancr_gesture_loop = pos 12
setting_id_into SettingId.current_ancr_state = pos 13
setting_id_into SettingId.otts_mode = pos 14
setting_id_into SettingId.volume_eq_enable = pos 15
setting_id_into SettingId.current_user_eq = pos 16
setting_id_into SettingId.volume_asymmetry = pos 17
setting_id_into SettingId.last_saved_user_eq = pos 18
setting_id_into (SettingId.unknown v) = v

pub record AncrGestureLoopMessage : Type 0 where
  pub active : Bool
  pub off : Bool
  pub aware : Bool

unfoldable pub gesture_loop_from : AncrGestureLoopMessage → AncrGestureLoop
gesture_loop_from m = record { active = m.active; off = m.off; aware = m.aware }

unfoldable pub gesture_loop_into : AncrGestureLoop → AncrGestureLoopMessage
gesture_loop_into l = record { active = l.active; off = l.off; aware = l.aware }

pub data SettingValue (F : Type 0) : Type 0 where
  auto_ota_enable : Bool → SettingValue F
  ohd_enable : Bool → SettingValue F
  oobe_is_finished : Bool → SettingValue F
  gesture_enable : Bool → SettingValue F
  diagnostics_enable : Bool → SettingValue F
  oobe_mode : Bool → SettingValue F
  gesture_control : GestureControl → SettingValue F
  multipoint_enable : Bool → SettingValue F
  ancr_gesture_loop : AncrGestureLoop → SettingValue F
  current_ancr_state : AncState → SettingValue F
  otts_mode : ℤ → SettingValue F
  volume_eq_enable : Bool → SettingValue F
  current_user_eq : EqBands F → SettingValue F
  volume_asymmetry : VolumeAsymmetry → SettingValue F

-- The generated message's alternatives.
pub data ValueOneof (F : Type 0) : Type 0 where
  auto_ota_enable : Bool → ValueOneof F
  ohd_enable : Bool → ValueOneof F
  oobe_is_finished : Bool → ValueOneof F
  gesture_enable : Bool → ValueOneof F
  diagnostics_enable : Bool → ValueOneof F
  oobe_mode : Bool → ValueOneof F
  gesture_control : GestureControlMessage → ValueOneof F
  multipoint_enable : Bool → ValueOneof F
  ancr_gesture_loop : AncrGestureLoopMessage → ValueOneof F
  current_ancr_state : ℤ → ValueOneof F
  otts_mode : ℤ → ValueOneof F
  volume_eq_enable : Bool → ValueOneof F
  current_user_eq : EqBandsMessage F → ValueOneof F
  volume_asymmetry : ℤ → ValueOneof F

unfoldable pub value_id : {F : Type 0} → SettingValue F → SettingId
value_id (SettingValue.auto_ota_enable _) = SettingId.auto_ota_enable
value_id (SettingValue.ohd_enable _) = SettingId.ohd_enable
value_id (SettingValue.oobe_is_finished _) = SettingId.oobe_is_finished
value_id (SettingValue.gesture_enable _) = SettingId.gesture_enable
value_id (SettingValue.diagnostics_enable _) = SettingId.diagnostics_enable
value_id (SettingValue.oobe_mode _) = SettingId.oobe_mode
value_id (SettingValue.gesture_control _) = SettingId.gesture_control
value_id (SettingValue.multipoint_enable _) = SettingId.multipoint_enable
value_id (SettingValue.ancr_gesture_loop _) = SettingId.ancr_gesture_loop
value_id (SettingValue.current_ancr_state _) = SettingId.current_ancr_state
value_id (SettingValue.otts_mode _) = SettingId.otts_mode
value_id (SettingValue.volume_eq_enable _) = SettingId.volume_eq_enable
value_id (SettingValue.current_user_eq _) = SettingId.current_user_eq
value_id (SettingValue.volume_asymmetry _) = SettingId.volume_asymmetry

unfoldable pub value_from : {F : Type 0} → ValueOneof F → SettingValue F
value_from (ValueOneof.auto_ota_enable x) = SettingValue.auto_ota_enable x
value_from (ValueOneof.ohd_enable x) = SettingValue.ohd_enable x
value_from (ValueOneof.oobe_is_finished x) = SettingValue.oobe_is_finished x
value_from (ValueOneof.gesture_enable x) = SettingValue.gesture_enable x
value_from (ValueOneof.diagnostics_enable x) = SettingValue.diagnostics_enable x
value_from (ValueOneof.oobe_mode x) = SettingValue.oobe_mode x
value_from (ValueOneof.gesture_control x) = SettingValue.gesture_control (gesture_control_from x)
value_from (ValueOneof.multipoint_enable x) = SettingValue.multipoint_enable x
value_from (ValueOneof.ancr_gesture_loop x) = SettingValue.ancr_gesture_loop (gesture_loop_from x)
value_from (ValueOneof.current_ancr_state x) = SettingValue.current_ancr_state (anc_state_from x)
value_from (ValueOneof.otts_mode x) = SettingValue.otts_mode x
value_from (ValueOneof.volume_eq_enable x) = SettingValue.volume_eq_enable x
value_from (ValueOneof.current_user_eq x) = SettingValue.current_user_eq (eq_bands_from x)
value_from (ValueOneof.volume_asymmetry x) = SettingValue.volume_asymmetry (from_raw x)

unfoldable pub value_into : (f : Floats) → SettingValue f.F → ValueOneof f.F
value_into f (SettingValue.auto_ota_enable x) = ValueOneof.auto_ota_enable x
value_into f (SettingValue.ohd_enable x) = ValueOneof.ohd_enable x
value_into f (SettingValue.oobe_is_finished x) = ValueOneof.oobe_is_finished x
value_into f (SettingValue.gesture_enable x) = ValueOneof.gesture_enable x
value_into f (SettingValue.diagnostics_enable x) = ValueOneof.diagnostics_enable x
value_into f (SettingValue.oobe_mode x) = ValueOneof.oobe_mode x
value_into f (SettingValue.gesture_control x) = ValueOneof.gesture_control (gesture_control_into x)
value_into f (SettingValue.multipoint_enable x) = ValueOneof.multipoint_enable x
value_into f (SettingValue.ancr_gesture_loop x) = ValueOneof.ancr_gesture_loop (gesture_loop_into x)
value_into f (SettingValue.current_ancr_state x) = ValueOneof.current_ancr_state (anc_state_into x)
value_into f (SettingValue.otts_mode x) = ValueOneof.otts_mode x
value_into f (SettingValue.volume_eq_enable x) = ValueOneof.volume_eq_enable x
value_into f (SettingValue.current_user_eq x) = ValueOneof.current_user_eq (eq_bands_into f x)
value_into f (SettingValue.volume_asymmetry x) = ValueOneof.volume_asymmetry (raw x)
