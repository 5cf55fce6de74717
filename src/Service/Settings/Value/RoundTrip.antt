-- ===== src/Service/Settings/Value/RoundTrip.antt =====
-- libmaestro/src/service/settings.rs: a setting survives its message.
use pbpctrl.Prelude.{◌≡◌, refl, ap, arith}
use pbpctrl.Service.Settings.{
  ℤ, anc_state_from, anc_state_into, action_target_from, action_target_into, gesture_control_from,
  gesture_control_into, side_from, from_normalized,
}
use pbpctrl.Service.Settings.Volume.{from_raw-raw}
use pbpctrl.Service.Settings.Value.{
  setting_id_from, setting_id_into, Floats, EqBands, eq_bands_from, eq_bands_into,
  gesture_loop_from, gesture_loop_into, SettingValue, value_from, value_into,
}

-- The numbers of settings, known or not, are kept.
pub setting_id_into-from : (v : ℤ) → setting_id_into (setting_id_from v) ≡ v
unfolding setting_id_into setting_id_from
setting_id_into-from (ℤ.pos n) = ground arith
setting_id_into-from (ℤ.negsuc n) = refl

module _ (f : Floats) where
  abbrev pub InRange : EqBands f.F → Type 0
  InRange b =
      (f.clamp b.low_bass ≡ b.low_bass)
      × (f.clamp b.bass ≡ b.bass)
      × (f.clamp b.mid ≡ b.mid)
      × (f.clamp b.treble ≡ b.treble)
      × (f.clamp b.upper_treble ≡ b.upper_treble)

  -- Bands within their range, a normalized asymmetry, and no `Unknown` with the number of a known
  -- action or state.
  abbrev pub IsSendable : SettingValue f.F → Type 0
  IsSendable (SettingValue.gesture_control g) =
      (action_target_from (action_target_into g.left) ≡ g.left)
      × (action_target_from (action_target_into g.right) ≡ g.right)
  IsSendable (SettingValue.current_ancr_state s) = anc_state_from (anc_state_into s) ≡ s
  IsSendable (SettingValue.current_user_eq b) = InRange b
  IsSendable (SettingValue.volume_asymmetry v) = (n : ℤ) × (v ≡ from_normalized n)
  IsSendable _ = Unit

  -- A setting that can be sent is read back from its message.
  pub value_from-value_into :
      (v : SettingValue f.F) → IsSendable v → value_from (value_into f v) ≡ v
  unfolding value_from value_into gesture_control_from gesture_control_into side_from
      gesture_loop_from gesture_loop_into eq_bands_from eq_bands_into
  value_from-value_into (SettingValue.gesture_control g) h = ground (arith, h)
  value_from-value_into (SettingValue.current_ancr_state s) h = ap SettingValue.current_ancr_state h
  value_from-value_into (SettingValue.current_user_eq b) h = ground (arith, h)
  value_from-value_into (SettingValue.volume_asymmetry v) (n, h) =
      ap SettingValue.volume_asymmetry (rw h (from_raw-raw n))
  value_from-value_into _ h = refl
