-- ===== src/Cli/Command/SetGet.antt =====
-- cli/src/main.rs: `get` reads what `set` sent.
use pbpctrl.Prelude.{◌≡◌, refl, sym, ◌∙◌, false, some, ok, subst, arith}
use pbpctrl.Service.Settings.{
  ℤ, anc_state_from, anc_state_into, action_target_from, action_target_into, from_normalized,
}
use pbpctrl.Service.Settings.Value.{Floats, SettingValue, new_bands, value_from, value_into}
use pbpctrl.Service.Settings.Value.RoundTrip.{IsSendable, value_from-value_into}
use pbpctrl.Service.Settings.Keys.{SettingType, from_var}
use pbpctrl.Service.Settings.Keys.Typed.{setting_of, from_var_iff}
use pbpctrl.Cli.Args.{
  AncState, HoldGestureAction, GetSetting, SetSetting, action_into, check_eq, check_balance,
}
use pbpctrl.Cli.Args as Args
use pbpctrl.Cli.Command.{get_key, set_value}

-- The command that reads what the given one sets.
unfoldable pub counterpart : {F : Type 0} → SetSetting F → GetSetting
counterpart (SetSetting.auto_ota _) = GetSetting.auto_ota
counterpart (SetSetting.ohd _) = GetSetting.ohd
counterpart (SetSetting.oobe_is_finished _) = GetSetting.oobe_is_finished
counterpart (SetSetting.gestures _) = GetSetting.gestures
counterpart (SetSetting.diagnostics _) = GetSetting.diagnostics
counterpart (SetSetting.oobe_mode _) = GetSetting.oobe_mode
counterpart (SetSetting.gesture_control _ _) = GetSetting.gesture_control
counterpart (SetSetting.multipoint _) = GetSetting.multipoint
counterpart (SetSetting.anc_gesture_loop _ _ _) = GetSetting.anc_gesture_loop
counterpart (SetSetting.anc _) = GetSetting.anc
counterpart (SetSetting.volume_eq _) = GetSetting.volume_eq
counterpart (SetSetting.eq _ _ _ _ _) = GetSetting.eq
counterpart (SetSetting.balance _) = GetSetting.balance

action_kept :
    (a : HoldGestureAction)
    → action_target_from (action_target_into (action_into a)) ≡ action_into a
unfolding action_target_from action_target_into action_into
action_kept HoldGestureAction.anc = refl
action_kept HoldGestureAction.assistant = refl

state_kept :
    (s : AncState) → anc_state_from (anc_state_into (Args.anc_state_into s)) ≡ Args.anc_state_into s
unfolding anc_state_from anc_state_into Args.anc_state_into
state_kept AncState.off = refl
state_kept AncState.active = refl
state_kept AncState.aware = refl

module _ (f : Floats) where
  -- The value that a command asks for.
  unfoldable pub requested : (cmd : SetSetting f.F) → SettingType f.F (get_key (counterpart cmd))
  unfolding get_key counterpart
  requested (SetSetting.auto_ota value) = value
  requested (SetSetting.ohd value) = value
  requested (SetSetting.oobe_is_finished value) = value
  requested (SetSetting.gestures value) = value
  requested (SetSetting.diagnostics value) = value
  requested (SetSetting.oobe_mode value) = value
  requested (SetSetting.gesture_control left right) = record {
    left = action_into left;
    right = action_into right;
  }
  requested (SetSetting.multipoint value) = value
  requested (SetSetting.anc_gesture_loop off active aware) = record {
    active = active;
    off = off;
    aware = aware;
  }
  requested (SetSetting.anc value) = Args.anc_state_into value
  requested (SetSetting.volume_eq value) = value
  requested (SetSetting.eq low_bass bass mid treble upper_treble) = record {
    low_bass = low_bass;
    bass = bass;
    mid = mid;
    treble = treble;
    upper_treble = upper_treble;
  }
  requested (SetSetting.balance value) = record { value = value }

  abbrev pub IsBand : f.F → Type 0
  IsBand x = check_eq {B = Unit {0}} f x ≡ ok x

  -- The parsers let the command's values pass.
  abbrev pub IsAccepted : SetSetting f.F → Type 0
  IsAccepted (SetSetting.eq low_bass bass mid treble upper_treble) =
      IsBand low_bass × IsBand bass × IsBand mid × IsBand treble × IsBand upper_treble
  IsAccepted (SetSetting.balance value) = check_balance {B = Unit {0}} value ≡ ok value
  IsAccepted _ = Unit {0}

  module _
      (within : (x : f.F) → f.above_max x ≡ false → f.below_min x ≡ false → f.clamp x ≡ x) where
    band_kept : (x : f.F) → IsBand x → f.clamp x ≡ x
    unfolding check_eq
    band_kept x h =
        let above : f.above_max x ≡ false = ground (arith, h) in
        let below : f.below_min x ≡ false = ground (arith, h) in within x above below

    balance_kept :
        (v : ℤ) → check_balance {B = Unit {0}} v ≡ ok v → from_normalized v ≡ record { value = v }
    unfolding check_balance from_normalized
    balance_kept (ℤ.pos n) h = ground (arith, h)
    balance_kept (ℤ.negsuc n) h = ground (arith, h)

    pub sent :
        (cmd : SetSetting f.F) (v : SettingValue f.F)
        → IsAccepted cmd
        → set_value f cmd ≡ some v
        → v ≡ setting_of f.F (get_key (counterpart cmd)) (requested cmd)
    unfolding set_value get_key counterpart setting_of requested new_bands
    sent (SetSetting.anc_gesture_loop off active aware) v h e = ground (arith, e)
    sent (SetSetting.eq a b c d g) v h e =
        cc (band_kept a h.0, band_kept b h.1, band_kept c h.2, band_kept d h.3, band_kept g h.4)
    sent (SetSetting.balance value) v h e = cc (balance_kept value h)
    sent cmd v h e = cc

    pub sendable :
        (cmd : SetSetting f.F)
        → IsAccepted cmd
        → IsSendable f (setting_of f.F (get_key (counterpart cmd)) (requested cmd))
    unfolding get_key counterpart setting_of requested
    sendable (SetSetting.gesture_control left right) h = (action_kept left, action_kept right)
    sendable (SetSetting.anc value) h = state_kept value
    sendable (SetSetting.eq a b c d g) h =
        (band_kept a h.0, band_kept b h.1, band_kept c h.2, band_kept d h.3, band_kept g h.4)
    sendable (SetSetting.balance value) h = (value, sym (balance_kept value h))
    sendable cmd h = tt

    -- What a `set` command sends, if the parsers accept its values, is read from its message by the
    -- counterpart `get` as the value that the command asked for. Clamping is taken to leave a band
    -- that passes both range tests as it is.
    pub set_get :
        (cmd : SetSetting f.F) (v : SettingValue f.F)
        → IsAccepted cmd
        → set_value f cmd ≡ some v
        → from_var (get_key (counterpart cmd)) (value_from (value_into f v)) ≡ some (requested cmd)
    set_get cmd v h e =
        let key = get_key (counterpart cmd) in
        let shape = sent cmd v h e in
        let back = value_from-value_into f v (subst (IsSendable f) (sym shape) (sendable cmd h)) in
        (from_var_iff f.F key (value_from (value_into f v)) (requested cmd)).1 (back ∙ shape)
