-- ===== src/Cli/Args.antt =====
-- cli/src/cli.rs: the commands, as the library `clap` hands them over, and the parsers of values.
use pbpctrl.Prelude.{Bool, ltb, if◌then◌else◌, Result, ok, err}
use pbpctrl.Service.Settings.{ℤ, pos, negsuc, RegularActionTarget}
use pbpctrl.Service.Settings as Settings
use pbpctrl.Service.Settings.Value.{Floats}

pub data ShowCommand : Type 0 where
  software hardware runtime battery : ShowCommand

pub data GetSetting : Type 0 where
  auto_ota ohd oobe_is_finished gestures diagnostics oobe_mode gesture_control : GetSetting
  multipoint anc_gesture_loop anc volume_eq eq balance : GetSetting

pub data AncState : Type 0 where
  off active aware : AncState

unfoldable pub anc_state_into : AncState → Settings.AncState
anc_state_into AncState.off = Settings.AncState.off
anc_state_into AncState.active = Settings.AncState.active
anc_state_into AncState.aware = Settings.AncState.aware

pub data HoldGestureAction : Type 0 where
  anc assistant : HoldGestureAction

unfoldable pub action_into : HoldGestureAction → RegularActionTarget
action_into HoldGestureAction.anc = RegularActionTarget.anc_control
action_into HoldGestureAction.assistant = RegularActionTarget.assistant_query

pub data SetSetting (F : Type 0) : Type 0 where
  auto_ota : (value : Bool) → SetSetting F
  ohd : (value : Bool) → SetSetting F
  oobe_is_finished : (value : Bool) → SetSetting F
  gestures : (value : Bool) → SetSetting F
  diagnostics : (value : Bool) → SetSetting F
  oobe_mode : (value : Bool) → SetSetting F
  gesture_control : (left right : HoldGestureAction) → SetSetting F
  multipoint : (value : Bool) → SetSetting F
  anc_gesture_loop : (off active aware : Bool) → SetSetting F
  anc : (value : AncState) → SetSetting F
  volume_eq : (value : Bool) → SetSetting F
  eq : (low_bass bass mid treble upper_treble : F) → SetSetting F
  balance : (value : ℤ) → SetSetting F

pub data Command (F : Type 0) : Type 0 where
  show : ShowCommand → Command F
  get : GetSetting → Command F
  set : SetSetting F → Command F

-- The error texts of the parsers; `B` is the text of the standard library's parser.
pub data ValueError (B : Type 0) : Type 0 where
  unreadable : B → ValueError B
  exceeds_maximum exceeds_minimum : ValueError B

-- The range tests of the two parsers, after `s.parse()`.
unfoldable pub check_eq : {B : Type 0} → (f : Floats) → f.F → Result (ValueError B) f.F
check_eq f val =
    if f.above_max val
    then err exceeds_maximum
    else if f.below_min val
    then err exceeds_minimum
    else ok val

unfoldable pub check_balance : {B : Type 0} → ℤ → Result (ValueError B) ℤ
check_balance (pos n) = if ltb 100 n then err exceeds_maximum else ok (pos n)
check_balance (negsuc n) = if ltb 99 n then err exceeds_minimum else ok (negsuc n)

module _ {B S : Type 0} where
  unfoldable pub parse_eq_value : (f : Floats) → (S → Result B f.F) → S → Result (ValueError B) f.F
  parse_eq_value f parse s = elim (parse s) [ ok val ↦ check_eq f val | err e ↦ err (unreadable e) ]

  unfoldable pub parse_balance : (S → Result B ℤ) → S → Result (ValueError B) ℤ
  parse_balance parse s = elim (parse s) [ ok val ↦ check_balance val | err e ↦ err (unreadable e) ]
