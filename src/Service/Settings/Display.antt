-- ===== src/Service/Settings/Display.antt =====
-- libmaestro/src/service/settings.rs: the texts of settings. The standard library's texts of an i32
-- and of an f32 with two decimals are a parameter.
pub mod Balance
use Prim.Native.String.{String}
use Prim.Native.String as Text
use pbpctrl.Prelude.{ℕ, ◌+◌, ◌-◌, List, [], ◌∷◌, Bool, true, false, ltb, if◌then◌else◌}
use pbpctrl.Service.Settings.{
  ℤ, pos, negsuc, RegularActionTarget, GestureControl, AncrGestureLoop, AncState, VolumeAsymmetry,
}
use pbpctrl.Service.Settings.Value.{EqBands}
use pbpctrl.Service.Settings.Keys.{SettingKey, SettingType}

pub record Formats (F : Type 0) : Type 0 where
  pub int : ℤ → String
  pub two_decimals : F → String

abbrev pub text : List String → String
text [] = ""
text (s ∷ parts) = Text.◌++◌ s (text parts)

abbrev pub action_as_str : RegularActionTarget → String
action_as_str RegularActionTarget.check_notifications = "check-notifications"
action_as_str RegularActionTarget.previous_track_repeat = "previous"
action_as_str RegularActionTarget.next_track = "next"
action_as_str RegularActionTarget.play_pause_track = "play-pause"
action_as_str RegularActionTarget.anc_control = "anc"
action_as_str RegularActionTarget.assistant_query = "assistant"
action_as_str (RegularActionTarget.unknown _) = "unknown"

abbrev pub anc_as_str : AncState → String
anc_as_str AncState.off = "off"
anc_as_str AncState.active = "active"
anc_as_str AncState.aware = "aware"
anc_as_str (AncState.unknown _) = "unknown"

-- The names of the loop's states, a comma before each but the first.
abbrev pub comma_list : List String → List String
comma_list [] = []
comma_list (s ∷ []) = s ∷ []
comma_list (s ∷ t ∷ parts) = s ∷ ", " ∷ comma_list (t ∷ parts)

-- A state that is written if it is part of the loop; `rest` are the states behind it.
abbrev pub loop_state : Bool → String → List String → List String
loop_state true name rest = name ∷ rest
loop_state false name rest = rest

unfoldable pub gesture_loop_text : AncrGestureLoop → String
gesture_loop_text l =
    let names =
      loop_state l.active "active" (loop_state l.off "off" (loop_state l.aware "aware" [])) in
    text ("[" ∷ text (comma_list names) ∷ "]" ∷ [])

-- `100 - value`, `100 + value` and `min(100)` on an i32, of a value that is far from overflow.
unfoldable pub hundred_minus : ℤ → ℤ
hundred_minus (pos n) = if ltb 100 n then negsuc (n - 101) else pos (100 - n)
hundred_minus (negsuc n) = pos (101 + n)

unfoldable pub hundred_plus : ℤ → ℤ
hundred_plus (pos n) = pos (100 + n)
hundred_plus (negsuc n) = if ltb 99 n then negsuc (n - 100) else pos (99 - n)

unfoldable pub min_hundred : ℤ → ℤ
min_hundred (pos n) = if ltb 100 n then pos 100 else pos n
min_hundred (negsuc n) = negsuc n

abbrev pub left_volume : VolumeAsymmetry → ℤ
left_volume v = min_hundred (hundred_minus v.value)

abbrev pub right_volume : VolumeAsymmetry → ℤ
right_volume v = min_hundred (hundred_plus v.value)

module _ {F : Type 0} (formats : Formats F) where
  unfoldable pub action_text : RegularActionTarget → String
  action_text (RegularActionTarget.unknown x) = text ("unknown (" ∷ formats.int x ∷ ")" ∷ [])
  action_text target = action_as_str target

  unfoldable pub gesture_control_text : GestureControl → String
  gesture_control_text g =
      text ("left: " ∷ action_text g.left ∷ ", right: " ∷ action_text g.right ∷ [])

  unfoldable pub anc_state_text : AncState → String
  anc_state_text (AncState.unknown x) = text ("unknown (" ∷ formats.int x ∷ ")" ∷ [])
  anc_state_text state = anc_as_str state

  unfoldable pub eq_bands_text : EqBands F → String
  eq_bands_text b = text (
      "["
      ∷ formats.two_decimals b.low_bass
      ∷ ", "
      ∷ formats.two_decimals b.bass
      ∷ ", "
      ∷ formats.two_decimals b.mid
      ∷ ", "
      ∷ formats.two_decimals b.treble
      ∷ ", "
      ∷ formats.two_decimals b.upper_treble
      ∷ "]"
      ∷ [])

  unfoldable pub volume_text : VolumeAsymmetry → String
  volume_text v = text (
      "left: "
      ∷ formats.int (left_volume v)
      ∷ "%, right: "
      ∷ formats.int (right_volume v)
      ∷ "%"
      ∷ [])
