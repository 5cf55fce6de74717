-- ===== src/Service/Settings/Gestures.antt =====
-- libmaestro/src/service/settings.rs: what the conversions of gestures keep.
use pbpctrl.Prelude.{◌≡◌, refl, ap₂, Option, none, some, arith, Option-cases, inl, inr}
use pbpctrl.Service.Settings.{
  ℤ, pos, negsuc, action_target_from, action_target_into, DeviceGestureControl,
  GestureControlMessage, side_from, gesture_control_from, gesture_control_into,
}

action_target_into-from : (v : ℤ) → action_target_into (action_target_from v) ≡ v
unfolding action_target_into action_target_from
action_target_into-from (pos n) = ground arith
action_target_into-from (negsuc n) = refl

-- The action that a side names; -1 stands for none.
abbrev pub named : Option DeviceGestureControl → ℤ
named none = negsuc 0
named (some d) = elim d.value_oneof [ none ↦ negsuc 0 | some v ↦ v ]

abbrev pub both : ℤ → ℤ → GestureControlMessage
both l r = record {
  left = some (record { value_oneof = some l });
  right = some (record { value_oneof = some r });
}

side_kept : (s : Option DeviceGestureControl) → action_target_into (side_from s) ≡ named s
unfolding side_from action_target_into
side_kept none = refl
side_kept (some d) = elim (Option-cases d.value_oneof) [
  | inl e ↦ rw (side_from, e) refl
  | inr (v, e) ↦ rw (side_from, e) (action_target_into-from v)
]

-- Reading a message of gestures and writing it again keeps the action of each side, known or not; a
-- side without an action is written as the action -1.
pub gesture_control_into-from :
    (m : GestureControlMessage)
    → gesture_control_into (gesture_control_from m) ≡ both (named m.left) (named m.right)
unfolding gesture_control_into gesture_control_from
gesture_control_into-from m = ap₂ both (side_kept m.left) (side_kept m.right)
