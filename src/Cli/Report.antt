-- ===== src/Cli/Report.antt =====
-- cli/src/main.rs: what the `show` commands print, as the list of the lines. The standard library's
-- text of an integer is a parameter.
pub mod Connection
use Prim.Native.String.{String}
use pbpctrl.Prelude.{
  ℕ, List, [], ◌∷◌, ◌++◌, Option, none, some, Bool, true, false, ◌==◌, if◌then◌else◌,
}
use pbpctrl.Service.Settings.{ℤ, pos, negsuc}
use pbpctrl.Service.Settings.Display.{text}
use pbpctrl.Service.Messages.{
  FirmwareVersion, FirmwareInfo, SoftwareInfo, SerialNumbers, HardwareInfo, DeviceBatteryInfo,
  BatteryInfo, PlacementInfo, RuntimeInfo,
}
use pbpctrl.Protocol.Addr.{Peer, source, target, address_for_channel}

-- `.as_ref().and_then(f)`, and `.map(f).unwrap_or("unknown")`.
abbrev pub and_then : {A B : Type 0} → Option A → (A → Option B) → Option B
and_then none f = none
and_then (some a) f = f a

abbrev pub or_unknown : {A : Type 0} → Option A → (A → String) → String
or_unknown none f = "unknown"
or_unknown (some a) f = f a

unfoldable pub show_software : SoftwareInfo → List String
show_software info =
    let case = and_then info.firmware (λ fw. fw.case) in
    let left = and_then info.firmware (λ fw. fw.left) in
    let right = and_then info.firmware (λ fw. fw.right) in
    let version = λ (fw : Option FirmwareVersion). or_unknown fw (λ v. v.version_string) in
    let extra = λ (fw : Option FirmwareVersion). or_unknown fw (λ v. v.unknown) in
    "firmware:"
    ∷ text ("  case:      " ∷ version case ∷ " (" ∷ extra case ∷ ")" ∷ [])
    ∷ text ("  left bud:  " ∷ version left ∷ " (" ∷ extra left ∷ ")" ∷ [])
    ∷ text ("  right bud: " ∷ version right ∷ " (" ∷ extra right ∷ ")" ∷ [])
    ∷ []

unfoldable pub show_hardware : HardwareInfo → List String
show_hardware info =
    "serial numbers:"
    ∷ text ("  case:      " ∷ or_unknown info.serial_number (λ ser. ser.case) ∷ [])
    ∷ text ("  left bud:  " ∷ or_unknown info.serial_number (λ ser. ser.left) ∷ [])
    ∷ text ("  right bud: " ∷ or_unknown info.serial_number (λ ser. ser.right) ∷ [])
    ∷ []

unfoldable pub state_text : ℤ → String
state_text (pos n) = if n == 2 then "charging" else if n == 1 then "not charging" else "unknown"
state_text (negsuc n) = "unknown"

unfoldable pub case_text : Bool → String
case_text in_case = if in_case then "in case" else "out of case"

module _ (int : ℤ → String) where
  -- The level and the state of one battery, behind a label.
  abbrev pub battery_line : String → Option DeviceBatteryInfo → String
  battery_line label none = text (label ∷ "unknown" ∷ [])
  battery_line label (some b) = text (label ∷ int b.level ∷ "% (" ∷ state_text b.state ∷ ")" ∷ [])

  unfoldable pub show_battery : RuntimeInfo → List String
  show_battery info =
      battery_line "case:      " (and_then info.battery_info (λ b. b.case))
      ∷ battery_line "left bud:  " (and_then info.battery_info (λ b. b.left))
      ∷ battery_line "right bud: " (and_then info.battery_info (λ b. b.right))
      ∷ []

  -- `peer_name` is the derived text of a peer.
  unfoldable pub show_runtime : (Peer → String) → ℕ → RuntimeInfo → List String
  show_runtime peer_name channel info =
      let address = address_for_channel channel in
      text ("clock: " ∷ int info.timestamp_ms ∷ " ms" ∷ [])
      ∷ ""
      ∷ "battery:"
      ∷ battery_line "  case:      " (and_then info.battery_info (λ b. b.case))
      ∷ battery_line "  left bud:  " (and_then info.battery_info (λ b. b.left))
      ∷ battery_line "  right bud: " (and_then info.battery_info (λ b. b.right))
      ∷ ""
      ∷ "placement:"
      ∷ text ("  left bud:  " ∷ or_unknown info.placement (λ p. case_text p.left_bud_in_case) ∷ [])
      ∷ text ("  right bud: " ∷ or_unknown info.placement (λ p. case_text p.right_bud_in_case) ∷ [])
      ∷ ""
      ∷ "connection:"
      ∷ text ("  local:  " ∷ or_unknown address (λ a. peer_name (source a)) ∷ [])
      ∷ text ("  remote: " ∷ or_unknown address (λ a. peer_name (target a)) ∷ [])
      ∷ []
