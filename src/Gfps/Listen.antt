-- ===== src/Gfps/Listen.antt =====
-- libgfps/examples/gfps_listen.rs: the program that prints what the device sends, as the list of the
-- lines. What the standard library, bluer and pretty_hex make of bytes is a parameter.
pub mod Texts
pub mod Stream
pub mod Panics
mod Tests
use Prim.Native.String.{String}
use pbpctrl.Prelude.{
  ℕ, ◌+◌, ◌*◌, List, [], ◌∷◌, ◌++◌, Option, none, some, Bool, true, false, ◌==◌, if◌then◌else◌,
}
use mathlib.Core.List as Lst
use pbpctrl.Service.Settings.Display.{text}
use pbpctrl.Gfps.Codec.{Message}
use pbpctrl.Gfps.Battery.{from_byte, battery_text}
use pbpctrl.Gfps.Events.{
  EventGroup, event_group_from, BluetoothEventCode, bluetooth_event_code_from, LoggingEventCode,
  logging_event_code_from, DeviceEventCode, device_event_code_from, DeviceActionEventCode,
  device_action_event_code_from, DeviceConfigurationEventCode, device_configuration_event_code_from,
  DeviceCapabilitySyncEventCode, device_capability_sync_event_code_from, SassEventCode,
  sass_event_code_from, AcknowledgementEventCode, acknowledgement_event_code_from, PlatformType,
  platform_type_from,
}
use pbpctrl.Gfps.Listen.Texts.{
  bluetooth_text, logging_text, action_text, configuration_text, capability_sync_text, sass_text,
  device_text, reason_text,
}

-- `{:02X}`, `{:08b}` and `{}` of a number, `{:02X?}` of a slice, `str::from_utf8`, `{:?}` of a `str`,
-- `{}` of `bluer::Address` and the lines of `pretty_hex::config_hex`.
pub record Formats : Type 0 where
  pub hex : ℕ → String
  pub binary : ℕ → String
  pub int : ℕ → String
  pub hex_slice : List ℕ → String
  pub from_utf8 : List ℕ → Option String
  pub quoted : String → String
  pub address : List ℕ → String
  pub hex_dump : List ℕ → List String

-- The lines that are printed, and whether the end is reached: `false` is a panic.
abbrev pub Printed : Type 0
Printed = List String × Bool

abbrev pub before : List String → Printed → Printed
before lines (more, end) = (lines ++ more, end)

abbrev pub panics : Printed
panics = ([], false)

abbrev pub prints : List String → Printed
prints lines = (lines, true)

module _ (fmt : Formats) where
  unfoldable pub print_message_body_unknown : Message → List String
  print_message_body_unknown msg =
      Lst.map (λ line. text ("  " ∷ line ∷ [])) (fmt.hex_dump msg.payload)

  -- A name and its number.
  abbrev pub named : String → ℕ → String
  named name n = text (name ∷ " (0x" ∷ fmt.hex n ∷ ")" ∷ [])

  -- What a group prints whose data is not read, on one line or on two.
  abbrev pub on_one_line : String → String → Message → List String
  on_one_line group code msg =
      text (named group msg.group ∷ " :: " ∷ named code msg.code ∷ [])
        ∷ print_message_body_unknown msg
      ++ "" ∷ []

  abbrev pub on_two_lines : String → String → Message → List String
  on_two_lines group code msg =
      text (named group msg.group ∷ " :: " ∷ [])
        ∷ named code msg.code
        ∷ print_message_body_unknown msg
      ++ "" ∷ []

  unfoldable pub reason_line : ℕ → String
  reason_line n = elim (reason_text n) [
    | some reason ↦ text ("  reason: " ∷ reason ∷ [])
    | none ↦ text ("  reason: Unknown (0x" ∷ fmt.hex n ∷ ")" ∷ [])
  ]

  -- The source's platform data ends in a parenthesis that nothing opens.
  unfoldable pub print_platform_data : PlatformType → ℕ → List ℕ → Printed
  print_platform_data PlatformType.android platform rest =
      before (text ("  platform: Android (0x" ∷ fmt.hex platform ∷ ")" ∷ []) ∷ []) (elim rest [
        | [] ↦ panics
        | sdk ∷ _ ↦ prints (text ("  SDK version: " ∷ fmt.hex sdk ∷ ")" ∷ []) ∷ [])
      ])
  print_platform_data (PlatformType.unknown _) platform rest =
      before (text ("  platform: Unknown (0x" ∷ fmt.hex platform ∷ ")" ∷ []) ∷ []) (elim rest [
        | [] ↦ panics
        | extra ∷ _ ↦ prints (text ("  platform data: 0x" ∷ fmt.hex extra ∷ ")" ∷ []) ∷ [])
      ])

  unfoldable pub print_platform : List ℕ → Printed
  print_platform [] = panics
  print_platform (platform ∷ rest) = print_platform_data (platform_type_from platform) platform rest

  unfoldable pub print_firmware : List ℕ → List String
  print_firmware bytes = elim (fmt.from_utf8 bytes) [
    | some ver ↦ text ("  version: " ∷ fmt.quoted ver ∷ []) ∷ []
    | none ↦ text ("  version: " ∷ fmt.hex_slice bytes ∷ []) ∷ []
  ]

  unfoldable pub print_batteries : List ℕ → Printed
  print_batteries (left ∷ right ∷ case ∷ _) = prints (
      text ("  left bud:  " ∷ battery_text fmt.int (from_byte left) ∷ [])
      ∷ text ("  right bud: " ∷ battery_text fmt.int (from_byte right) ∷ [])
      ∷ text ("  case:      " ∷ battery_text fmt.int (from_byte case) ∷ [])
      ∷ [])
  print_batteries _ = panics

  unfoldable pub print_battery_time : List ℕ → Printed
  print_battery_time (a ∷ []) = prints (text ("  time: " ∷ fmt.int a ∷ " minutes" ∷ []) ∷ [])
  print_battery_time (a ∷ b ∷ []) =
      prints (text ("  time: " ∷ fmt.int (a * 256 + b) ∷ " minutes" ∷ []) ∷ [])
  print_battery_time _ = panics

  unfoldable pub print_model : List ℕ → Printed
  print_model (a ∷ b ∷ c ∷ _) =
      prints (text ("  model: " ∷ fmt.hex a ∷ fmt.hex b ∷ fmt.hex c ∷ []) ∷ [])
  print_model _ = panics

  unfoldable pub print_address : List ℕ → Printed
  print_address (a ∷ b ∷ c ∷ d ∷ e ∷ f ∷ _) =
      prints (text ("  address: " ∷ fmt.address (a ∷ b ∷ c ∷ d ∷ e ∷ f ∷ []) ∷ []) ∷ [])
  print_address _ = panics

  unfoldable pub print_bits : String → List ℕ → Printed
  print_bits label (a ∷ _) = prints (text (label ∷ fmt.binary a ∷ []) ∷ [])
  print_bits label [] = panics

  -- What follows the line of the code.
  unfoldable pub print_device_data : DeviceEventCode → Message → Printed
  print_device_data DeviceEventCode.model_id msg = print_model msg.payload
  print_device_data DeviceEventCode.ble_address msg = print_address msg.payload
  print_device_data DeviceEventCode.battery_info msg = print_batteries msg.payload
  print_device_data DeviceEventCode.battery_time msg = print_battery_time msg.payload
  print_device_data DeviceEventCode.active_components_request msg = prints []
  print_device_data DeviceEventCode.active_components_response msg =
      print_bits "  components: " msg.payload
  print_device_data DeviceEventCode.capability msg = print_bits "  capabilities: " msg.payload
  print_device_data DeviceEventCode.platform_type msg = print_platform msg.payload
  print_device_data DeviceEventCode.firmware_version msg = prints (print_firmware msg.payload)
  print_device_data DeviceEventCode.section_nonce msg =
      prints (text ("  nonce: " ∷ fmt.hex_slice msg.payload ∷ []) ∷ [])
  print_device_data (DeviceEventCode.unknown _) msg = prints (print_message_body_unknown msg)

  -- A line behind what is printed without a panic.
  abbrev pub then_empty : Printed → Printed
  then_empty (lines, true) = (lines ++ "" ∷ [], true)
  then_empty (lines, false) = (lines, false)

  unfoldable pub print_device : Message → Printed
  print_device msg =
      let code = device_event_code_from msg.code in
      before
        (text
            (named "Device Information" msg.group ∷ " :: " ∷ named (device_text code) msg.code ∷ [])
          ∷ [])
        (then_empty (print_device_data code msg))

  unfoldable pub print_nak : List ℕ → Printed
  print_nak [] = panics
  print_nak (reason ∷ rest) = before (reason_line reason ∷ []) (elim rest [
    | [] ↦ panics
    | group ∷ [] ↦ before (text ("  group: 0x" ∷ fmt.hex group ∷ []) ∷ []) panics
    | group ∷ code ∷ _ ↦ prints (
        text ("  group: 0x" ∷ fmt.hex group ∷ [])
        ∷ text ("  code: 0x" ∷ fmt.hex code ∷ [])
        ∷ ""
        ∷ [])
  ])

  unfoldable pub print_ack : List ℕ → Printed
  print_ack [] = panics
  print_ack (group ∷ rest) = before (text ("  group: 0x" ∷ fmt.hex group ∷ []) ∷ []) (elim rest [
    | [] ↦ panics
    | code ∷ _ ↦ prints (text ("  code: 0x" ∷ fmt.hex code ∷ []) ∷ "" ∷ [])
  ])

  -- The source writes no space behind this group's colons.
  abbrev pub acknowledgement_line : String → Message → List String
  acknowledgement_line code msg =
      text (named "Acknowledgement" msg.group ∷ " ::" ∷ named code msg.code ∷ []) ∷ []

  unfoldable pub print_acknowledgement : AcknowledgementEventCode → Message → Printed
  print_acknowledgement AcknowledgementEventCode.ack msg =
      before (acknowledgement_line "ACK" msg) (print_ack msg.payload)
  print_acknowledgement AcknowledgementEventCode.nak msg =
      before (acknowledgement_line "NAK" msg) (print_nak msg.payload)
  print_acknowledgement (AcknowledgementEventCode.unknown _) msg =
      before (acknowledgement_line "Unknown" msg)
        (prints (print_message_body_unknown msg ++ "" ∷ []))

  unfoldable pub print_group : EventGroup → Message → Printed
  print_group EventGroup.bluetooth msg =
      prints (on_two_lines "Bluetooth" (bluetooth_text (bluetooth_event_code_from msg.code)) msg)
  print_group EventGroup.logging msg =
      prints (on_two_lines "Companion App" (logging_text (logging_event_code_from msg.code)) msg)
  print_group EventGroup.device msg = print_device msg
  print_group EventGroup.device_action msg =
      prints
        (on_one_line "Device Action" (action_text (device_action_event_code_from msg.code)) msg)
  print_group EventGroup.device_configuration msg = prints (
      on_one_line "Device Configuration"
        (configuration_text (device_configuration_event_code_from msg.code)) msg)
  print_group EventGroup.device_capability_sync msg = prints (
      on_one_line "Device Cpabilities Sync"
        (capability_sync_text (device_capability_sync_event_code_from msg.code)) msg)
  print_group EventGroup.smart_audio_source_switching msg =
      prints
        (on_one_line "Smart Audio Source Switching" (sass_text (sass_event_code_from msg.code)) msg)
  print_group EventGroup.acknowledgement msg =
      print_acknowledgement (acknowledgement_event_code_from msg.code) msg
  print_group (EventGroup.unknown _) msg = prints (on_one_line "Unknown" "Unknown" msg)

  unfoldable pub print_message : Message → Printed
  print_message msg = print_group (event_group_from msg.group) msg
