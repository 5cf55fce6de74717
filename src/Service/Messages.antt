-- ===== src/Service/Messages.antt =====
-- libmaestro/proto/maestro_pw.proto: the messages of the services, as the build generates them. An
-- enum's number is an integer; a text is a String. Of the messages that the services only pass on,
-- the type is a parameter.
use Prim.Native.String.{String}
use pbpctrl.Prelude.{ℕ, List, Bool, Option, Result}
use pbpctrl.Service.Settings.{ℤ}
use pbpctrl.Service.Settings.Value.{Floats, ValueOneof}

pub record FirmwareVersion : Type 0 where
  pub unknown : String
  pub version_string : String

pub record FirmwareInfo : Type 0 where
  pub case : Option FirmwareVersion
  pub right : Option FirmwareVersion
  pub left : Option FirmwareVersion

pub record SoftwareInfo : Type 0 where
  pub unknown2 : ℤ
  pub firmware : Option FirmwareInfo
  pub unknown5 : ℕ
  pub unknown6 : Bool

pub record SerialNumbers : Type 0 where
  pub case : String
  pub right : String
  pub left : String

pub record HardwareInfo : Type 0 where
  pub unknown1 : ℤ
  pub unknown2 : ℤ
  pub unknown5 : ℤ
  pub unknown6 : ℤ
  pub serial_number : Option SerialNumbers

pub record DeviceBatteryInfo : Type 0 where
  pub level : ℤ
  pub state : ℤ

pub record BatteryInfo : Type 0 where
  pub case : Option DeviceBatteryInfo
  pub left : Option DeviceBatteryInfo
  pub right : Option DeviceBatteryInfo

pub record PlacementInfo : Type 0 where
  pub right_bud_in_case : Bool
  pub left_bud_in_case : Bool

pub record RuntimeInfo : Type 0 where
  pub timestamp_ms : ℤ
  pub unknown3 : ℤ
  pub battery_info : Option BatteryInfo
  pub placement : Option PlacementInfo

pub data ReadOneof : Type 0 where
  settings_id : ℤ → ReadOneof

pub record ReadSettingMsg : Type 0 where
  pub value_oneof : Option ReadOneof

-- The message `SettingValue`.
pub record SettingValueMsg (F : Type 0) : Type 0 where
  pub value_oneof : Option (ValueOneof F)

pub data WriteOneof (F : Type 0) : Type 0 where
  setting : SettingValueMsg F → WriteOneof F

pub record WriteSettingMsg (F : Type 0) : Type 0 where
  pub value_oneof : Option (WriteOneof F)

pub data SettingsOneof (F : Type 0) : Type 0 where
  value : SettingValueMsg F → SettingsOneof F

pub record SettingsRsp (F : Type 0) : Type 0 where
  pub value_oneof : Option (SettingsOneof F)

-- The encoding of messages, which the library `prost` makes of the file. `B` is its error.
pub record Messages (f : Floats) (B : Type 0) : Type 1 where
  pub encode_read_setting : ReadSettingMsg → List ℕ
  pub encode_write_setting : WriteSettingMsg f.F → List ℕ
  pub decode_software_info : List ℕ → Result B SoftwareInfo
  pub decode_hardware_info : List ℕ → Result B HardwareInfo
  pub decode_settings_rsp : List ℕ → Result B (SettingsRsp f.F)
  pub decode_unit : List ℕ → Result B (Unit {0})
