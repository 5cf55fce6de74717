-- ===== src/Gfps/Events.antt =====
-- libgfps/src/msg/types.rs: event groups and event codes. Each enum derives a conversion from a byte,
-- where the catch-all takes the bytes without a name, and one into a byte.
use pbpctrl.Prelude.{ℕ, ◌≡◌, refl, ◌==◌, if◌then◌else◌, all_below, eq_below, IsByte}

pub data EventGroup : Type 0 where
  bluetooth logging device device_action device_configuration device_capability_sync
        smart_audio_source_switching acknowledgement :
      EventGroup
  unknown : ℕ → EventGroup

unfoldable pub event_group_from : ℕ → EventGroup
event_group_from b =
    if b == 0x01
    then EventGroup.bluetooth
    else if b == 0x02
    then EventGroup.logging
    else if b == 0x03
    then EventGroup.device
    else if b == 0x04
    then EventGroup.device_action
    else if b == 0x05
    then EventGroup.device_configuration
    else if b == 0x06
    then EventGroup.device_capability_sync
    else if b == 0x07
    then EventGroup.smart_audio_source_switching
    else if b == 0xff
    then EventGroup.acknowledgement
    else EventGroup.unknown b

unfoldable pub event_group_into : EventGroup → ℕ
event_group_into EventGroup.bluetooth = 0x01
event_group_into EventGroup.logging = 0x02
event_group_into EventGroup.device = 0x03
event_group_into EventGroup.device_action = 0x04
event_group_into EventGroup.device_configuration = 0x05
event_group_into EventGroup.device_capability_sync = 0x06
event_group_into EventGroup.smart_audio_source_switching = 0x07
event_group_into EventGroup.acknowledgement = 0xff
event_group_into (EventGroup.unknown b) = b

pub data BluetoothEventCode : Type 0 where
  enable_silence_mode disable_silence_mode : BluetoothEventCode
  unknown : ℕ → BluetoothEventCode

unfoldable pub bluetooth_event_code_from : ℕ → BluetoothEventCode
bluetooth_event_code_from b =
    if b == 0x01
    then BluetoothEventCode.enable_silence_mode
    else if b == 0x02
    then BluetoothEventCode.disable_silence_mode
    else BluetoothEventCode.unknown b

unfoldable pub bluetooth_event_code_into : BluetoothEventCode → ℕ
bluetooth_event_code_into BluetoothEventCode.enable_silence_mode = 0x01
bluetooth_event_code_into BluetoothEventCode.disable_silence_mode = 0x02
bluetooth_event_code_into (BluetoothEventCode.unknown b) = b

pub data LoggingEventCode : Type 0 where
  log_full log_save_to_buffer : LoggingEventCode
  unknown : ℕ → LoggingEventCode

unfoldable pub logging_event_code_from : ℕ → LoggingEventCode
logging_event_code_from b =
    if b == 0x01
    then LoggingEventCode.log_full
    else if b == 0x02
    then LoggingEventCode.log_save_to_buffer
    else LoggingEventCode.unknown b

unfoldable pub logging_event_code_into : LoggingEventCode → ℕ
logging_event_code_into LoggingEventCode.log_full = 0x01
logging_event_code_into LoggingEventCode.log_save_to_buffer = 0x02
logging_event_code_into (LoggingEventCode.unknown b) = b

pub data DeviceEventCode : Type 0 where
  model_id ble_address battery_info battery_time active_components_request
        active_components_response capability platform_type firmware_version section_nonce :
      DeviceEventCode
  unknown : ℕ → DeviceEventCode

unfoldable pub device_event_code_from : ℕ → DeviceEventCode
device_event_code_from b =
    if b == 0x01
    then DeviceEventCode.model_id
    else if b == 0x02
    then DeviceEventCode.ble_address
    else if b == 0x03
    then DeviceEventCode.battery_info
    else if b == 0x04
    then DeviceEventCode.battery_time
    else if b == 0x05
    then DeviceEventCode.active_components_request
    else if b == 0x06
    then DeviceEventCode.active_components_response
    else if b == 0x07
    then DeviceEventCode.capability
    else if b == 0x08
    then DeviceEventCode.platform_type
    else if b == 0x09
    then DeviceEventCode.firmware_version
    else if b == 0x0a
    then DeviceEventCode.section_nonce
    else DeviceEventCode.unknown b

unfoldable pub device_event_code_into : DeviceEventCode → ℕ
device_event_code_into DeviceEventCode.model_id = 0x01
device_event_code_into DeviceEventCode.ble_address = 0x02
device_event_code_into DeviceEventCode.battery_info = 0x03
device_event_code_into DeviceEventCode.battery_time = 0x04
device_event_code_into DeviceEventCode.active_components_request = 0x05
device_event_code_into DeviceEventCode.active_components_response = 0x06
device_event_code_into DeviceEventCode.capability = 0x07
device_event_code_into DeviceEventCode.platform_type = 0x08
device_event_code_into DeviceEventCode.firmware_version = 0x09
device_event_code_into DeviceEventCode.section_nonce = 0x0a
device_event_code_into (DeviceEventCode.unknown b) = b

pub data DeviceActionEventCode : Type 0 where
  ring : DeviceActionEventCode
  unknown : ℕ → DeviceActionEventCode

unfoldable pub device_action_event_code_from : ℕ → DeviceActionEventCode
device_action_event_code_from b =
    if b == 0x01 then DeviceActionEventCode.ring else DeviceActionEventCode.unknown b

unfoldable pub device_action_event_code_into : DeviceActionEventCode → ℕ
device_action_event_code_into DeviceActionEventCode.ring = 0x01
device_action_event_code_into (DeviceActionEventCode.unknown b) = b

pub data DeviceConfigurationEventCode : Type 0 where
  buffer_size : DeviceConfigurationEventCode
  unknown : ℕ → DeviceConfigurationEventCode

unfoldable pub device_configuration_event_code_from : ℕ → DeviceConfigurationEventCode
device_configuration_event_code_from b =
    if b == 0x01
    then DeviceConfigurationEventCode.buffer_size
    else DeviceConfigurationEventCode.unknown b

unfoldable pub device_configuration_event_code_into : DeviceConfigurationEventCode → ℕ
device_configuration_event_code_into DeviceConfigurationEventCode.buffer_size = 0x01
device_configuration_event_code_into (DeviceConfigurationEventCode.unknown b) = b

pub data DeviceCapabilitySyncEventCode : Type 0 where
  capability_update configurable_buffer_size_range : DeviceCapabilitySyncEventCode
  unknown : ℕ → DeviceCapabilitySyncEventCode

unfoldable pub device_capability_sync_event_code_from : ℕ → DeviceCapabilitySyncEventCode
device_capability_sync_event_code_from b =
    if b == 0x01
    then DeviceCapabilitySyncEventCode.capability_update
    else if b == 0x02
    then DeviceCapabilitySyncEventCode.configurable_buffer_size_range
    else DeviceCapabilitySyncEventCode.unknown b

unfoldable pub device_capability_sync_event_code_into : DeviceCapabilitySyncEventCode → ℕ
device_capability_sync_event_code_into DeviceCapabilitySyncEventCode.capability_update = 0x01
device_capability_sync_event_code_into
      DeviceCapabilitySyncEventCode.configurable_buffer_size_range =
    0x02
device_capability_sync_event_code_into (DeviceCapabilitySyncEventCode.unknown b) = b

pub data SassEventCode : Type 0 where
  get_capability_of_sass notify_capability_of_sass set_multi_point_state
        switch_audio_source_between_connected_devices switch_back notify_multi_point_switch_event
        get_connection_status notify_connection_status sass_initiated_connection
        indicate_in_use_account_key set_custom_data :
      SassEventCode
  unknown : ℕ → SassEventCode

unfoldable pub sass_event_code_from : ℕ → SassEventCode
sass_event_code_from b =
    if b == 0x10
    then SassEventCode.get_capability_of_sass
    else if b == 0x11
    then SassEventCode.notify_capability_of_sass
    else if b == 0x12
    then SassEventCode.set_multi_point_state
    else if b == 0x30
    then SassEventCode.switch_audio_source_between_connected_devices
    else if b == 0x31
    then SassEventCode.switch_back
    else if b == 0x32
    then SassEventCode.notify_multi_point_switch_event
    else if b == 0x33
    then SassEventCode.get_connection_status
    else if b == 0x34
    then SassEventCode.notify_connection_status
    else if b == 0x40
    then SassEventCode.sass_initiated_connection
    else if b == 0x41
    then SassEventCode.indicate_in_use_account_key
    else if b == 0x42
    then SassEventCode.set_custom_data
    else SassEventCode.unknown b

unfoldable pub sass_event_code_into : SassEventCode → ℕ
sass_event_code_into SassEventCode.get_capability_of_sass = 0x10
sass_event_code_into SassEventCode.notify_capability_of_sass = 0x11
sass_event_code_into SassEventCode.set_multi_point_state = 0x12
sass_event_code_into SassEventCode.switch_audio_source_between_connected_devices = 0x30
sass_event_code_into SassEventCode.switch_back = 0x31
sass_event_code_into SassEventCode.notify_multi_point_switch_event = 0x32
sass_event_code_into SassEventCode.get_connection_status = 0x33
sass_event_code_into SassEventCode.notify_connection_status = 0x34
sass_event_code_into SassEventCode.sass_initiated_connection = 0x40
sass_event_code_into SassEventCode.indicate_in_use_account_key = 0x41
sass_event_code_into SassEventCode.set_custom_data = 0x42
sass_event_code_into (SassEventCode.unknown b) = b

pub data AcknowledgementEventCode : Type 0 where
  ack nak : AcknowledgementEventCode
  unknown : ℕ → AcknowledgementEventCode

unfoldable pub acknowledgement_event_code_from : ℕ → AcknowledgementEventCode
acknowledgement_event_code_from b =
    if b == 0x01
    then AcknowledgementEventCode.ack
    else if b == 0x02
    then AcknowledgementEventCode.nak
    else AcknowledgementEventCode.unknown b

unfoldable pub acknowledgement_event_code_into : AcknowledgementEventCode → ℕ
acknowledgement_event_code_into AcknowledgementEventCode.ack = 0x01
acknowledgement_event_code_into AcknowledgementEventCode.nak = 0x02
acknowledgement_event_code_into (AcknowledgementEventCode.unknown b) = b

pub data PlatformType : Type 0 where
  android : PlatformType
  unknown : ℕ → PlatformType

unfoldable pub platform_type_from : ℕ → PlatformType
platform_type_from b = if b == 0x01 then PlatformType.android else PlatformType.unknown b

unfoldable pub platform_type_into : PlatformType → ℕ
platform_type_into PlatformType.android = 0x01
platform_type_into (PlatformType.unknown b) = b

-- Each of the ten enums keeps every byte: what is read as an event is written as the same byte.
pub events_keep_bytes :
    (b : ℕ)
    → IsByte b
    → (event_group_into (event_group_from b) ≡ b)
      × (bluetooth_event_code_into (bluetooth_event_code_from b) ≡ b)
      × (logging_event_code_into (logging_event_code_from b) ≡ b)
      × (device_event_code_into (device_event_code_from b) ≡ b)
      × (device_action_event_code_into (device_action_event_code_from b) ≡ b)
      × (device_configuration_event_code_into (device_configuration_event_code_from b) ≡ b)
      × (device_capability_sync_event_code_into (device_capability_sync_event_code_from b) ≡ b)
      × (sass_event_code_into (sass_event_code_from b) ≡ b)
      × (acknowledgement_event_code_into (acknowledgement_event_code_from b) ≡ b)
      × (platform_type_into (platform_type_from b) ≡ b)
unfolding all_below event_group_into event_group_from bluetooth_event_code_into
    bluetooth_event_code_from logging_event_code_into logging_event_code_from device_event_code_into
    device_event_code_from device_action_event_code_into device_action_event_code_from
    device_configuration_event_code_into device_configuration_event_code_from
    device_capability_sync_event_code_into device_capability_sync_event_code_from
    sass_event_code_into sass_event_code_from acknowledgement_event_code_into
    acknowledgement_event_code_from platform_type_into platform_type_from
events_keep_bytes b h = (
  eq_below 256 (λ x. event_group_into (event_group_from x)) (λ x. x) refl b h,
  eq_below 256 (λ x. bluetooth_event_code_into (bluetooth_event_code_from x)) (λ x. x) refl b h,
  eq_below 256 (λ x. logging_event_code_into (logging_event_code_from x)) (λ x. x) refl b h,
  eq_below 256 (λ x. device_event_code_into (device_event_code_from x)) (λ x. x) refl b h,
  eq_below 256 (λ x. device_action_event_code_into (device_action_event_code_from x)) (λ x. x) refl
      b h,
  eq_below 256 (λ x. device_configuration_event_code_into (device_configuration_event_code_from x))
      (λ x. x) refl b h,
  eq_below 256
      (λ x. device_capability_sync_event_code_into (device_capability_sync_event_code_from x))
      (λ x. x) refl b h,
  eq_below 256 (λ x. sass_event_code_into (sass_event_code_from x)) (λ x. x) refl b h,
  eq_below 256 (λ x. acknowledgement_event_code_into (acknowledgement_event_code_from x)) (λ x. x)
      refl b h,
  eq_below 256 (λ x. platform_type_into (platform_type_from x)) (λ x. x) refl b h,
)
