-- ===== src/Gfps/Listen/Texts.antt =====
-- libgfps/examples/gfps_listen.rs: the names that are printed for event codes.
use Prim.Native.String.{String}
use pbpctrl.Prelude.{ℕ, Option, none, some, ◌==◌, if◌then◌else◌}
use pbpctrl.Gfps.Events.{
  BluetoothEventCode, LoggingEventCode, DeviceEventCode, DeviceActionEventCode,
  DeviceConfigurationEventCode, DeviceCapabilitySyncEventCode, SassEventCode,
}

unfoldable pub bluetooth_text : BluetoothEventCode → String
bluetooth_text BluetoothEventCode.enable_silence_mode = "Enable Silence Mode"
bluetooth_text BluetoothEventCode.disable_silence_mode = "Disable Silence Mode"
bluetooth_text (BluetoothEventCode.unknown _) = "Unknown"

unfoldable pub logging_text : LoggingEventCode → String
logging_text LoggingEventCode.log_full = "Log Full"
logging_text LoggingEventCode.log_save_to_buffer = "Log Save Buffer"
logging_text (LoggingEventCode.unknown _) = "Unknown"

unfoldable pub action_text : DeviceActionEventCode → String
action_text DeviceActionEventCode.ring = "Ring"
action_text (DeviceActionEventCode.unknown _) = "Unknown"

unfoldable pub configuration_text : DeviceConfigurationEventCode → String
configuration_text DeviceConfigurationEventCode.buffer_size = "Buffer Size"
configuration_text (DeviceConfigurationEventCode.unknown _) = "Unknown"

unfoldable pub capability_sync_text : DeviceCapabilitySyncEventCode → String
capability_sync_text DeviceCapabilitySyncEventCode.capability_update = "Capability Update"
capability_sync_text DeviceCapabilitySyncEventCode.configurable_buffer_size_range =
    "Configurable Buffer Size Range"
capability_sync_text (DeviceCapabilitySyncEventCode.unknown _) = "Unknown"

unfoldable pub sass_text : SassEventCode → String
sass_text SassEventCode.get_capability_of_sass = "Get Capability"
sass_text SassEventCode.notify_capability_of_sass = "Notify Capability"
sass_text SassEventCode.set_multi_point_state = "Set Multi-Point State"
sass_text SassEventCode.switch_audio_source_between_connected_devices =
    "Switch Audio Source Between Connected Devices"
sass_text SassEventCode.switch_back = "Switch Back"
sass_text SassEventCode.notify_multi_point_switch_event = "Notify Multi-Point"
sass_text SassEventCode.get_connection_status = "Get Connection Status"
sass_text SassEventCode.notify_connection_status = "Notify Connection Status"
sass_text SassEventCode.sass_initiated_connection = "SASS Initiated Connection"
sass_text SassEventCode.indicate_in_use_account_key = "Indicate In-Use Account Key"
sass_text SassEventCode.set_custom_data = "Set Custom Data"
sass_text (SassEventCode.unknown _) = "Unknown"

unfoldable pub device_text : DeviceEventCode → String
device_text DeviceEventCode.model_id = "Model Id"
device_text DeviceEventCode.ble_address = "BLE Address"
device_text DeviceEventCode.battery_info = "Battery Info"
device_text DeviceEventCode.battery_time = "Remaining Battery Time"
device_text DeviceEventCode.active_components_request = "Active Components Request"
device_text DeviceEventCode.active_components_response = "Active Components Response"
device_text DeviceEventCode.capability = "Capability"
device_text DeviceEventCode.platform_type = "Platform Type"
device_text DeviceEventCode.firmware_version = "Firmware Version"
device_text DeviceEventCode.section_nonce = "Session Nonce"
device_text (DeviceEventCode.unknown _) = "Unknown"

unfoldable pub reason_text : ℕ → Option String
reason_text n =
    if n == 0x00
    then some "Not supported (0x00)"
    else if n == 0x01
    then some "Device busy (0x01)"
    else if n == 0x02
    then some "Not allowed due to current state (0x02)"
    else none
