-- ===== src/Service/Maestro.antt =====
-- libmaestro/src/service/impls: MaestroService and MultipointService, over the calls of the RPC
-- client. `updates` is what the channel of the call will deliver.
pub mod Reading
use pbpctrl.Prelude.{ℕ, List, [], ◌∷◌, Option, none, some, Result, ok, err}
use pbpctrl.Pwrpc.Status.{Status}
use pbpctrl.Pwrpc.Status as Codes
use pbpctrl.Pwrpc.Client.{CallUpdate}
use pbpctrl.Pwrpc.Handle.{Queues, CallHandle}
use pbpctrl.Pwrpc.Rpc.{
  UnaryRpc, ServerStreamRpc, new_unary, new_server_stream, codes, Started, Answer, unary_call,
  server_stream_call, await_result,
}
use pbpctrl.Service.Settings.Value.{
  Floats, SettingId, setting_id_into, SettingValue, ValueOneof, value_from, value_into,
}
use pbpctrl.Service.Settings.Keys.{SettingKey, SettingType, key_id, from_var}
use pbpctrl.Service.Messages.{
  SoftwareInfo, HardwareInfo, ReadOneof, ReadSettingMsg, SettingValueMsg, WriteOneof,
  WriteSettingMsg, SettingsOneof, SettingsRsp, Messages,
}

pub record MaestroService (q : Queues) : Type 0 where
  pub client : q.QueueTx
  pub channel_id : ℕ
  pub rpc_get_software_info : UnaryRpc
  pub rpc_get_hardware_info : UnaryRpc
  pub rpc_sub_runtime_info : ServerStreamRpc
  pub rpc_write_setting : UnaryRpc
  pub rpc_read_setting : UnaryRpc
  pub rpc_sub_settings_changes : ServerStreamRpc
  pub rpc_sub_oobe_actions : ServerStreamRpc

pub record MultipointService (q : Queues) : Type 0 where
  pub client : q.QueueTx
  pub channel_id : ℕ
  pub rpc_sub_quiet_mode_status : ServerStreamRpc

abbrev pub new_maestro : (q : Queues) → q.QueueTx → ℕ → MaestroService q
new_maestro q client channel_id = record {
  client = client;
  channel_id = channel_id;
  rpc_get_software_info = new_unary (codes "maestro_pw.Maestro/GetSoftwareInfo");
  rpc_get_hardware_info = new_unary (codes "maestro_pw.Maestro/GetHardwareInfo");
  rpc_sub_runtime_info = new_server_stream (codes "maestro_pw.Maestro/SubscribeRuntimeInfo");
  rpc_write_setting = new_unary (codes "maestro_pw.Maestro/WriteSetting");
  rpc_read_setting = new_unary (codes "maestro_pw.Maestro/ReadSetting");
  rpc_sub_settings_changes =
      new_server_stream (codes "maestro_pw.Maestro/SubscribeToSettingsChanges");
  rpc_sub_oobe_actions = new_server_stream (codes "maestro_pw.Maestro/SubscribeToOobeActions");
}

abbrev pub new_multipoint : (q : Queues) → q.QueueTx → ℕ → MultipointService q
new_multipoint q client channel_id = record {
  client = client;
  channel_id = channel_id;
  rpc_sub_quiet_mode_status =
      new_server_stream (codes "maestro_pw.Multipoint/SubscribeToQuietModeStatus");
}

-- The message that asks for a setting, and the one that sets it.
abbrev pub read_setting_msg : SettingId → ReadSettingMsg
read_setting_msg id = record { value_oneof = some (ReadOneof.settings_id (setting_id_into id)) }

abbrev pub write_setting_msg : (f : Floats) → SettingValue f.F → WriteSettingMsg f.F
write_setting_msg f setting = record {
  value_oneof = some (WriteOneof.setting (record { value_oneof = some (value_into f setting) }));
}

-- `?` on an answer: `rest` is what the caller does with an answer that is no error.
abbrev pub and_then :
    {W B M N : Type 0}
    → Option (Result (Codes.Error B) M) × W
    → (M → Result (Codes.Error B) N)
    → Option (Result (Codes.Error B) N) × W
and_then (none, w) rest = (none, w)
and_then (some (err e), w) rest = (some (err e), w)
and_then (some (ok message), w) rest = (some (rest message), w)

module _ {B : Type 0} where
  -- `ok_or_else(|| Error::invalid_argument(message))`.
  abbrev pub no_value : {M : Type 0} → Result (Codes.Error B) M
  no_value = err (Codes.new Status.invalid_argument "did not receive any settings value")

  abbrev pub value_of_oneof :
      {F : Type 0} → Option (ValueOneof F) → Result (Codes.Error B) (SettingValue F)
  value_of_oneof none = no_value
  value_of_oneof (some v) = ok (value_from v)

  abbrev pub value_of_settings :
      {F : Type 0} → Option (SettingsOneof F) → Result (Codes.Error B) (SettingValue F)
  value_of_settings none = no_value
  value_of_settings (some (SettingsOneof.value m)) = value_of_oneof m.value_oneof

  abbrev pub or_undecodable : {M : Type 0} → Option M → Result (Codes.Error B) M
  or_undecodable none = err (Codes.new Status.invalid_argument "failed to decode settings value")
  or_undecodable (some v) = ok v

module _ (q : Queues) {B : Type 0} where
  unfoldable pub subscribe_to_runtime_info :
      MaestroService q → List CallUpdate → q.World → Started q B
  subscribe_to_runtime_info s updates w =
      server_stream_call q s.rpc_sub_runtime_info s.client s.channel_id 0 [] updates w

  unfoldable pub subscribe_to_settings_changes :
      MaestroService q → List CallUpdate → q.World → Started q B
  subscribe_to_settings_changes s updates w =
      server_stream_call q s.rpc_sub_settings_changes s.client s.channel_id 0 [] updates w

  unfoldable pub subscribe_to_oobe_actions :
      MaestroService q → List CallUpdate → q.World → Started q B
  subscribe_to_oobe_actions s updates w =
      server_stream_call q s.rpc_sub_oobe_actions s.client s.channel_id 0 [] updates w

  unfoldable pub subscribe_to_quiet_mode_status :
      MultipointService q → List CallUpdate → q.World → Started q B
  subscribe_to_quiet_mode_status s updates w =
      server_stream_call q s.rpc_sub_quiet_mode_status s.client s.channel_id 0 [] updates w

  module _ (f : Floats) (messages : Messages f B) where
    unfoldable pub get_software_info :
        MaestroService q → List CallUpdate → q.World → Answer q B SoftwareInfo
    get_software_info s updates w =
        await_result q messages.decode_software_info
          (unary_call q s.rpc_get_software_info s.client s.channel_id 0 [] updates w)

    unfoldable pub get_hardware_info :
        MaestroService q → List CallUpdate → q.World → Answer q B HardwareInfo
    get_hardware_info s updates w =
        await_result q messages.decode_hardware_info
          (unary_call q s.rpc_get_hardware_info s.client s.channel_id 0 [] updates w)

    unfoldable pub write_setting_raw :
        MaestroService q → WriteSettingMsg f.F → List CallUpdate → q.World → Answer q B (Unit {0})
    write_setting_raw s setting updates w = await_result q messages.decode_unit (
        unary_call q s.rpc_write_setting s.client s.channel_id 0
          (messages.encode_write_setting setting) updates w)

    unfoldable pub write_setting :
        MaestroService q → SettingValue f.F → List CallUpdate → q.World → Answer q B (Unit {0})
    write_setting s setting updates w = write_setting_raw s (write_setting_msg f setting) updates w

    unfoldable pub read_setting_raw :
        MaestroService q → ReadSettingMsg → List CallUpdate → q.World → Answer q B (SettingsRsp f.F)
    read_setting_raw s setting updates w = await_result q messages.decode_settings_rsp (
        unary_call q s.rpc_read_setting s.client s.channel_id 0
          (messages.encode_read_setting setting) updates w)

    unfoldable pub read_setting_var :
        MaestroService q → SettingId → List CallUpdate → q.World → Answer q B (SettingValue f.F)
    read_setting_var s id updates w =
        and_then (read_setting_raw s (read_setting_msg id) updates w)
          (λ rsp. value_of_settings rsp.value_oneof)

    unfoldable pub read_setting :
        MaestroService q
        → (key : SettingKey) → List CallUpdate
        → q.World
        → Answer q B (SettingType f.F key)
    read_setting s key updates w =
        and_then (read_setting_var s (key_id key) updates w)
          (λ value. or_undecodable (from_var key value))
