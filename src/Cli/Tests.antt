-- ===== src/Cli/Tests.antt =====
-- cli/src: the theorems at concrete commands, with bands in half steps above -6.0.
use Prim.Native.String.{String}
use pbpctrl.Prelude.{
  ℕ, ◌+◌, ◌≡◌, refl, List, [], ◌∷◌, length, Bool, true, false, ltb, if◌then◌else◌, none, some,
  Result, ok, err, arith,
}
use pbpctrl.Pwrpc.Types.{RpcType}
use pbpctrl.Pwrpc.Status.{Status}
use pbpctrl.Pwrpc.Client.{
  CallUpdate, CallRequest, Io, Client, process_request, drop_call, send_client_error,
}
use pbpctrl.Pwrpc.Client.Run.{Event, request, run_events, run_queue, handle_event}
use pbpctrl.Pwrpc.Client.Run as Driver
use pbpctrl.Pwrpc.Client.Terminate.{
  terminate, terminate_local, do_send, do_close, abort_requests, cancel_calls, drop_calls,
}
use pbpctrl.Pwrpc.Handle.{Queues}
use pbpctrl.Protocol.Addr.{Peer, channel_id}
use pbpctrl.Service.Settings.{ℤ, pos, negsuc}
use pbpctrl.Service.Settings.Value.{
  Floats, SettingValue, ValueOneof, new_bands, value_into, eq_bands_into,
}
use pbpctrl.Service.Messages.{RuntimeInfo, SettingsRsp, Messages}
use pbpctrl.Service.Maestro.{write_setting_msg}
use pbpctrl.Service.Maestro.Reading.{answer, echo}
use pbpctrl.Cli.Args.{SetSetting, check_eq}
use pbpctrl.Cli.Command.{get_key, set_value}
use pbpctrl.Cli.Command.SetGet.{counterpart, requested, IsAccepted}
use pbpctrl.Cli.Session.{signal, run, cmd_get_setting}
use pbpctrl.Cli.Session.Outcome.{run-IsEmpty, cmd_get_setting-set_value}

abbrev sign : ℤ → String
sign (pos n) = "+"
sign (negsuc n) = "-"

abbrev peer_name : Peer → String
peer_name Peer.maestro_a = "MaestroA"
peer_name Peer.left_bt_core = "LeftBtCore"
peer_name _ = "other"

abbrev no_info : RuntimeInfo
no_info = record { timestamp_ms = pos 7; unknown3 = pos 0; battery_info = none; placement = none }

on_channel : channel_id Peer.maestro_a Peer.left_bt_core ≡ some 19
unfolding channel_id
on_channel = refl

-- Counts the updates and packets.
abbrev counting : Io
counting = record {
  World = ℕ;
  Sender = ℕ;
  Failure = ℕ;
  unbounded_send = λ s u w. w + 1;
  close_channel = λ s w. w;
  is_closed = λ s w. true;
  send = λ p w. (ok tt, w + 1);
  close = λ w. (ok tt, w);
}

abbrev new_call : ℕ → CallRequest ℕ
new_call n =
    CallRequest.new RpcType.unary (record { channel = 19; service = 5; method = 6; call = n }) [] n
      true

abbrev client : Client counting
client = record { pending = []; queue = new_call 1 ∷ []; world = 0 }

ends_well : (run counting 9 (signal (ok tt)) (request (new_call 2) ∷ []) client).0 ≡ ok tt
unfolding run Driver.run run_queue run_events handle_event process_request terminate terminate_local
    do_send do_close abort_requests cancel_calls drop_calls drop_call send_client_error
ends_well = refl

run-IsEmpty_example :
    ((run counting 9 (signal (ok tt)) (request (new_call 2) ∷ []) client).1.pending ≡ [])
    × ((run counting 9 (signal (ok tt)) (request (new_call 2) ∷ []) client).1.queue ≡ [])
run-IsEmpty_example =
    run-IsEmpty counting 9 (signal (ok tt)) (request (new_call 2) ∷ []) client ends_well

abbrev half_steps : Floats
half_steps = record {
  F = ℕ;
  zero_band = 12;
  clamp = λ x. if ltb 24 x then 24 else x;
  above_max = λ x. ltb 24 x;
  below_min = λ x. false;
}

within :
    (x : ℕ)
    → half_steps.above_max x ≡ false
    → half_steps.below_min x ≡ false
    → half_steps.clamp x ≡ x
within x above below = ground (arith, above)

abbrev decode_answer : List ℕ → Result ℕ (SettingsRsp ℕ)
decode_answer (a ∷ b ∷ c ∷ d ∷ e ∷ []) = ok (
    answer (
      ValueOneof.current_user_eq
        (record { low_bass = a; bass = b; mid = c; treble = d; upper_treble = e })))
decode_answer _ = err 1

abbrev device : Messages half_steps ℕ
device = record {
  encode_read_setting = λ m. 1 ∷ [];
  encode_write_setting = λ m. 2 ∷ [];
  decode_software_info = λ bs. err 1;
  decode_hardware_info = λ bs. err 1;
  decode_settings_rsp = decode_answer;
  decode_unit = λ bs. ok tt;
}

abbrev open_queue : Queues
open_queue = record {
  World = List (CallRequest ℕ);
  Sender = ℕ;
  QueueTx = Bool;
  unbounded = λ w. (length w, w);
  unbounded_send = λ t r w. if t then (true, r ∷ w) else (false, w);
  is_closed = λ t w. if t then false else true;
  disconnect = λ t. false;
}

abbrev command : SetSetting ℕ
command = SetSetting.eq 0 6 12 18 24

abbrev value : SettingValue ℕ
value =
    SettingValue.current_user_eq
      (record { low_bass = 0; bass = 6; mid = 12; treble = 18; upper_treble = 24 })

command-IsAccepted : IsAccepted half_steps command
unfolding check_eq
command-IsAccepted = (refl, refl, refl, refl, refl)

command_value : set_value half_steps command ≡ some value
unfolding set_value new_bands
command_value = refl

echoed : decode_answer (0 ∷ 6 ∷ 12 ∷ 18 ∷ 24 ∷ []) ≡ ok (echo (write_setting_msg half_steps value))
unfolding value_into eq_bands_into
echoed = refl

cmd_get_setting-set_value_example :
    (cmd_get_setting open_queue half_steps device true 19
      (get_key (counterpart command))
      (CallUpdate.complete (0 ∷ 6 ∷ 12 ∷ 18 ∷ 24 ∷ []) Status.ok ∷ [])
      []).0
    ≡ some (ok (requested half_steps command))
cmd_get_setting-set_value_example =
    cmd_get_setting-set_value open_queue half_steps device true 19 within command value
      (0 ∷ 6 ∷ 12 ∷ 18 ∷ 24 ∷ []) [] [] command-IsAccepted command_value (λ r w. refl) echoed
