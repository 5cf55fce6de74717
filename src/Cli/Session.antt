-- ===== src/Cli/Session.antt =====
-- cli/src/main.rs: the tasks of the commands, and `run`, which drives the client beside a task.
-- `updates` is what the channel of the task's call will deliver; lines are returned, not printed.
pub mod Outcome
use Prim.Native.String.{String}
use pbpctrl.Prelude.{ℕ, List, [], ◌∷◌, Option, none, some, Result, ok, err, Option-cases, inl, inr}
use pbpctrl.Pwrpc.Status as Codes
use pbpctrl.Pwrpc.Client.{CallUpdate, Io, Client, Done}
use pbpctrl.Pwrpc.Client.Run.{Event}
use pbpctrl.Pwrpc.Client.Run as Driver
use pbpctrl.Pwrpc.Client.Terminate.{terminate}
use pbpctrl.Pwrpc.Handle.{Queues, CallHandle, drop_handle}
use pbpctrl.Pwrpc.Handle.Stream.{Polled, poll_next}
use pbpctrl.Pwrpc.Rpc.{Started, Answer}
use pbpctrl.Protocol.Addr.{Peer}
use pbpctrl.Service.Settings.{ℤ}
use pbpctrl.Service.Settings.Value.{Floats, SettingValue}
use pbpctrl.Service.Settings.Keys.{SettingKey, SettingType}
use pbpctrl.Service.Messages.{RuntimeInfo, Messages}
use pbpctrl.Service.Maestro.{
  new_maestro, get_software_info, get_hardware_info, subscribe_to_runtime_info, read_setting,
  write_setting,
}
use pbpctrl.Cli.Report.{show_software, show_hardware, show_runtime, show_battery}

-- `anyhow::Error`: an error of the RPC client, or a message.
pub data Failure (B : Type 0) : Type 0 where
  rpc : Codes.Error B → Failure B
  message : String → Failure B

-- What a task returns. The outer `none` is a panic.
abbrev pub Task : Queues → Type 0 → Type 0 → Type 0
Task q B M = Option (Result (Failure B) M) × q.World

abbrev pub map_result : {B M N : Type 0} → (M → N) → Result (Codes.Error B) M → Result (Failure B) N
map_result f (ok m) = ok (f m)
map_result f (err e) = err (rpc e)

abbrev pub on_answer :
    {B M N : Type 0} → (M → N) → Option (Result (Codes.Error B) M) → Option (Result (Failure B) N)
on_answer f none = none
on_answer f (some r) = some (map_result f r)

module _ (q : Queues) {B : Type 0} (f : Floats) (messages : Messages f B) (handle : q.QueueTx)
    (channel : ℕ) where
  unfoldable pub cmd_show_software : List CallUpdate → q.World → Task q B (List String)
  cmd_show_software updates w =
      let (r, w') = get_software_info q f messages (new_maestro q handle channel) updates w in
      (on_answer show_software r, w')

  unfoldable pub cmd_show_hardware : List CallUpdate → q.World → Task q B (List String)
  cmd_show_hardware updates w =
      let (r, w') = get_hardware_info q f messages (new_maestro q handle channel) updates w in
      (on_answer show_hardware r, w')

  -- `cmd_get_setting`, up to the printing of the value.
  unfoldable pub cmd_get_setting :
      (key : SettingKey) → List CallUpdate → q.World → Task q B (SettingType f.F key)
  cmd_get_setting key updates w =
      let (r, w') = read_setting q f messages (new_maestro q handle channel) key updates w in
      (on_answer (λ value. value) r, w')

  unfoldable pub cmd_set_setting :
      SettingValue f.F → List CallUpdate → q.World → Task q B (Unit {0})
  cmd_set_setting setting updates w =
      let (r, w') = write_setting q f messages (new_maestro q handle channel) setting updates w in
      (on_answer (λ value. value) r, w')

  module _ (close_receiver : List CallUpdate → List CallUpdate)
      (decode_runtime : List ℕ → Result B RuntimeInfo) where
    abbrev pub first_item :
        Option (Result (Codes.Error B) RuntimeInfo) → Result (Failure B) RuntimeInfo
    first_item none = err (message "stream terminated without item")
    first_item (some r) = map_result (λ info. info) r

    -- The first item of the stream, whose response is dropped behind the task.
    unfoldable pub next_runtime : Started q B → Result (Failure B) RuntimeInfo × q.World
    next_runtime (err e, w) = (err (rpc e), w)
    next_runtime (ok h, w) =
        let (r, h', w') = poll_next q close_receiver decode_runtime h w in
        (first_item r, drop_handle q h' w')

    abbrev pub print :
        (RuntimeInfo → List String)
        → Result (Failure B) RuntimeInfo
        → Result (Failure B) (List String)
    print show (ok info) = ok (show info)
    print show (err e) = err e

    unfoldable pub cmd_show_runtime :
        (ℤ → String) → (Peer → String) → List CallUpdate → q.World → Task q B (List String)
    cmd_show_runtime int peer_name updates w =
        let (r, w') =
          next_runtime (subscribe_to_runtime_info q (new_maestro q handle channel) updates w) in
        (some (print (show_runtime int peer_name channel) r), w')

    unfoldable pub cmd_show_battery :
        (ℤ → String) → List CallUpdate → q.World → Task q B (List String)
    cmd_show_battery int updates w =
        let (r, w') =
          next_runtime (subscribe_to_runtime_info q (new_maestro q handle channel) updates w) in
        (some (print (show_battery int) r), w')

-- Errors of the task and of the client are of one type here, which stands for `anyhow::Error`.
-- What ends `run` while the client runs: the task's result, or that of waiting for a signal.
pub data Ended (E : Type 0) : Type 0 where
  task : Done E → Ended E
  signal : Done E → Ended E

module _ (io : Io) (stream_closed : io.Failure) where
  abbrev pub terminate_if : Done io.Failure → Client io → Done io.Failure × Client io
  terminate_if (ok u) client = terminate io client
  terminate_if (err e) client = (err e, client)

  abbrev pub finish : Ended io.Failure → Client io → Done io.Failure × Client io
  finish (task r) client = terminate_if r client
  finish (signal r) client = terminate_if r client

  abbrev pub end_run :
      Ended io.Failure → Option io.Failure × Client io → Done io.Failure × Client io
  end_run ended (none, client) = finish ended client
  end_run ended (some e, client) = (err e, client)

  -- `events` is what the client handles before the task or the signal ends the wait. The client's
  -- loop ends with an error only.
  unfoldable pub run : Ended io.Failure → List (Event io) → Client io → Done io.Failure × Client io
  run ended events client = end_run ended (Driver.run io stream_closed events client)
