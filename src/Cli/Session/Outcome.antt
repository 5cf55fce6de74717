-- ===== src/Cli/Session/Outcome.antt =====
-- cli/src/main.rs: what a session comes to.
use pbpctrl.Prelude.{ℕ, ◌≡◌, ap, ◌∙◌, List, [], ◌∷◌, Option, none, some, ok, err, false, arith}
use pbpctrl.Pwrpc.Status.{Status}
use pbpctrl.Pwrpc.Client.{CallUpdate, Io, Client}
use pbpctrl.Pwrpc.Client.Run.{Event}
use pbpctrl.Pwrpc.Client.Run as Driver
use pbpctrl.Pwrpc.Client.Terminate.{terminate_clears}
use pbpctrl.Pwrpc.Handle.{Queues}
use pbpctrl.Service.Settings.Value.{Floats, SettingValue}
use pbpctrl.Service.Messages.{Messages}
use pbpctrl.Service.Maestro.{write_setting_msg, new_maestro}
use pbpctrl.Service.Maestro.Reading.{IsOpen, echo, read_setting-write_setting_msg}
use pbpctrl.Cli.Args.{SetSetting}
use pbpctrl.Cli.Command.{get_key, set_value}
use pbpctrl.Cli.Command.SetGet.{counterpart, requested, IsAccepted, sent, sendable}
use pbpctrl.Cli.Session.{Ended, task, signal, end_run, run, on_answer, cmd_get_setting}

module _ (io : Io) (stream_closed : io.Failure) where
  abbrev IsEmpty : Client io → Type 0
  IsEmpty client = (client.pending ≡ []) × (client.queue ≡ [])

  end_run-IsEmpty :
      (ended : Ended io.Failure) (driven : Option io.Failure × Client io)
      → (end_run io stream_closed ended driven).0 ≡ ok tt
      → IsEmpty (end_run io stream_closed ended driven).1
  end_run-IsEmpty (task (ok u)) (none, client) h = terminate_clears io client
  end_run-IsEmpty (task (err e)) (none, client) h = absurd (ground (arith, h))
  end_run-IsEmpty (signal (ok u)) (none, client) h = terminate_clears io client
  end_run-IsEmpty (signal (err e)) (none, client) h = absurd (ground (arith, h))
  end_run-IsEmpty ended (some e, client) h = absurd (ground (arith, h))

  -- A session that ends well leaves no call pending and no request waiting, whatever the device and
  -- the callers did before.
  pub run-IsEmpty :
      (ended : Ended io.Failure) (events : List (Event io)) (client : Client io)
      → (run io stream_closed ended events client).0 ≡ ok tt
      → ((run io stream_closed ended events client).1.pending ≡ [])
        × ((run io stream_closed ended events client).1.queue ≡ [])
  unfolding run
  run-IsEmpty ended events client h =
      end_run-IsEmpty ended (Driver.run io stream_closed events client) h

module _ (q : Queues) {B : Type 0} (f : Floats) (messages : Messages f B) (handle : q.QueueTx)
    (channel : ℕ) where
  -- What `set` sends, if the parsers accept its values, its counterpart `get` returns as the value
  -- that the command asked for, where the request queue is open and the device answers with what the
  -- message of `set` holds. Clamping is taken to leave a band that passes both range tests as it is.
  pub cmd_get_setting-set_value :
      ((x : f.F) → f.above_max x ≡ false → f.below_min x ≡ false → f.clamp x ≡ x)
      → (cmd : SetSetting f.F) (v : SettingValue f.F) (payload : List ℕ) (more : List CallUpdate)
        (w : q.World)
      → IsAccepted f cmd
      → set_value f cmd ≡ some v
      → IsOpen q handle
      → messages.decode_settings_rsp payload ≡ ok (echo (write_setting_msg f v))
      → (cmd_get_setting q f messages handle channel
          (get_key (counterpart cmd))
          (CallUpdate.complete payload Status.ok ∷ more)
          w).0
        ≡ some (ok (requested f cmd))
  unfolding cmd_get_setting
  cmd_get_setting-set_value within cmd v payload more w accepted e is_open answered =
      let shape = sent f within cmd v accepted e in
      let read =
        read_setting-write_setting_msg q f messages (new_maestro q handle channel)
          (get_key (counterpart cmd)) (requested f cmd) payload more w
          (sendable f within cmd accepted) is_open
          (answered ∙ ap (λ x. ok (echo (write_setting_msg f x))) shape) in
      ap (on_answer (λ value. value)) read
