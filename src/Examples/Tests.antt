-- ===== src/Examples/Tests.antt =====
-- libmaestro/examples: a subscription with one update, and a connection that is reset once.
use pbpctrl.Prelude.{ℕ, ◌≡◌, refl, List, [], ◌∷◌, Result, ok, err, some, none, true}
use pbpctrl.Pwrpc.Status.{Status}
use pbpctrl.Pwrpc.Client.{CallUpdate}
use pbpctrl.Pwrpc.Client.Logger.{logger}
use pbpctrl.Pwrpc.Handle.{call, cancel_and_wait, cancel, send_error, wait}
use pbpctrl.Pwrpc.Handle.Stream.{poll_next}
use pbpctrl.Pwrpc.Rpc.{server_stream_call}
use pbpctrl.Pwrpc.System.Connected.{mpsc}
use pbpctrl.Pwrpc.System.{System, new_system, queues}
use pbpctrl.Service.Settings.{pos}
use pbpctrl.Service.Messages.{RuntimeInfo}
use pbpctrl.Service.Maestro.{subscribe_to_runtime_info}
use pbpctrl.Examples.Battery.{get_battery, report}
use pbpctrl.Examples.Listen.{Ended, exec, listen, end_round, listen_loop}

abbrev start : System logger
start = new_system logger (record { log = λ t. []; shut = []; made = 0 })

abbrev info : RuntimeInfo
info = record { timestamp_ms = pos 5; unknown3 = pos 0; battery_info = none; placement = none }

abbrev one_info : List ℕ → Result ℕ RuntimeInfo
one_info payload = ok info

abbrev updates : List CallUpdate
updates =
    CallUpdate.stream_item (5 ∷ [])
    ∷ CallUpdate.stream_item (6 ∷ [])
    ∷ CallUpdate.error Status.cancelled
    ∷ []

got : (get_battery (queues logger mpsc) (λ l. l) one_info true 19 updates start).0 ≡ ok info
unfolding get_battery subscribe_to_runtime_info server_stream_call call poll_next cancel_and_wait
    cancel send_error wait
got = refl

-- Without levels the program panics.
no_levels : report (λ n. "n") info ≡ none
unfolding report
no_levels = refl

abbrev rounds : List (Ended ℕ)
rounds = exec (err 1) (some 104) ∷ listen (err 2) ∷ exec (ok tt) none ∷ []

stopped : listen_loop rounds ≡ some (err 2)
unfolding listen_loop end_round
stopped = refl
