-- ===== src/Pwrpc/Client/Run.antt =====
-- libmaestro/src/pwrpc/client.rs: `Client::run`. What the transport and the request queue deliver to
-- `select!` is a list of events, in the order in which the loop takes them.
pub mod Rule
use pbpctrl.Prelude.{List, [], ◌∷◌, Option, none, some, Result, ok, err}
use pbpctrl.Pwrpc.Types.{RpcPacket}
use pbpctrl.Pwrpc.Client.{CallRequest, Io, Client, Done, process_packet, process_request}

-- An item of the transport, its end, or a request.
pub data Event (io : Io) : Type 0 where
  packet : Result io.Failure RpcPacket → Event io
  closed : Event io
  request : CallRequest io.Sender → Event io

-- `stream_closed` is the error that reports the transport's end.
module _ (io : Io) (stream_closed : io.Failure) where
  unfoldable pub handle_event : Event io → Client io → Done io.Failure × Client io
  handle_event (packet (ok p)) client = process_packet io p client
  handle_event (packet (err e)) client = (err e, client)
  handle_event closed client = (err stream_closed, client)
  handle_event (request r) client = process_request io r client

  -- `none` while the loop goes on, and the error that ended it.
  abbrev pub next_round :
      Done io.Failure × Client io
      → (Client io → Option io.Failure × Client io)
      → Option io.Failure × Client io
  next_round (ok u, client) rest = rest client
  next_round (err e, client) rest = (some e, client)

  unfoldable pub run_events : List (Event io) → Client io → Option io.Failure × Client io
  run_events [] client = (none, client)
  run_events (e ∷ events) client = next_round (handle_event e client) (run_events events)

  -- The requests that wait when the client starts to run.
  unfoldable pub run_queue :
      List (CallRequest io.Sender)
      → Client io
      → (Client io → Option io.Failure × Client io)
      → Option io.Failure × Client io
  run_queue [] client rest = rest client
  run_queue (r ∷ queue) client rest =
      next_round (process_request io r client) (λ client'. run_queue queue client' rest)

  unfoldable pub run : List (Event io) → Client io → Option io.Failure × Client io
  run events client = run_queue client.queue (record client { queue = [] }) (run_events events)
