-- ===== src/Pwrpc/Client/Terminate/Rule.antt =====
-- libmaestro/src/pwrpc/client.rs: what each of the client's steps on a caller's channel keeps, its end
-- keeps as well.
use pbpctrl.Prelude.{List, [], ◌∷◌, ok, err, Option-cases, inl, inr}
use pbpctrl.Pwrpc.Status.{Status}
use pbpctrl.Pwrpc.Client.{
  CallRequest, Call, Io, Client, Done, find_and_remove_call, client_error, send_client_error,
  on_world,
}
use pbpctrl.Pwrpc.Client.Run.Rule.{IsStable, drops}
use pbpctrl.Pwrpc.Client.Terminate.{
  Sends, abort_request, abort_requests, cancel_calls, drop_calls, and_then, do_send, do_close,
  terminate_local, terminate,
}

module _ (io : Io) (P : io.World → Type 0) (stable : IsStable io P) where
  -- A new call that is aborted is told what a pending one would be.
  abort_request-keeps :
      (r : CallRequest io.Sender) (client : Client io)
      → P client.world
      → P (abort_request io r client).0.world
  unfolding abort_request
  abort_request-keeps (CallRequest.new type uid payload sender tx) client h =
      stable.fails (record { type = type; uid = uid; sender = sender }) Status.aborted _ h
  abort_request-keeps (CallRequest.error uid code tx) client h =
      elim (Option-cases (find_and_remove_call uid client.pending)) [
        | inl e ↦ rw (abort_request, e) h
        | inr (r, e) ↦ rw (abort_request, e) (drops io P stable r.0 _ (stable.fails r.0 code _ h))
      ]

  abort_requests-keeps :
      (queue : List (CallRequest io.Sender)) (client : Client io)
      → P client.world
      → P (abort_requests io queue client).0.world
  unfolding abort_requests
  abort_requests-keeps [] client h = h
  abort_requests-keeps (r ∷ queue) client h =
      abort_requests-keeps queue (abort_request io r client).0 (abort_request-keeps r client h)

  cancel_calls-keeps :
      (pending : List (Call io.Sender)) (w : io.World) → P w → P (cancel_calls io pending w)
  unfolding cancel_calls
  cancel_calls-keeps [] w h = h
  cancel_calls-keeps (c ∷ pending) w h =
      cancel_calls-keeps pending _ (stable.fails c Status.aborted w h)

  pub drop_calls-keeps :
      (pending : List (Call io.Sender)) (w : io.World) → P w → P (drop_calls io pending w)
  unfolding drop_calls
  drop_calls-keeps [] w h = h
  drop_calls-keeps (c ∷ pending) w h = drop_calls-keeps pending _ (drops io P stable c w h)

  and_then-keeps :
      (client : Client io) (sent : Done io.Failure × io.World)
      (rest : Client io → Done io.Failure × Client io)
      → P sent.1
      → ((c : Client io) → P c.world → P (rest c).1.world)
      → P (and_then io (on_world io client sent) rest).1.world
  and_then-keeps client (ok u, w) rest h keep = keep _ h
  and_then-keeps client (err e, w) rest h keep = h

  pub do_send-keeps :
      (sends : Sends) (client : Client io) → P client.world → P (do_send io sends client).1.world
  unfolding do_send send_client_error
  do_send-keeps [] client h = h
  do_send-keeps ((uid, code) ∷ sends) client h =
      and_then-keeps client (io.send (client_error uid code) client.world) (do_send io sends)
        (stable.sends _ _ h) (do_send-keeps sends)

  -- `close` of the transport has to keep it too.
  pub terminate-keeps :
      ((w : io.World) → P w → P (io.close w).1)
      → (client : Client io) → P client.world
      → P (terminate io client).1.world
  unfolding terminate do_close terminate_local
  terminate-keeps ends client h =
      let start : Client io = record client { queue = [] } in
      let aborted = abort_requests io client.queue start in
      ends _ (
        do_send-keeps (terminate_local io client).1 (terminate_local io client).0 (
          drop_calls-keeps aborted.0.pending _
            (cancel_calls-keeps aborted.0.pending _ (abort_requests-keeps client.queue start h))))
