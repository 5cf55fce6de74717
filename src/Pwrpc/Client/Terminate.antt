-- ===== src/Pwrpc/Client/Terminate.antt =====
-- libmaestro/src/pwrpc/client.rs: `Client::terminate`.
pub mod Rule
use pbpctrl.Prelude.{
  ◌≡◌, refl, ◌∙◌, List, [], ◌∷◌, ◌++◌, none, some, ok, err, if◌then◌else◌, Option-cases, inl, inr,
}
use pbpctrl.Pwrpc.Status.{Status}
use pbpctrl.Pwrpc.Client.{
  CallUid, CallUpdate, CallRequest, Call, Io, Client, Done, find_and_remove_call,
  complete_with_error, drop_call, client_error, send_client_error, on_world,
}

abbrev pub Sends : Type 0
Sends = List (CallUid × Status)

module _ (io : Io) where
  -- What one waiting request does when the client terminates.
  unfoldable pub abort_request : CallRequest io.Sender → Client io → Client io × Sends
  abort_request (CallRequest.new type uid payload sender tx) client =
      let told = io.unbounded_send sender (CallUpdate.error Status.aborted) client.world in
      (record client { world = io.close_channel sender told }, [])
  abort_request (CallRequest.error uid code tx) client =
      elim (find_and_remove_call uid client.pending) [
        | none ↦ (client, [])
        | some (c, rest) ↦ (
          record client {
            pending = rest;
            world = drop_call io c (complete_with_error io c code client.world);
          },
          if tx then (uid, code) ∷ [] else [],
        )
      ]

  unfoldable pub abort_requests : List (CallRequest io.Sender) → Client io → Client io × Sends
  abort_requests [] client = (client, [])
  abort_requests (request ∷ queue) client =
      let first = abort_request request client in
      let rest = abort_requests queue first.0 in (rest.0, first.1 ++ rest.1)

  unfoldable pub cancel_calls : List (Call io.Sender) → io.World → io.World
  cancel_calls [] w = w
  cancel_calls (c ∷ pending) w = cancel_calls pending (complete_with_error io c Status.aborted w)

  unfoldable pub drop_calls : List (Call io.Sender) → io.World → io.World
  drop_calls [] w = w
  drop_calls (c ∷ pending) w = drop_calls pending (drop_call io c w)

  abbrev pub cancellations : List (Call io.Sender) → Sends
  cancellations [] = []
  cancellations (c ∷ pending) = (c.uid, Status.cancelled) ∷ cancellations pending

  -- `?` in a loop: `rest` is what the loop does after a send that succeeds.
  abbrev pub and_then :
      Done io.Failure × Client io
      → (Client io → Done io.Failure × Client io)
      → Done io.Failure × Client io
  and_then (ok u, client) rest = rest client
  and_then (err e, client) rest = (err e, client)

  unfoldable pub do_send : Sends → Client io → Done io.Failure × Client io
  do_send [] client = (ok tt, client)
  do_send ((uid, code) ∷ sends) client =
      and_then (send_client_error io uid code client) (do_send sends)

  unfoldable pub do_close : Client io → Done io.Failure × Client io
  do_close client = on_world io client (io.close client.world)

  -- `a?; b`.
  abbrev pub first_error : Done io.Failure → Done io.Failure → Done io.Failure
  first_error (ok u) b = b
  first_error (err e) b = err e

  -- All that `terminate` does before it speaks to the peer, and the messages to send.
  unfoldable pub terminate_local : Client io → Client io × Sends
  terminate_local client =
      let aborted = abort_requests client.queue (record client { queue = [] }) in
      let cancelled = cancel_calls aborted.0.pending aborted.0.world in
      (
        record aborted.0 { pending = []; world = drop_calls aborted.0.pending cancelled },
        aborted.1 ++ cancellations aborted.0.pending,
      )

  unfoldable pub terminate : Client io → Done io.Failure × Client io
  terminate client =
      let here = terminate_local client in
      let sent = do_send here.1 here.0 in
      let closed = do_close sent.1 in (first_error sent.0 closed.0, closed.1)

  -- The handling of waiting requests touches no queue.
  abort_request-queue :
      (request : CallRequest io.Sender) (client : Client io)
      → (abort_request request client).0.queue ≡ client.queue
  unfolding abort_request
  abort_request-queue (CallRequest.new type uid payload sender tx) client = refl
  abort_request-queue (CallRequest.error uid code tx) client =
      elim (Option-cases (find_and_remove_call uid client.pending)) [
        | inl e ↦ rw (abort_request, e) refl
        | inr (r, e) ↦ rw (abort_request, e) refl
      ]

  abort_requests-queue :
      (queue : List (CallRequest io.Sender)) (client : Client io)
      → (abort_requests queue client).0.queue ≡ client.queue
  unfolding abort_requests
  abort_requests-queue [] client = refl
  abort_requests-queue (request ∷ queue) client =
      abort_requests-queue queue (abort_request request client).0
      ∙ abort_request-queue request client

  and_then-calls :
      (client : Client io) (sent : Done io.Failure × io.World)
      (rest : Client io → Done io.Failure × Client io)
      → ((w : io.World)
          → ((rest (record client { world = w })).1.pending ≡ client.pending)
            × ((rest (record client { world = w })).1.queue ≡ client.queue))
      → ((and_then (on_world io client sent) rest).1.pending ≡ client.pending)
        × ((and_then (on_world io client sent) rest).1.queue ≡ client.queue)
  and_then-calls client (ok u, w) rest h = h w
  and_then-calls client (err e, w) rest h = (refl, refl)

  -- Sending changes the world alone.
  do_send-calls :
      (sends : Sends) (client : Client io)
      → ((do_send sends client).1.pending ≡ client.pending)
        × ((do_send sends client).1.queue ≡ client.queue)
  unfolding do_send send_client_error
  do_send-calls [] client = (refl, refl)
  do_send-calls ((uid, code) ∷ sends) client =
      and_then-calls client (io.send (client_error uid code) client.world) (do_send sends)
        (λ w. do_send-calls sends (record client { world = w }))

  -- After `terminate` no call is pending and no request waits, whatever the peer and the callers
  -- do and whether sending fails or not.
  pub terminate_clears :
      (client : Client io) → ((terminate client).1.pending ≡ []) × ((terminate client).1.queue ≡ [])
  unfolding terminate do_close terminate_local
  terminate_clears client =
      let here = terminate_local client in
      let kept = do_send-calls here.1 here.0 in
      (kept.0, kept.1 ∙ abort_requests-queue client.queue (record client { queue = [] }))
