-- ===== src/Pwrpc/Client/Callers/Closing.antt =====
-- libmaestro/src/pwrpc/client.rs: `terminate` leaves no caller waiting.
use pbpctrl.Prelude.{
  ◌≡◌, subst, ◌⊎◌, inl, inr, List, [], ◌∷◌, Option, none, some, true, Bool-cases, Option-cases,
}
use mathlib.Core.Option as Opt
use pbpctrl.Pwrpc.Status.{Status}
use pbpctrl.Pwrpc.Client.{
  CallUid, CallRequest, Call, Io, Client, same_uid, find_and_remove_call, complete_with_error,
  drop_call,
}
use pbpctrl.Pwrpc.Client.Run.Rule.{IsStable, drops}
use pbpctrl.Pwrpc.Client.Terminate.Rule.{drop_calls-keeps, do_send-keeps}
use pbpctrl.Pwrpc.Client.Callers.{Channels}
use pbpctrl.Pwrpc.Client.Terminate.{
  abort_request, abort_requests, cancel_calls, do_close, terminate_local, terminate,
}

-- `t` is the sender of a pending call, or of a request for a new call.
module _ {S : Type 0} (t : S) where
  abbrev pub HasCaller : List (Call S) → Type 0
  HasCaller [] = ⊥
  HasCaller (c ∷ pending) = (c.sender ≡ t) ⊎ HasCaller pending

  abbrev pub HasNew : List (CallRequest S) → Type 0
  HasNew [] = ⊥
  HasNew (CallRequest.new type uid payload sender tx ∷ queue) = (sender ≡ t) ⊎ HasNew queue
  HasNew (CallRequest.error uid code tx ∷ queue) = HasNew queue

  -- The removed call, or a call that is left.
  abbrev IsLeft : List (Call S) → Option (Call S × List (Call S)) → Type 0
  IsLeft pending none = HasCaller pending
  IsLeft pending (some r) = (r.0.sender ≡ t) ⊎ HasCaller r.1

  -- Behind a call that is not removed.
  IsLeft-map :
      (c : Call S) (pending : List (Call S)) (found : Option (Call S × List (Call S)))
      → IsLeft pending found
      → IsLeft (c ∷ pending) (Opt.map (λ r. (r.0, c ∷ r.1)) found)
  IsLeft-map c pending none h = inr h
  IsLeft-map c pending (some r) (inl e) = inl e
  IsLeft-map c pending (some r) (inr h) = inr (inr h)

  IsLeft-front :
      (c : Call S) (pending : List (Call S)) (found : Option (Call S × List (Call S)))
      → c.sender ≡ t
      → IsLeft (c ∷ pending) (Opt.map (λ r. (r.0, c ∷ r.1)) found)
  IsLeft-front c pending none e = inl e
  IsLeft-front c pending (some r) e = inr (inl e)

  find_and_remove_call-IsLeft :
      (uid : CallUid) (pending : List (Call S))
      → HasCaller pending
      → IsLeft pending (find_and_remove_call uid pending)
  unfolding find_and_remove_call
  find_and_remove_call-IsLeft uid [] h = h
  find_and_remove_call-IsLeft uid (c ∷ pending) h =
      let rest = find_and_remove_call-IsLeft uid pending in
      elim (Bool-cases (same_uid c.uid uid)) [
        | inl same ↦ rw same h
        | inr other ↦ elim h [
          | inl e ↦ rw other (IsLeft-front c pending (find_and_remove_call uid pending) e)
          | inr behind ↦
              rw other (IsLeft-map c pending (find_and_remove_call uid pending) (rest behind))
        ]
      ]

module _ (io : Io) (ch : Channels io) (t : io.Sender) where
  abbrev pub IsClosed : io.World → Type 0
  IsClosed w = io.is_closed t w ≡ true

  abbrev pub IsServed : Client io → Type 0
  IsServed client = IsClosed client.world ⊎ HasCaller t client.pending

  pub IsClosed-IsStable : IsStable io IsClosed
  IsClosed-IsStable = record {
    completes = λ c b s w h. ch.stays_closed c.sender t _ (ch.stays_sent c.sender t _ w h);
    fails = λ c s w h. ch.stays_closed c.sender t _ (ch.stays_sent c.sender t _ w h);
    pushes = λ c b w h. ch.stays_sent c.sender t _ w h;
    sends = λ p w h. ch.stays_send t p w h;
  }

  pub close_channel-IsClosed :
      (s : io.Sender) (w : io.World) → s ≡ t → IsClosed (io.close_channel s w)
  close_channel-IsClosed s w e =
      subst (λ x. io.is_closed x (io.close_channel s w) ≡ true) e (ch.closed_self s w)

  pub dropped : (c : Call io.Sender) (w : io.World) → IsClosed w → IsClosed (drop_call io c w)
  dropped c w h = drops io IsClosed IsClosed-IsStable c w h

  -- The removed call was the caller's, or another's.
  pub failed-IsServed :
      (r : Call io.Sender × List (Call io.Sender)) (code : Status) (w : io.World)
      → IsClosed w ⊎ ((r.0.sender ≡ t) ⊎ HasCaller t r.1)
      → IsClosed (drop_call io r.0 (complete_with_error io r.0 code w)) ⊎ HasCaller t r.1
  failed-IsServed r code w (inl shut) =
      inl (dropped r.0 _ (IsClosed-IsStable.fails r.0 code w shut))
  failed-IsServed r code w (inr (inl e)) =
      inl (dropped r.0 _ (close_channel-IsClosed r.0.sender _ e))
  failed-IsServed r code w (inr (inr h)) = inr h

  pub removed-IsServed :
      (uid : CallUid) (client : Client io) (r : Call io.Sender × List (Call io.Sender))
      → find_and_remove_call uid client.pending ≡ some r
      → IsServed client
      → IsClosed client.world ⊎ ((r.0.sender ≡ t) ⊎ HasCaller t r.1)
  removed-IsServed uid client r e (inl shut) = inl shut
  removed-IsServed uid client r e (inr h) =
      inr (subst (IsLeft t client.pending) e (find_and_remove_call-IsLeft t uid client.pending h))

  abort_request-IsServed :
      (request : CallRequest io.Sender) (client : Client io)
      → IsServed client ⊎ HasNew t (request ∷ [])
      → IsServed (abort_request io request client).0
  unfolding abort_request
  abort_request-IsServed (CallRequest.new type uid payload sender tx) client (inl (inl shut)) =
      inl (ch.stays_closed sender t _ (ch.stays_sent sender t _ client.world shut))
  abort_request-IsServed (CallRequest.new type uid payload sender tx) client (inl (inr h)) = inr h
  abort_request-IsServed (CallRequest.new type uid payload sender tx) client (inr (inl e)) =
      inl (close_channel-IsClosed sender _ e)
  abort_request-IsServed (CallRequest.new type uid payload sender tx) client (inr (inr h)) =
      absurd h
  abort_request-IsServed (CallRequest.error uid code tx) client (inr h) = absurd h
  abort_request-IsServed (CallRequest.error uid code tx) client (inl h) =
      elim (Option-cases (find_and_remove_call uid client.pending)) [
        | inl e ↦ rw (abort_request, e) h
        | inr (r, e) ↦
            rw (abort_request, e)
              (failed-IsServed r code client.world (removed-IsServed uid client r e h))
      ]

  -- A request that is not the first waits on.
  pub first_request :
      (request : CallRequest io.Sender) (queue : List (CallRequest io.Sender))
      → HasNew t (request ∷ queue)
      → HasNew t (request ∷ []) ⊎ HasNew t queue
  first_request (CallRequest.new type uid payload sender tx) queue (inl e) = inl (inl e)
  first_request (CallRequest.new type uid payload sender tx) queue (inr h) = inr h
  first_request (CallRequest.error uid code tx) queue h = inr h

  abort_requests-IsServed :
      (queue : List (CallRequest io.Sender)) (client : Client io)
      → IsServed client ⊎ HasNew t queue
      → IsServed (abort_requests io queue client).0
  unfolding abort_requests
  abort_requests-IsServed [] client (inl h) = h
  abort_requests-IsServed [] client (inr h) = absurd h
  abort_requests-IsServed (request ∷ queue) client (inl h) =
      abort_requests-IsServed queue (abort_request io request client).0
        (inl (abort_request-IsServed request client (inl h)))
  abort_requests-IsServed (request ∷ queue) client (inr h) = elim (first_request request queue h) [
    | inl first ↦
        abort_requests-IsServed queue (abort_request io request client).0
          (inl (abort_request-IsServed request client (inr first)))
    | inr later ↦ abort_requests-IsServed queue (abort_request io request client).0 (inr later)
  ]

  cancel_calls-IsClosed :
      (pending : List (Call io.Sender)) (w : io.World)
      → IsClosed w ⊎ HasCaller t pending
      → IsClosed (cancel_calls io pending w)
  unfolding cancel_calls
  cancel_calls-IsClosed [] w (inl shut) = shut
  cancel_calls-IsClosed [] w (inr h) = absurd h
  cancel_calls-IsClosed (c ∷ pending) w (inl shut) =
      cancel_calls-IsClosed pending _ (inl (IsClosed-IsStable.fails c Status.aborted w shut))
  cancel_calls-IsClosed (c ∷ pending) w (inr (inl e)) =
      cancel_calls-IsClosed pending _ (inl (close_channel-IsClosed c.sender _ e))
  cancel_calls-IsClosed (c ∷ pending) w (inr (inr h)) = cancel_calls-IsClosed pending _ (inr h)

  -- A caller that is served, or whose request waits, finds its channel closed.
  pub terminate-IsClosed :
      (client : Client io)
      → IsServed client ⊎ HasNew t client.queue
      → IsClosed (terminate io client).1.world
  unfolding terminate do_close terminate_local
  terminate-IsClosed client h =
      let start : Client io = record client { queue = [] } in
      let aborted = abort_requests io client.queue start in
      ch.stays_end t _ (
        do_send-keeps io IsClosed IsClosed-IsStable (terminate_local io client).1
          (terminate_local io client).0
          (drop_calls-keeps io IsClosed IsClosed-IsStable aborted.0.pending _ (
            cancel_calls-IsClosed aborted.0.pending _
              (abort_requests-IsServed client.queue start h))))

  -- Once `terminate` returns, whether the peer could be told or not, the channel of every call that
  -- was pending and of every new call that was requested is closed.
  pub terminate_closes :
      (client : Client io)
      → HasCaller t client.pending ⊎ HasNew t client.queue
      → io.is_closed t (terminate io client).1.world ≡ true
  terminate_closes client (inl pending) = terminate-IsClosed client (inl (inr pending))
  terminate_closes client (inr requested) = terminate-IsClosed client (inr requested)
