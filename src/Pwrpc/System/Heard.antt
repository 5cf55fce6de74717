-- ===== src/Pwrpc/System/Heard.antt =====
-- libmaestro/src/pwrpc/client.rs: no interleaving of the callers, the client and the world outside
-- loses a call that the request queue has taken.
use pbpctrl.Prelude.{
  ◌≡◌, refl, sym, subst, ◌⊎◌, inl, inr, List, [], ◌∷◌, ◌++◌, Bool, true, false, Bool-cases, All,
  if◌then◌else◌, arith,
}
use pbpctrl.Pwrpc.Types.{RpcPacket}
use pbpctrl.Pwrpc.Status.{Status}
use pbpctrl.Pwrpc.Client.{CallRequest, Io, Client, process_packet, process_request}
use pbpctrl.Pwrpc.Client.Callers.{Channels}
use pbpctrl.Pwrpc.Client.Callers.Closing.{HasNew, IsServed, first_request, terminate-IsClosed}
use pbpctrl.Pwrpc.Client.Callers.Serving.{process_packet-Serves, process_request-Takes}
use pbpctrl.Pwrpc.Client.Terminate.{terminate, terminate_clears}
use pbpctrl.Pwrpc.Handle.{CallHandle, send_error, cancel, abandon, drop_handle}
use pbpctrl.Pwrpc.System
use System.{
  Mpsc, TakesOpen, new_system, queues, on_client, push_request, send_request, new_channel,
  next_request, terminated, accept, Step, Reach,
}

module _ (io : Io) (mpsc : Mpsc io) (ch : Channels io) where
  -- A call the client has not forgotten: it is pending, its request waits, or its channel is closed.
  abbrev pub IsHeard : Client io → io.Sender → Type 0
  IsHeard client t = IsServed io ch t client ⊎ HasNew t client.queue

  abbrev pub AllHeard : System.System io → Type 0
  AllHeard s = All (IsHeard s.client) s.accepted

  pub All-map :
      (P Q : io.Sender → Type 0) (ts : List io.Sender)
      → ((t : io.Sender) → P t → Q t)
      → All P ts
      → All Q ts
  All-map P Q [] f h = tt
  All-map P Q (t ∷ ts) f h = (f t h.0, All-map P Q ts f h.1)

  HasNew-append :
      (t : io.Sender) (queue more : List (CallRequest io.Sender))
      → HasNew t queue ⊎ HasNew t more
      → HasNew t (queue ++ more)
  HasNew-append t [] more (inl h) = absurd h
  HasNew-append t [] more (inr h) = h
  HasNew-append t (CallRequest.new type uid payload sender tx ∷ queue) more (inl (inl e)) = inl e
  HasNew-append t (CallRequest.new type uid payload sender tx ∷ queue) more (inl (inr h)) =
      inr (HasNew-append t queue more (inl h))
  HasNew-append t (CallRequest.new type uid payload sender tx ∷ queue) more (inr h) =
      inr (HasNew-append t queue more (inr h))
  HasNew-append t (CallRequest.error uid code tx ∷ queue) more h = HasNew-append t queue more h

  -- Another request in the queue is waited for as well, and the calls before it as before.
  push_request-AllHeard :
      (r : CallRequest io.Sender) (s : System.System io)
      → AllHeard s
      → AllHeard (push_request io mpsc r s)
  push_request-AllHeard r s h =
      let longer = record s.client { queue = s.client.queue ++ r ∷ [] } in
      let kept : All (IsHeard longer) s.accepted =
        All-map (IsHeard s.client) (IsHeard longer) s.accepted
          (λ t heard. elim heard [
            | inl served ↦ inl served
            | inr waits ↦ inr (HasNew-append t s.client.queue (r ∷ []) (inl waits))
          ])
          h in
      with_new r kept
    where
      with_new :
          (r : CallRequest io.Sender)
          → All (IsHeard (record s.client { queue = s.client.queue ++ r ∷ [] })) s.accepted
          → AllHeard (push_request io mpsc r s)
      with_new (CallRequest.new type uid payload sender tx) kept =
          (inr (HasNew-append sender s.client.queue _ (inr (inl refl))), kept)
      with_new (CallRequest.error uid code tx) kept = kept

  send_request-AllHeard :
      (tx : mpsc.QueueTx) (r : CallRequest io.Sender) (s : System.System io)
      → AllHeard s
      → AllHeard (send_request io mpsc tx r s).1
  send_request-AllHeard tx r s h = elim (Bool-cases (mpsc.takes tx s)) [
    | inl takes ↦ rw takes (push_request-AllHeard r s h)
    | inr refuses ↦ rw refuses h
  ]

  -- Every accepted call is heard of, and a client that has terminated holds none.
  pub record Inv (s : System.System io) : Type 0 where
    pub heard : AllHeard s
    pub quiet : s.is_open ≡ false → (s.client.pending ≡ []) × (s.client.queue ≡ [])

  pub send_request-Inv :
      (tx : mpsc.QueueTx) (r : CallRequest io.Sender) (s : System.System io)
      → TakesOpen io mpsc
      → Inv s
      → Inv (send_request io mpsc tx r s).1
  send_request-Inv tx r s opened inv = record {
    heard = send_request-AllHeard tx r s inv.heard;
    quiet = still;
  }
    where
      still :
          (send_request io mpsc tx r s).1.is_open ≡ false
          → ((send_request io mpsc tx r s).1.client.pending ≡ [])
            × ((send_request io mpsc tx r s).1.client.queue ≡ [])
      still = elim (Bool-cases (mpsc.takes tx s)) [
        | inl takes ↦
            let up : s.is_open ≡ true = opened tx s takes in
            rw takes (λ down. absurd (ground (arith, up, down)))
        | inr refuses ↦ rw refuses inv.quiet
      ]

  pub send_error-Inv :
      (h : CallHandle (queues io mpsc)) (code : Status) (tx : Bool) (s : System.System io)
      → TakesOpen io mpsc
      → Inv s
      → Inv (send_error (queues io mpsc) h code tx s).2
  unfolding send_error
  send_error-Inv h code tx s = send_request-Inv h.queue_tx (CallRequest.error h.uid code tx) s

  pub drop_handle-Inv :
      (h : CallHandle (queues io mpsc)) (s : System.System io)
      → TakesOpen io mpsc
      → Inv s
      → Inv (drop_handle (queues io mpsc) h s)
  unfolding drop_handle cancel abandon send_error
  drop_handle-Inv h s opened inv = elim (Bool-cases h.cancel_on_drop) [
    | inl yes_or ↦ rw (drop_handle, yes_or) (send_error-Inv h Status.cancelled true s opened inv)
    | inr or_no ↦ rw (drop_handle, or_no) (send_error-Inv h Status.cancelled false s opened inv)
  ]

  -- Where the world changes alone and no channel opens again.
  pub outside-Inv :
      (s : System.System io) (w : io.World)
      → ((t : io.Sender) → io.is_closed t s.client.world ≡ true → io.is_closed t w ≡ true)
      → Inv s
      → Inv (on_client io mpsc s (record s.client { world = w }))
  outside-Inv s w stays inv =
      let later = record s.client { world = w } in
      record {
        heard =
            All-map (IsHeard s.client) (IsHeard later) s.accepted
              (λ t heard. elim heard [
                | inl (inl shut) ↦ inl (inl (stays t shut))
                | inl (inr pending) ↦ inl (inr pending)
                | inr waits ↦ inr waits
              ])
              inv.heard;
        quiet = inv.quiet;
      }

  -- Whether the request could be sent or the new handle is dropped.
  pub started-Inv :
      (b : Bool) (h : CallHandle (queues io mpsc)) (s : System.System io)
      → TakesOpen io mpsc
      → Inv s
      → Inv (if b then s else drop_handle (queues io mpsc) h s)
  started-Inv true h s opened inv = inv
  started-Inv false h s opened inv = drop_handle-Inv h s opened inv

  pub process_packet-Inv :
      (p : RpcPacket) (s : System.System io)
      → s.is_open ≡ true
      → Inv s
      → Inv (on_client io mpsc s (process_packet io p s.client).1)
  process_packet-Inv p s up inv =
      let after = (process_packet io p s.client).1 in
      record {
        heard =
            All-map (IsHeard s.client) (IsHeard after) s.accepted
              (λ t heard.
                let (serves, same) = process_packet-Serves io ch t p s.client in
                elim heard [
                  | inl served ↦ inl (serves served)
                  | inr waits ↦ inr (subst (HasNew t) (sym same) waits)
                ])
              inv.heard;
        quiet = λ down. absurd (ground (arith, up, down));
      }

  pub next_request-Inv :
      (r : CallRequest io.Sender) (rest : List (CallRequest io.Sender)) (s : System.System io)
      → s.is_open ≡ true
      → s.client.queue ≡ r ∷ rest
      → Inv s
      → Inv (next_request io mpsc r rest s)
  next_request-Inv r rest s up e inv =
      let before = record s.client { queue = rest } in
      let after = (process_request io r before).1 in
      record {
        heard =
            All-map (IsHeard s.client) (IsHeard after) s.accepted
              (λ t heard.
                let (serves, same) = process_request-Takes io ch t r before in
                elim heard [
                  | inl served ↦ inl (serves (inl served))
                  | inr waits ↦ elim (first_request io ch t r rest (subst (HasNew t) e waits)) [
                    | inl first ↦ inl (serves (inr first))
                    | inr later ↦ inr (subst (HasNew t) (sym same) later)
                  ]
                ])
              inv.heard;
        quiet = λ down. absurd (ground (arith, up, down));
      }

  -- A terminated client has closed all channels.
  pub terminated-Inv : (s : System.System io) → Inv s → Inv (terminated io mpsc s)
  terminated-Inv s inv =
      let after = (terminate io s.client).1 in
      record {
        heard =
            All-map (IsHeard s.client) (IsHeard after) s.accepted
              (λ t heard. inl (inl (terminate-IsClosed io ch t s.client heard))) inv.heard;
        quiet = λ _. terminate_clears io s.client;
      }
