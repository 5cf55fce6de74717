-- ===== src/Pwrpc/System/Rule.antt =====
-- libmaestro/src/pwrpc/client.rs: what callers observe in every order of steps.
use pbpctrl.Prelude.{
  ◌≡◌, refl, sym, ◌∙◌, subst, List, Bool, true, false, Bool-cases, inl, inr, if◌then◌else◌,
}
use pbpctrl.Pwrpc.Types.{RpcType}
use pbpctrl.Pwrpc.Status.{Status}
use pbpctrl.Pwrpc.Client.{CallUpdate, CallRequest, Io}
use pbpctrl.Pwrpc.Client.Callers.{Channels}
use pbpctrl.Pwrpc.Client.Callers.History.{IsHistory, IsHistory-IsStable, IsHistory-same}
use pbpctrl.Pwrpc.Client.Run.Rule.{IsStable, process_packet-keeps, process_request-keeps}
use pbpctrl.Pwrpc.Client.Terminate.Rule.{terminate-keeps}
use pbpctrl.Pwrpc.Handle.{
  Request, CallHandle, send_error, cancel, abandon, drop_handle, call, open_call,
}
use pbpctrl.Pwrpc.System
use System.{Mpsc, queues, new_channel, send_request, Step, Reach}

module _ (io : Io) (mpsc : Mpsc io) where
  -- The queue's own operations leave the channels of updates alone.
  send_request-world :
      (tx : mpsc.QueueTx) (r : CallRequest io.Sender) (s : System.System io)
      → (send_request io mpsc tx r s).1.client.world ≡ s.client.world
  send_request-world tx r s = elim (Bool-cases (mpsc.takes tx s)) [
    | inl takes ↦ rw takes refl
    | inr refuses ↦ rw refuses refl
  ]

  drop_handle-world :
      (h : CallHandle (queues io mpsc)) (s : System.System io)
      → (drop_handle (queues io mpsc) h s).client.world ≡ s.client.world
  unfolding drop_handle cancel abandon send_error
  drop_handle-world h s = elim (Bool-cases h.cancel_on_drop) [
    | inl yes_or ↦
        rw (drop_handle, yes_or)
          (send_request-world h.queue_tx (CallRequest.error h.uid Status.cancelled true) s)
    | inr or_no ↦
        rw (drop_handle, or_no)
          (send_request-world h.queue_tx (CallRequest.error h.uid Status.cancelled false) s)
  ]

  started-world :
      (b : Bool) (h : CallHandle (queues io mpsc)) (s : System.System io)
      → (if b then s else drop_handle (queues io mpsc) h s).client.world ≡ s.client.world
  started-world true h s = refl
  started-world false h s = drop_handle-world h s

  module _ (B : Type 0) (Outside : io.World → io.World → Type 0) (P : io.World → Type 0)
      (stable : IsStable io P) (ends : (w : io.World) → P w → P (io.close w).1)
      (opens : (w : io.World) → P w → P (mpsc.unbounded w).1)
      (changes : (w w' : io.World) → Outside w w' → P w → P w') where
    call-keeps :
        (tx : mpsc.QueueTx) (type : RpcType) (r : Request) (updates : List CallUpdate)
        (s : System.System io)
        → P s.client.world
        → P (call (queues io mpsc) {B = B} tx type r updates s).1.client.world
    unfolding call
    call-keeps tx type r updates s h =
        subst P (sym (started-world _ _ _ ∙ send_request-world tx _ (new_channel io mpsc s).1))
          (opens s.client.world h)

    open_call-keeps :
        (tx : mpsc.QueueTx) (type : RpcType) (r : Request) (updates : List CallUpdate)
        (s : System.System io)
        → P s.client.world
        → P (open_call (queues io mpsc) {B = B} tx type r updates s).1.client.world
    unfolding open_call
    open_call-keeps tx type r updates s h =
        subst P (sym (started-world _ _ _ ∙ send_request-world tx _ (new_channel io mpsc s).1))
          (opens s.client.world h)

    Step-keeps :
        {s u : System.System io} → Step io mpsc B Outside s u → P s.client.world → P u.client.world
    unfolding send_error
    Step-keeps {s} (Step.start_call tx type r updates) h = call-keeps tx type r updates s h
    Step-keeps {s} (Step.start_open tx type r updates) h = open_call-keeps tx type r updates s h
    Step-keeps {s} (Step.report c code tx) h =
        subst P (sym (send_request-world c.queue_tx (CallRequest.error c.uid code tx) s)) h
    Step-keeps {s} (Step.release c) h = subst P (sym (drop_handle-world c s)) h
    Step-keeps {s} (Step.take r rest up e) h =
        process_request-keeps io P stable r (record s.client { queue = rest }) h
    Step-keeps {s} (Step.receive p up) h = process_packet-keeps io P stable p s.client h
    Step-keeps {s} (Step.finish up) h = terminate-keeps io P stable ends s.client h
    Step-keeps {s} (Step.outside w change) h = changes s.client.world w change h

    pub Reach-keeps :
        {s u : System.System io} → Reach io mpsc B Outside s u → P s.client.world → P u.client.world
    Reach-keeps Reach.here h = h
    Reach-keeps (Reach.next r step) h = Step-keeps step (Reach-keeps r h)

  -- In every order of the callers' calls and cancellations, the requests and packets that the client
  -- handles and its end, what a caller's channel delivers is stream items and then at most one final
  -- update, with nothing behind it on the closed channel, if that held at the start. Making a channel
  -- and the world outside deliver nothing, and leave closed channels closed.
  pub Reach-IsHistory :
      (ch : Channels io) (B : Type 0) (Outside : io.World → io.World → Type 0) (t : io.Sender)
      {s u : System.System io}
      → ((w w' : io.World)
          → Outside w w'
          → (ch.received t w' ≡ ch.received t w)
            × (io.is_closed t w ≡ true → io.is_closed t w' ≡ true))
      → ((w : io.World)
          → (ch.received t (mpsc.unbounded w).1 ≡ ch.received t w)
            × (io.is_closed t w ≡ true → io.is_closed t (mpsc.unbounded w).1 ≡ true))
      → Reach io mpsc B Outside s u
      → IsHistory io ch t s.client.world
      → IsHistory io ch t u.client.world
  Reach-IsHistory ch B Outside t silent fresh r h =
      Reach-keeps B Outside (IsHistory io ch t) (IsHistory-IsStable io ch t)
        (λ w. IsHistory-same io ch t w _ (ch.received_end t w) (ch.stays_end t w))
        (λ w. IsHistory-same io ch t w _ (fresh w).0 (fresh w).1)
        (λ w w' change. IsHistory-same io ch t w w' (silent w w' change).0 (silent w w' change).1) r
        h
