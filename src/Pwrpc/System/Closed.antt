-- ===== src/Pwrpc/System/Closed.antt =====
-- libmaestro/src/pwrpc/client.rs: every state of the client and its callers keeps each call, and after
-- the client has terminated each call's channel is closed.
use pbpctrl.Prelude.{◌≡◌, refl, subst, inl, inr, List, [], true, false, All}
use pbpctrl.Pwrpc.Types.{RpcType}
use pbpctrl.Pwrpc.Client.{CallUpdate, Io, Client}
use pbpctrl.Pwrpc.Client.Callers.{Channels}
use pbpctrl.Pwrpc.Client.Callers.Closing.{HasCaller, HasNew, IsClosed}
use pbpctrl.Pwrpc.Handle.{Request, call, open_call}
use pbpctrl.Pwrpc.System
use System.{Mpsc, TakesOpen, new_system, queues, new_channel, Step, Reach}
use pbpctrl.Pwrpc.System.Heard.{
  IsHeard, Inv, All-map, send_request-Inv, send_error-Inv, drop_handle-Inv, outside-Inv,
  started-Inv, process_packet-Inv, next_request-Inv, terminated-Inv,
}

-- `B` is the error type of the message decoder. Neither a new channel nor the world outside opens
-- a closed one.
module _ (io : Io) (mpsc : Mpsc io) (ch : Channels io) (B : Type 0)
    (Outside : io.World → io.World → Type 0) (opened : TakesOpen io mpsc)
    (stays : (t : io.Sender) (w w' : io.World)
      → Outside w w'
      → io.is_closed t w ≡ true
      → io.is_closed t w' ≡ true)
    (opens : (t : io.Sender) (w : io.World)
      → io.is_closed t w ≡ true
      → io.is_closed t (mpsc.unbounded w).1 ≡ true) where
  abbrev fresh : System.System io → System.System io
  fresh s = (new_channel io mpsc s).1

  fresh-Inv : (s : System.System io) → Inv io mpsc ch s → Inv io mpsc ch (fresh s)
  fresh-Inv s =
      outside-Inv io mpsc ch s (mpsc.unbounded s.client.world).1 (λ t. opens t s.client.world)

  call-Inv :
      (tx : mpsc.QueueTx) (type : RpcType) (r : Request) (updates : List CallUpdate)
      (s : System.System io)
      → Inv io mpsc ch s
      → Inv io mpsc ch (call (queues io mpsc) {B = B} tx type r updates s).1
  unfolding call
  call-Inv tx type r updates s inv =
      started-Inv io mpsc ch _ _ _ opened
        (send_request-Inv io mpsc ch tx _ (fresh s) opened (fresh-Inv s inv))

  open_call-Inv :
      (tx : mpsc.QueueTx) (type : RpcType) (r : Request) (updates : List CallUpdate)
      (s : System.System io)
      → Inv io mpsc ch s
      → Inv io mpsc ch (open_call (queues io mpsc) {B = B} tx type r updates s).1
  unfolding open_call
  open_call-Inv tx type r updates s inv =
      started-Inv io mpsc ch _ _ _ opened
        (send_request-Inv io mpsc ch tx _ (fresh s) opened (fresh-Inv s inv))

  Step-Inv :
      {s u : System.System io} → Step io mpsc B Outside s u → Inv io mpsc ch s → Inv io mpsc ch u
  Step-Inv {s} (Step.start_call tx type r updates) inv = call-Inv tx type r updates s inv
  Step-Inv {s} (Step.start_open tx type r updates) inv = open_call-Inv tx type r updates s inv
  Step-Inv {s} (Step.report h code tx) inv = send_error-Inv io mpsc ch h code tx s opened inv
  Step-Inv {s} (Step.release h) inv = drop_handle-Inv io mpsc ch h s opened inv
  Step-Inv {s} (Step.take r rest up e) inv = next_request-Inv io mpsc ch r rest s up e inv
  Step-Inv {s} (Step.receive p up) inv = process_packet-Inv io mpsc ch p s up inv
  Step-Inv {s} (Step.finish up) inv = terminated-Inv io mpsc ch s inv
  Step-Inv {s} (Step.outside w change) inv =
      outside-Inv io mpsc ch s w (λ t. stays t s.client.world w change) inv

  -- Whatever the callers, the client and the world outside do, and in whichever order, each call
  -- whose request the queue has taken is pending, or its request waits, or its channel is closed.
  -- A client that has terminated holds no call and no request. This holds in every state that is
  -- reached from one where it does, if the request queue takes nothing once the client has
  -- terminated, and a closed channel stays closed when another is made and in the world outside.
  pub Reach-Inv :
      {s u : System.System io} → Reach io mpsc B Outside s u → Inv io mpsc ch s → Inv io mpsc ch u
  Reach-Inv Reach.here inv = inv
  Reach-Inv (Reach.next r step) inv = Step-Inv step (Reach-Inv r inv)

  IsHeard-IsClosed :
      (client : Client io) (t : io.Sender)
      → (client.pending ≡ []) × (client.queue ≡ [])
      → IsHeard io mpsc ch client t
      → IsClosed io ch t client.world
  IsHeard-IsClosed client t quiet (inl (inl shut)) = shut
  IsHeard-IsClosed client t quiet (inl (inr pending)) = absurd (subst (HasCaller t) quiet.0 pending)
  IsHeard-IsClosed client t quiet (inr waits) = absurd (subst (HasNew t) quiet.1 waits)

  -- No caller waits forever: from a client that has just been made, once the client has
  -- terminated, the channel of every call whose request the queue ever took is closed, in that state
  -- and in every later one. The request queue must take nothing once the client has terminated, and
  -- a closed channel must stay closed when another is made and in the world outside.
  pub all_closed :
      (w : io.World) {u : System.System io}
      → Reach io mpsc B Outside (new_system io w) u
      → u.is_open ≡ false
      → All (λ t. io.is_closed t u.client.world ≡ true) u.accepted
  all_closed w {u} r down =
      let inv = Reach-Inv r (record { heard = tt; quiet = λ _. (refl, refl) }) in
      All-map io mpsc ch (IsHeard io mpsc ch u.client) _ u.accepted
        (λ t. IsHeard-IsClosed u.client t (inv.quiet down)) inv.heard
