-- ===== src/Pwrpc/System.antt =====
-- libmaestro/src/pwrpc/client.rs: the client together with its callers. A request that the queue
-- takes waits in the client's own queue, so each step of a caller is an operation of Handle.antt on
-- the whole system.
pub mod Heard
pub mod Closed
pub mod Answered
pub mod Rule
pub mod Connected
mod Tests
use pbpctrl.Prelude.{◌≡◌, List, [], ◌∷◌, ◌++◌, Result, Bool, true, false, if◌then◌else◌}
use pbpctrl.Pwrpc.Types.{RpcType, RpcPacket}
use pbpctrl.Pwrpc.Status.{Status}
use pbpctrl.Pwrpc.Client.{
  CallUpdate, CallRequest, Io, Client, Done, process_packet, process_request,
}
use pbpctrl.Pwrpc.Client.Terminate.{terminate}
use pbpctrl.Pwrpc.Handle.{Queues, Request, CallHandle, send_error, drop_handle, call, open_call}

-- `is_open` until the client terminates. `accepted` are the senders of the new calls that the queue
-- has taken: it records what happened, and no operation reads it.
pub record System (io : Io) : Type 0 where
  pub client : Client io
  pub is_open : Bool
  pub accepted : List io.Sender

-- `Client::new`.
abbrev pub new_system : (io : Io) → io.World → System io
new_system io w = record {
  client = record { pending = []; queue = []; world = w };
  is_open = true;
  accepted = [];
}

-- `mpsc::unbounded` for the updates of a call, and the callers' ends of the request queue. `takes` is
-- whether `unbounded_send` over an end succeeds.
pub record Mpsc (io : Io) : Type 1 where
  pub unbounded : io.World → io.Sender × io.World
  pub QueueTx : Type 0
  pub takes : QueueTx → System io → Bool
  pub is_closed : QueueTx → System io → Bool
  pub disconnect : QueueTx → QueueTx

-- What the documentation says of a queue: it takes no request once its receiver is closed.
abbrev pub TakesOpen : (io : Io) → Mpsc io → Type 0
TakesOpen io mpsc = (tx : mpsc.QueueTx) (s : System io) → mpsc.takes tx s ≡ true → s.is_open ≡ true

module _ (io : Io) (mpsc : Mpsc io) where
  abbrev pub accept : CallRequest io.Sender → List io.Sender → List io.Sender
  accept (CallRequest.new type uid payload sender tx) accepted = sender ∷ accepted
  accept (CallRequest.error uid code tx) accepted = accepted

  abbrev pub on_client : System io → Client io → System io
  on_client s client = record s { client = client }

  abbrev pub push_request : CallRequest io.Sender → System io → System io
  push_request r s = record s {
    client = record s.client { queue = s.client.queue ++ r ∷ [] };
    accepted = accept r s.accepted;
  }

  abbrev pub new_channel : System io → io.Sender × System io
  new_channel s =
      let (sender, w) = mpsc.unbounded s.client.world in
      (sender, on_client s (record s.client { world = w }))

  -- A request that is taken waits behind those that wait.
  abbrev pub send_request : mpsc.QueueTx → CallRequest io.Sender → System io → Bool × System io
  send_request tx r s = if mpsc.takes tx s then (true, push_request r s) else (false, s)

  abbrev pub queues : Queues
  queues = record {
    World = System io;
    Sender = io.Sender;
    QueueTx = mpsc.QueueTx;
    unbounded = new_channel;
    unbounded_send = send_request;
    is_closed = mpsc.is_closed;
    disconnect = mpsc.disconnect;
  }

  -- The client's run takes the first request that waits.
  abbrev pub next_request :
      CallRequest io.Sender → List (CallRequest io.Sender) → System io → System io
  next_request r rest s = on_client s (process_request io r (record s.client { queue = rest })).1

  abbrev pub terminated : System io → System io
  terminated s = record s { client = (terminate io s.client).1; is_open = false }

  -- What one caller, the client or the world outside does next. `updates` is what a caller's new
  -- channel will deliver. `Outside` is what callers may do with their receivers and the peer with the
  -- transport.
  module _ (B : Type 0) (Outside : io.World → io.World → Type 0) where
    pub data Step (s : System io) : System io → Type 0 where
      start_call :
          (tx : mpsc.QueueTx) (type : RpcType) (request : Request) (updates : List CallUpdate)
          → Step s (call queues {B = B} tx type request updates s).1
      start_open :
          (tx : mpsc.QueueTx) (type : RpcType) (request : Request) (updates : List CallUpdate)
          → Step s (open_call queues {B = B} tx type request updates s).1
      report :
          (h : CallHandle queues) (code : Status) (tx : Bool)
          → Step s (send_error queues h code tx s).2
      release : (h : CallHandle queues) → Step s (drop_handle queues h s)
      take :
          (r : CallRequest io.Sender) (rest : List (CallRequest io.Sender))
          → s.is_open ≡ true
          → s.client.queue ≡ r ∷ rest
          → Step s (next_request r rest s)
      receive :
          (p : RpcPacket) → s.is_open ≡ true → Step s (on_client s (process_packet io p s.client).1)
      finish : s.is_open ≡ true → Step s (terminated s)
      outside :
          (w : io.World)
          → Outside s.client.world w
          → Step s (on_client s (record s.client { world = w }))

    pub data Reach (s : System io) : System io → Type 0 where
      here : Reach s s
      next : {t u : System io} → Reach s t → Step t u → Reach s u
