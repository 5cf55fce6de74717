-- ===== src/Pwrpc/Client/Callers.antt =====
-- libmaestro/src/pwrpc/client.rs: what a caller's channel has delivered. The laws state what the
-- documentation of `futures::channel::mpsc` says of `unbounded_send`, `close_channel` and `is_closed`.
pub mod History
pub mod Closing
pub mod Serving
pub mod Answer
pub mod Final
use pbpctrl.Prelude.{◌≡◌, ◌⊎◌, List, [], ◌∷◌, ◌++◌, Bool, true, false, All}
use pbpctrl.Pwrpc.Types.{RpcPacket}
use pbpctrl.Pwrpc.Client.{CallUpdate, Io}

-- `received s w` are the updates that the channel of `s` has taken so far, in order.
pub record Channels (io : Io) : Type 0 where
  pub received : io.Sender → io.World → List CallUpdate
  -- An update is taken by the channel it is sent over and by no other, and by that only if it is
  -- open.
  pub sent :
      (s t : io.Sender) (u : CallUpdate) (w : io.World)
      → (received t (io.unbounded_send s u w) ≡ received t w)
        ⊎ ((s ≡ t)
            × (io.is_closed t w ≡ false)
            × (received t (io.unbounded_send s u w) ≡ received t w ++ u ∷ []))
  pub closed_self : (s : io.Sender) (w : io.World) → io.is_closed s (io.close_channel s w) ≡ true
  pub received_closed :
      (s t : io.Sender) (w : io.World) → received t (io.close_channel s w) ≡ received t w
  pub received_sent :
      (t : io.Sender) (p : RpcPacket) (w : io.World) → received t (io.send p w).1 ≡ received t w
  pub received_end : (t : io.Sender) (w : io.World) → received t (io.close w).1 ≡ received t w
  -- A closed channel stays closed.
  pub stays_sent :
      (s t : io.Sender) (u : CallUpdate) (w : io.World)
      → io.is_closed t w ≡ true
      → io.is_closed t (io.unbounded_send s u w) ≡ true
  pub stays_closed :
      (s t : io.Sender) (w : io.World)
      → io.is_closed t w ≡ true
      → io.is_closed t (io.close_channel s w) ≡ true
  pub stays_send :
      (t : io.Sender) (p : RpcPacket) (w : io.World)
      → io.is_closed t w ≡ true
      → io.is_closed t (io.send p w).1 ≡ true
  pub stays_end :
      (t : io.Sender) (w : io.World)
      → io.is_closed t w ≡ true
      → io.is_closed t (io.close w).1 ≡ true

abbrev pub is_item : CallUpdate → Bool
is_item (CallUpdate.stream_item _) = true
is_item _ = false

abbrev pub AreItems : List CallUpdate → Type 0
AreItems us = All (λ u. is_item u ≡ true) us
