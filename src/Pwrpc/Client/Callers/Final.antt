-- ===== src/Pwrpc/Client/Callers/Final.antt =====
-- libmaestro/src/pwrpc/client.rs: what a packet that ends a call does, seen by the callers.
use pbpctrl.Prelude.{
  ◌≡◌, ◌⊎◌, refl, sym, ap, ◌∙◌, inl, inr, subst, Option-cases, List, [], ◌∷◌, ◌++◌, Option, none,
  some, ok, true, false, Bool-cases, ◌==◌, All, arith,
}
use mathlib.Core.Option as Opt
use pbpctrl.Pwrpc.Types.{RpcPacket}
use pbpctrl.Pwrpc.Status.{from_u32}
use pbpctrl.Pwrpc.Client.{
  CallUpdate, Call, Io, Client, from_packet, same_uid, find_and_remove_call, drop_call,
  rpc_complete, rpc_complete_with_error, process_packet,
}
use pbpctrl.Pwrpc.Client.Replies.{drop_call-closed}
use pbpctrl.Pwrpc.Client.Callers.{Channels}
use pbpctrl.Pwrpc.Client.Callers.Answer.{Delivers}

-- The last update of the call that a packet ends: the payload and the status of a response, which is
-- of type 1, and the status of a server error, which is of type 5.
pub data IsFinal (p : RpcPacket) : CallUpdate → Type 0 where
  response : p.type ≡ 1 → IsFinal p (CallUpdate.complete p.payload (from_u32 p.status))
  server_error : p.type ≡ 5 → IsFinal p (CallUpdate.error (from_u32 p.status))

module _ {S : Type 0} (p : RpcPacket) where
  -- The packet is one of the call.
  abbrev pub IsOwn : Call S → Type 0
  IsOwn c =
      (c.uid.channel ≡ p.channel_id)
      × (c.uid.service ≡ p.service_id)
      × (c.uid.method ≡ p.method_id)
      × (c.uid.call ≡ p.call_id)

  abbrev pub IsForeign : Call S → Type 0
  IsForeign c = IsOwn c → ⊥

  -- What the search for the packet's call finds, and what it leaves.
  abbrev Removes : List (Call S) → Option (Call S × List (Call S)) → Type 0
  Removes pending none = All IsForeign pending
  Removes pending (some (c, rest)) =
      (front : List (Call S)) × (back : List (Call S)) × (pending ≡ front ++ c ∷ back)
      × All IsForeign front
      × IsOwn c
      × (rest ≡ front ++ back)

  same_uid-IsOwn : (c : Call S) → same_uid c.uid (from_packet p) ≡ true → IsOwn c
  unfolding same_uid
  same_uid-IsOwn c h = ground (arith, h)

  IsOwn-same_uid : (c : Call S) → IsOwn c → same_uid c.uid (from_packet p) ≡ true
  unfolding same_uid
  IsOwn-same_uid c h = ground (arith, h)

  Removes-behind :
      (c : Call S) (pending : List (Call S)) (found : Option (Call S × List (Call S)))
      → IsForeign c
      → Removes pending found
      → Removes (c ∷ pending) (Opt.map (λ r. (r.0, c ∷ r.1)) found)
  Removes-behind c pending none foreign r = (foreign, r)
  Removes-behind c pending (some (d, rest)) foreign (front, back, split, others, own, left) =
      (c ∷ front, back, ap (λ t. c ∷ t) split, (foreign, others), own, ap (λ t. c ∷ t) left)

  find_and_remove_call-Removes :
      (pending : List (Call S)) → Removes pending (find_and_remove_call (from_packet p) pending)
  unfolding find_and_remove_call
  find_and_remove_call-Removes [] = tt
  find_and_remove_call-Removes (c ∷ pending) =
      let rest = find_and_remove_call-Removes pending in
      elim (Bool-cases (same_uid c.uid (from_packet p))) [
        | inl same ↦ rw same ([], pending, refl, tt, same_uid-IsOwn c same, refl)
        | inr other ↦ rw other (
            Removes-behind c pending (find_and_remove_call (from_packet p) pending)
              (λ own. let same = IsOwn-same_uid c own in ground (arith, same, other)) rest)
      ]

module _ (io : Io) (ch : Channels io) (delivers : Delivers io ch) where
  -- The first call of the packet is gone, and no other; its caller has the update, if the channel was
  -- open, and the channel is closed; no other caller is sent anything.
  pub record Ends (p : RpcPacket) (u : CallUpdate) (client after : Client io) : Type 0 where
    pub front : List (Call io.Sender)
    pub call : Call io.Sender
    pub back : List (Call io.Sender)
    pub split : client.pending ≡ front ++ call ∷ back
    pub earlier : All (IsForeign p) front
    pub own : IsOwn p call
    pub left : after.pending ≡ front ++ back
    pub queue : after.queue ≡ client.queue
    pub told :
        io.is_closed call.sender client.world ≡ false
        → ch.received call.sender after.world ≡ ch.received call.sender client.world ++ u ∷ []
    pub shut : io.is_closed call.sender after.world ≡ true
    pub silent :
        (t : io.Sender)
        → (call.sender ≡ t → ⊥)
        → ch.received t after.world ≡ ch.received t client.world

  -- What the code makes of the result of the search.
  abbrev ended :
      CallUpdate → Client io → Option (Call io.Sender × List (Call io.Sender)) → Client io
  ended u client none = client
  ended u client (some (c, rest)) = record client {
    pending = rest;
    world = drop_call io c (io.close_channel c.sender (io.unbounded_send c.sender u client.world));
  }

  ended-Ends :
      (p : RpcPacket) (u : CallUpdate) (client : Client io)
      (found : Option (Call io.Sender × List (Call io.Sender)))
      → Removes p client.pending found
      → (All (IsForeign p) client.pending × (ended u client found ≡ client))
        ⊎ Ends p u client (ended u client found)
  ended-Ends p u client none foreign = inl (foreign, refl)
  ended-Ends p u client (some (c, rest)) (front, back, split, earlier, own, left) =
      let sent = io.unbounded_send c.sender u client.world in
      let dropped : drop_call io c (io.close_channel c.sender sent)
          ≡ io.close_channel c.sender sent =
        drop_call-closed io ch.closed_self c sent in
      inr (record {
        front = front;
        call = c;
        back = back;
        split = split;
        earlier = earlier;
        own = own;
        left = left;
        queue = refl;
        told = λ is_open.
            ap (λ w. ch.received c.sender w) dropped
            ∙ ch.received_closed c.sender c.sender sent
            ∙ delivers.taken c.sender u client.world is_open;
        shut = ap (λ w. io.is_closed c.sender w) dropped ∙ ch.closed_self c.sender sent;
        silent = λ t other.
            ap (λ w. ch.received t w) dropped
            ∙ ch.received_closed c.sender t sent
            ∙ elim (ch.sent c.sender t u client.world) [
              | inl same ↦ same
              | inr (e, _, _) ↦ absurd (other e)
            ];
      })

  abbrev search : RpcPacket → Client io → Option (Call io.Sender × List (Call io.Sender))
  search p client = find_and_remove_call (from_packet p) client.pending

  rpc_complete-ended :
      (p : RpcPacket) (client : Client io)
      → rpc_complete io p client
        ≡ ended (CallUpdate.complete p.payload (from_u32 p.status)) client (search p client)
  unfolding rpc_complete
  rpc_complete-ended p client = elim (Option-cases (search p client)) [
    | inl e ↦ rw (rpc_complete, e) refl
    | inr (r, e) ↦ rw (rpc_complete, e) refl
  ]

  rpc_complete_with_error-ended :
      (p : RpcPacket) (client : Client io)
      → rpc_complete_with_error io p client
        ≡ ended (CallUpdate.error (from_u32 p.status)) client (search p client)
  unfolding rpc_complete_with_error
  rpc_complete_with_error-ended p client = elim (Option-cases (search p client)) [
    | inl e ↦ rw (rpc_complete_with_error, e) refl
    | inr (r, e) ↦ rw (rpc_complete_with_error, e) refl
  ]

  process_packet-ended :
      (p : RpcPacket) (u : CallUpdate) (client : Client io)
      → IsFinal p u
      → process_packet io p client ≡ (ok tt, ended u client (search p client))
  unfolding process_packet
  process_packet-ended p _ client (response type) =
      let is : (p.type == 1) ≡ true = ground (arith, type) in
      rw is (ap (λ c. (ok tt, c)) (rpc_complete-ended p client))
  process_packet-ended p _ client (server_error type) =
      let other : (p.type == 1) ≡ false = ground (arith, type) in
      let is : (p.type == 5) ≡ true = ground (arith, type) in
      rw (other, is) (ap (λ c. (ok tt, c)) (rpc_complete_with_error-ended p client))

  -- A response, or a server error, ends the first pending call with its channel, service, method and
  -- call, if there is one. That call is gone, and the others and the waiting requests are as before.
  -- Its caller's channel, if it was open, has delivered one more update, which is the response's
  -- payload and status, or the error's status, and is closed; no other channel delivers anything. If
  -- there is no such call, the packet changes nothing. In no case does the client fail. An open
  -- channel is taken to have its receiver, so that it takes what is sent over it.
  pub process_packet_final :
      (p : RpcPacket) (u : CallUpdate) (client : Client io)
      → IsFinal p u
      → let (r, after) = process_packet io p client in
        (r ≡ ok tt)
        × ((All (IsForeign p) client.pending × (after ≡ client)) ⊎ Ends p u client after)
  process_packet_final p u client final =
      let e = process_packet-ended p u client final in
      (
        ap (λ r. r.0) e,
        subst
            (λ after. (All (IsForeign p) client.pending × (after ≡ client)) ⊎ Ends p u client after)
            (ap (λ r. r.1) (sym e))
            (ended-Ends p u client (search p client)
              (find_and_remove_call-Removes p client.pending)),
      )
