-- ===== src/Pwrpc/Client/Table.antt =====
-- libmaestro/src/pwrpc/client.rs: what the list of pending calls stands for. To its users it is a table
-- that holds for each identifier the calls that wait under it, the oldest first.
pub mod Refines
use pbpctrl.Prelude.{
  ◌≡◌, refl, sym, ap, ◌∙◌, subst, List, [], ◌∷◌, ◌++◌, Option, none, some, ok, err, Bool, true,
  false, if◌then◌else◌, Bool-cases, Option-cases, arith, inl, inr, ◌==◌,
}
use mathlib.Core.Option as Opt
use pbpctrl.Pwrpc.Types.{RpcPacket, has_server_stream}
use pbpctrl.Pwrpc.Status.{Status, from_u32}
use pbpctrl.Pwrpc.Client
use Client.{
  CallUid, CallRequest, Call, Io, same_uid, from_packet, find_and_remove_call, find_call_mut,
  rpc_complete, rpc_complete_with_error, reject_stream, rpc_stream_push, process_packet,
  process_request, send_client_error, complete_with_error,
}
use pbpctrl.Pwrpc.Client.Run.{Event, packet, closed, request, handle_event}

abbrev pub Table : Type 0 → Type 0
Table S = CallUid → List (Call S)

pub same_uid_eq : (a b : CallUid) → same_uid a b ≡ true → a ≡ b
unfolding same_uid
same_uid_eq a b h = ground (arith, h)

module _ {S : Type 0} where
  -- The calls that wait under an identifier.
  unfoldable pub calls_of : List (Call S) → Table S
  calls_of [] u = []
  calls_of (c ∷ pending) u =
      let rest = calls_of pending u in if same_uid c.uid u then c ∷ rest else rest

  abbrev pub rest_of : List (Call S) → List (Call S)
  rest_of [] = []
  rest_of (c ∷ calls) = calls

  abbrev pub first_of : List (Call S) → Option (Call S)
  first_of [] = none
  first_of (c ∷ calls) = some c

  abbrev pub enqueue : Call S → Table S → Table S
  enqueue c table u = if same_uid c.uid u then table u ++ c ∷ [] else table u

  abbrev pub dequeue : CallUid → Table S → Table S
  dequeue uid table u = if same_uid uid u then rest_of (table u) else table u

  pub calls_of-find_call_mut :
      (uid : CallUid) (pending : List (Call S))
      → find_call_mut uid pending ≡ first_of (calls_of pending uid)
  unfolding find_call_mut calls_of
  calls_of-find_call_mut uid [] = refl
  calls_of-find_call_mut uid (c ∷ pending) =
      let rest = calls_of-find_call_mut uid pending in
      elim (Bool-cases (same_uid c.uid uid)) [ inl same ↦ rw same refl | inr other ↦ rw other rest ]

  pub calls_of-append :
      (pending : List (Call S)) (c : Call S) (u : CallUid)
      → calls_of (pending ++ c ∷ []) u ≡ enqueue c (calls_of pending) u
  unfolding calls_of
  calls_of-append [] c u = refl
  calls_of-append (d ∷ pending) c u =
      let rest = calls_of-append pending c u in
      elim (Bool-cases (same_uid d.uid u)) [
        | inl same ↦ elim (Bool-cases (same_uid c.uid u)) [
          | inl own ↦ rw (same, rest, own) refl
          | inr not ↦ rw (same, rest, not) refl
        ]
        | inr other ↦ rw (other, rest) refl
      ]

  -- What a removal leaves.
  abbrev pub left_of : List (Call S) → Option (Call S × List (Call S)) → List (Call S)
  left_of pending none = pending
  left_of pending (some r) = r.1

  left_of-map :
      (c : Call S) (pending : List (Call S)) (found : Option (Call S × List (Call S)))
      → left_of (c ∷ pending) (Opt.map (λ r. (r.0, c ∷ r.1)) found) ≡ c ∷ left_of pending found
  left_of-map c pending none = refl
  left_of-map c pending (some r) = refl

  pub find_and_remove_call-dequeue :
      (uid : CallUid) (pending : List (Call S)) (u : CallUid)
      → calls_of (left_of pending (find_and_remove_call uid pending)) u
        ≡ dequeue uid (calls_of pending) u
  unfolding find_and_remove_call calls_of
  find_and_remove_call-dequeue uid [] u = ground arith
  find_and_remove_call-dequeue uid (c ∷ pending) u =
      let rest = find_and_remove_call-dequeue uid pending u in
      elim (Bool-cases (same_uid c.uid uid)) [
        | inl same ↦ rw (same, same_uid_eq c.uid uid same) (ground arith)
        | inr other ↦
            rw (other, left_of-map c pending (find_and_remove_call uid pending))
              elim (Bool-cases (same_uid uid u)) [
                | inl own ↦
                    let apart : same_uid c.uid u ≡ false =
                      subst (λ x. same_uid c.uid x ≡ false) (same_uid_eq uid u own) other in
                    rw (rest, apart, own) refl
                | inr not ↦ rw (rest, not) refl
              ]
      ]

-- What each event does to the table.
module _ {S : Type 0} where
  abbrev pub dequeue_unless : Bool → CallUid → Table S → Table S
  dequeue_unless true uid table = table
  dequeue_unless false uid table = dequeue uid table

  -- A stream packet removes the call it is for, if that takes no stream.
  abbrev pub reject_first : Option (Call S) → CallUid → Table S → Table S
  reject_first none uid table = table
  reject_first (some c) uid table = dequeue_unless (has_server_stream c.type) uid table

  abbrev pub table_packet : RpcPacket → Table S → Table S
  table_packet p table =
      if p.type == 1
      then dequeue (from_packet p) table
      else if p.type == 5
      then dequeue (from_packet p) table
      else if p.type == 7
      then reject_first (first_of (table (from_packet p))) (from_packet p) table
      else table

  abbrev pub table_request : CallRequest S → Table S → Table S
  table_request (CallRequest.new type uid payload sender tx) table =
      enqueue (record { type = type; uid = uid; sender = sender }) table
  table_request (CallRequest.error uid code tx) table = dequeue uid table

module _ (io : Io) where
  abbrev pub table_event : Event io → Table io.Sender → Table io.Sender
  table_event (packet (ok p)) table = table_packet p table
  table_event (packet (err e)) table = table
  table_event closed table = table
  table_event (request r) table = table_request r table

  abbrev pub table_of : Client.Client io → Table io.Sender
  table_of client = calls_of client.pending

  abbrev pub table_events : List (Event io) → Table io.Sender → Table io.Sender
  table_events [] table = table
  table_events (e ∷ events) table = table_events events (table_event e table)

  abbrev pub table_requests : List (CallRequest io.Sender) → Table io.Sender → Table io.Sender
  table_requests [] table = table
  table_requests (r ∷ queue) table = table_requests queue (table_request r table)
