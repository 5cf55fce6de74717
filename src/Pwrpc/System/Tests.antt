-- ===== src/Pwrpc/System/Tests.antt =====
-- libmaestro/src/pwrpc/client.rs: a caller's call, a packet that is not for it, and the client's end.
use pbpctrl.Prelude.{
  ℕ, ◌≡◌, refl, sym, ap, inl, subst, List, [], ◌∷◌, Result, ok, err, some, true, All,
}
use pbpctrl.Pwrpc.Types.{RpcType, RpcPacket}
use pbpctrl.Pwrpc.Status.{Status, from_u32}
use pbpctrl.Pwrpc.Client.{
  CallRequest, CallUpdate, process_packet, process_request, rpc_complete, find_and_remove_call,
  same_uid, drop_call,
}
use pbpctrl.Pwrpc.Client.Logger.{delivers, Log, logger, channels, packet_of}
use pbpctrl.Pwrpc.Handle.{Request, request_uid, call}
use pbpctrl.Pwrpc.System
use pbpctrl.Pwrpc.System.Connected.{mpsc, opened}
use pbpctrl.Pwrpc.Client.Run.{packet, run, run_queue, run_events, handle_event}
use pbpctrl.Pwrpc.Id.{
  hash_65599, hash_loop, service, slice_to, new_path, rfind, byte_len, method, slice_from,
}
use pbpctrl.Pwrpc.Rpc.{UnaryRpc, new_unary, codes, request_for, unary_call, await_result}
use pbpctrl.Pwrpc.System.Answered.{unary_call_answered}
use System.{new_system, queues, next_request, terminated, on_client, Step, Reach}
use pbpctrl.Pwrpc.System.Heard.{Inv}
use pbpctrl.Pwrpc.Client.Callers.History.{IsHistory}
use pbpctrl.Pwrpc.System.Rule.{Reach-IsHistory}
use pbpctrl.Pwrpc.System.Closed.{Reach-Inv, all_closed}

-- Nothing happens outside.
abbrev Quiet : Log → Log → Type 0
Quiet w w' = w ≡ w'

stays :
    (t : ℕ) (w w' : Log) → Quiet w w' → logger.is_closed t w ≡ true → logger.is_closed t w' ≡ true
stays t w w' e h = subst (λ x. logger.is_closed t x ≡ true) e h

abbrev empty : Log
empty = record { log = λ t. []; shut = []; made = 0 }

abbrev request : Request
request = record { channel_id = 19; service_id = 5; method_id = 6; call_id = 1; message = 8 ∷ [] }

abbrev called : System.System logger
called =
    (call (queues logger mpsc) {B = ℕ} true RpcType.unary request [] (new_system logger empty)).1

abbrev waiting : CallRequest ℕ
waiting = CallRequest.new RpcType.unary (request_uid request) (8 ∷ []) 0 true

abbrev taken : System.System logger
taken = next_request logger mpsc waiting [] called

abbrev received : System.System logger
received = on_client logger mpsc taken (process_packet logger (packet_of 1 2) taken.client).1

steps : Reach logger mpsc ℕ Quiet (new_system logger empty) received
unfolding call process_request
steps =
    Reach.next
      (Reach.next (Reach.next Reach.here (Step.start_call true RpcType.unary request []))
        (Step.take waiting [] refl refl))
      (Step.receive (packet_of 1 2) refl)

opens :
    (t : ℕ) (w : Log) → logger.is_closed t w ≡ true → logger.is_closed t (mpsc.unbounded w).1 ≡ true
opens t w h = h

Reach-Inv_example : Inv logger mpsc channels received
Reach-Inv_example =
    Reach-Inv logger mpsc channels ℕ Quiet opened stays opens steps
      (record { heard = tt; quiet = λ _. (refl, refl) })

silent :
    (w w' : Log)
    → Quiet w w'
    → (w'.log 0 ≡ w.log 0) × (logger.is_closed 0 w ≡ true → logger.is_closed 0 w' ≡ true)
silent w w' e = (ap (λ x. x.log 0) (sym e), stays 0 w w' e)

Reach-IsHistory_example : IsHistory logger channels 0 received.client.world
Reach-IsHistory_example =
    Reach-IsHistory logger mpsc channels ℕ Quiet 0 silent (λ w. (refl, λ h. h)) steps (inl tt)

ended : Reach logger mpsc ℕ Quiet (new_system logger empty) (terminated logger mpsc received)
unfolding call
ended = Reach.next steps (Step.finish refl)

all_closed_example :
    All
      (λ t. logger.is_closed t (terminated logger mpsc received).client.world ≡ true)
      (terminated logger mpsc received).accepted
all_closed_example = all_closed logger mpsc channels ℕ Quiet opened stays opens empty ended refl

-- The call's sender is the one that was accepted.
accepted_one : (terminated logger mpsc received).accepted ≡ 0 ∷ []
unfolding call
accepted_one = refl

abbrev rpc : UnaryRpc
rpc = new_unary (codes "maestro_pw.Maestro/GetSoftwareInfo")

abbrev first_request : Request
first_request = request_for rpc.path 19 1 (8 ∷ [])

abbrev answer : RpcPacket
answer = record {
  type = 1;
  channel_id = 19;
  service_id = first_request.service_id;
  method_id = first_request.method_id;
  payload = 7 ∷ [];
  status = 0;
  call_id = 1;
}

abbrev only : List CallUpdate
only = CallUpdate.complete (7 ∷ []) Status.ok ∷ []

-- The message is its first byte.
abbrev first_byte : List ℕ → Result ℕ ℕ
first_byte [] = err 0
first_byte (b ∷ bytes) = ok b

kept :
    only
    ≡ (run logger 9
          (packet (ok answer) ∷ [])
          (unary_call
            (queues logger mpsc)
            {B = ℕ}
            rpc
            true
            19
            1
            (8 ∷ [])
            only
            (new_system logger empty)).1.client).1.world.log
        0
unfolding unary_call call run run_queue run_events handle_event process_packet process_request
    rpc_complete find_and_remove_call same_uid drop_call from_u32 hash_65599 hash_loop service
    slice_to new_path rfind byte_len method slice_from
kept = refl

unary_call_answered_example :
    (await_result
      (queues logger mpsc)
      first_byte
      (unary_call (queues logger mpsc) rpc true 19 1 (8 ∷ []) only (new_system logger empty))).0
    ≡ some (ok 7)
unfolding from_u32
unary_call_answered_example =
    unary_call_answered logger mpsc channels delivers first_byte true 9 rpc 19 1 (8 ∷ [])
      (new_system logger empty) answer only refl refl refl tt refl refl refl refl kept
