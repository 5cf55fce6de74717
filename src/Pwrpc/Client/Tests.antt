-- ===== src/Pwrpc/Client/Tests.antt =====
-- libmaestro/src/pwrpc/client.rs: the theorems about whole runs, at concrete clients.
use pbpctrl.Prelude.{◌≡◌, ◌⊎◌, refl, List, [], ◌∷◌, ok, true, false, All}
use pbpctrl.Pwrpc.Types.{RpcType, has_server_stream}
use pbpctrl.Pwrpc.Status.{Status, from_u32}
use pbpctrl.Pwrpc.Client.{
  CallUpdate, CallRequest, Client, process_packet, process_request, rpc_complete, rpc_stream_push,
  find_and_remove_call, find_call_mut, same_uid, drop_call, send_client_error,
}
use pbpctrl.Pwrpc.Client.Run.{
  Event, packet, closed, request, run, run_queue, run_events, handle_event,
}
use pbpctrl.Pwrpc.Client.Table.{table_of, table_events, table_requests}
use pbpctrl.Pwrpc.Client.Table.Refines.{run_refines}
use pbpctrl.Pwrpc.Client.Logger.{logger, channels, delivers, uid, packet_of}
use pbpctrl.Pwrpc.Client.Callers.Final.{IsFinal, IsForeign, Ends, process_packet_final}

abbrev client : Client logger
client = record {
  pending = record { type = RpcType.server_stream; uid = uid 1; sender = 1 } ∷ [];
  queue = CallRequest.new RpcType.unary (uid 2) [] 2 true ∷ [];
  world = record { log = λ t. []; shut = []; made = 3 };
}

abbrev events : List (Event logger)
events =
    packet (ok (packet_of 7 1))
    ∷ request (CallRequest.new RpcType.unary (uid 3) [] 3 true)
    ∷ packet (ok (packet_of 1 1))
    ∷ packet (ok (packet_of 1 2))
    ∷ packet (ok (packet_of 7 1))
    ∷ closed
    ∷ []

-- The stream's caller has the item and the end, and nothing of the late item.
streamed :
    (run logger 9 events client).1.world.log 1
    ≡ CallUpdate.stream_item (7 ∷ []) ∷ CallUpdate.complete (7 ∷ []) Status.ok ∷ []
unfolding run run_queue run_events handle_event process_packet process_request rpc_complete
    rpc_stream_push find_and_remove_call find_call_mut same_uid drop_call send_client_error
    has_server_stream from_u32
streamed = refl

other : same_uid (uid 1) (uid 2) ≡ false
unfolding same_uid
other = refl

-- A response to the second of three calls, one of which starts while the client runs.
abbrev three : List (Event logger)
three =
    request (CallRequest.new RpcType.unary (uid 3) [] 3 true)
    ∷ packet (ok (packet_of 1 2))
    ∷ packet (ok (packet_of 2 1))
    ∷ []

run_refines_example :
    table_of logger (run logger 9 three client).1
    ≡ table_events logger three (table_requests logger client.queue (table_of logger client))
unfolding run run_queue run_events handle_event process_packet process_request rpc_complete
    send_client_error find_and_remove_call same_uid drop_call
run_refines_example = run_refines logger 9 three client refl

abbrev pair : Client logger
pair = record client {
  pending =
      record { type = RpcType.unary; uid = uid 4; sender = 4 }
      ∷ record { type = RpcType.unary; uid = uid 5; sender = 5 }
      ∷ record { type = RpcType.unary; uid = uid 5; sender = 6 }
      ∷ [];
}

process_packet_final_example :
    ((process_packet logger (packet_of 1 5) pair).0 ≡ ok tt)
    × ((All (IsForeign (packet_of 1 5)) pair.pending
          × ((process_packet logger (packet_of 1 5) pair).1 ≡ pair))
        ⊎ Ends logger channels delivers
            (packet_of 1 5)
            (CallUpdate.complete (7 ∷ []) (from_u32 0))
            pair
            (process_packet logger (packet_of 1 5) pair).1)
process_packet_final_example =
    process_packet_final logger channels delivers (packet_of 1 5)
      (CallUpdate.complete (7 ∷ []) (from_u32 0)) pair (IsFinal.response refl)

-- The first of the two calls with the identifier is the one that ends.
pair_left :
    (process_packet logger (packet_of 1 5) pair).1.pending
    ≡ record { type = RpcType.unary; uid = uid 4; sender = 4 }
      ∷ record { type = RpcType.unary; uid = uid 5; sender = 6 }
      ∷ []
unfolding process_packet rpc_complete find_and_remove_call same_uid
pair_left = refl
