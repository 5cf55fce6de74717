-- ===== src/Pwrpc/Types.antt =====
-- libmaestro/src/pwrpc/types.rs, and the packet that the build generates from
-- libmaestro/proto/pw.rpc.packet.proto.
use pbpctrl.Prelude.{ℕ, List, Bool, true, false}

pub data RpcType : Type 0 where
  unary server_stream client_stream bidirectional_stream : RpcType

unfoldable pub has_server_stream : RpcType → Bool
has_server_stream RpcType.server_stream = true
has_server_stream RpcType.bidirectional_stream = true
has_server_stream RpcType.unary = false
has_server_stream RpcType.client_stream = false

unfoldable pub has_client_stream : RpcType → Bool
has_client_stream RpcType.client_stream = true
has_client_stream RpcType.bidirectional_stream = true
has_client_stream RpcType.unary = false
has_client_stream RpcType.server_stream = false

-- `type` holds the number of a packet type, which may be one that the client does not know.
pub record RpcPacket : Type 0 where
  pub type : ℕ
  pub channel_id : ℕ
  pub service_id : ℕ
  pub method_id : ℕ
  pub payload : List ℕ
  pub status : ℕ
  pub call_id : ℕ
