-- ===== src/Pwrpc.antt =====
-- libmaestro/src/pwrpc: the RPC layer.
pub mod Types
pub mod Status
pub mod Id
pub mod Client
pub mod Handle
pub mod System
pub mod Rpc
pub mod Utils
mod Tests
