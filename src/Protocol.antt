-- ===== src/Protocol.antt =====
-- libmaestro/src/protocol: addresses, the codec of RPC packets, and the choice of a channel.
pub mod Addr
pub mod Codec
pub mod Resolve
mod Tests
