-- ===== src/Gfps.antt =====
-- libgfps: the message stream of the Google Fast Pair Service, and a program that uses it.
pub mod Codec
pub mod Battery
pub mod Events
pub mod Ring
pub mod Connect
pub mod Listen
pub mod Query
mod Tests
