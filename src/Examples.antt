-- ===== src/Examples.antt =====
-- libmaestro/examples: programs that read and change the settings and the state of the device.
pub mod Battery
pub mod Listen
pub mod Settings
mod Tests
