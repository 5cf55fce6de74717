-- ===== src/Service.antt =====
-- libmaestro/src/service: the settings of the buds, and the services that read and write them.
pub mod Settings
pub mod Messages
pub mod Maestro
mod Tests
