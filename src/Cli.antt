-- ===== src/Cli.antt =====
-- cli/src: the command line tool, from its arguments to its calls and reports.
pub mod Args
pub mod Command
pub mod Report
pub mod Session
pub mod Bluetooth
mod Tests
