-- ===== src/Hdlc.antt =====
-- libmaestro/src/hdlc/mod.rs and consts.rs: the frame, and the flag bytes and masks of its encoding.
pub mod Varint
pub mod Crc
pub mod Encoder
pub mod Decoder
pub mod Codec
mod Tests
use pbpctrl.Prelude.{ℕ, List}

pub record Frame : Type 0 where
  pub address : ℕ
  pub control : ℕ
  pub payload : List ℕ

abbrev pub frame_flag : ℕ
frame_flag = 0x7E

abbrev pub escape_flag : ℕ
escape_flag = 0x7D

abbrev pub escape_mask : ℕ
escape_mask = 0x20
