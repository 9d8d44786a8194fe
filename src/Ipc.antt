-- ===== src/Ipc.antt =====
-- pkg/ipc/ipc.go: messages on a stream, one JSON value on each line. A slice of bytes that
-- encoding/json reads or writes is a list of bytes by way of `Raw`.
pub mod Writing
pub mod Reading
pub mod Frames
pub mod Delivery
pub mod Limited
use mini_av.Prelude.{ℕ}
use mini_av.Signatures.Bytes.{Bytes}

-- const MaxFrameSize = 64 * 1024
abbrev pub max_frame_size : ℕ
max_frame_size = 65536

pub data FrameError : Type 0 where
  too_large unterminated : FrameError

pub record Raw (P : Type 0) : Type 0 where
  pub bytes : P → Bytes
  pub payload : Bytes → P
