-- ===== src/Protocol.antt =====
-- pkg/protocol/protocol.go: the messages between Core and a worker. A Go string of a fixed set of
-- constants is a data type: `unset` is the empty text, and `other` any further text. Texts are
-- valid Unicode, and an `int`, `int64` or `uint64` is a number whose range is stated where it
-- matters.
pub mod Validate
pub mod Grammar
pub mod Accepted
pub mod Wire
pub mod Roundtrip
use mini_av.Prelude.{ℕ, String, Option, List, Bool, true, false}
use mini_av.Prelude.Int.{ℤ}

pub data MessageType : Type 0 where
  unset hello health_check scan reload shutdown hello_ack health_result scan_result reload_result
        shutdown_ack :
      MessageType
  other : String → MessageType

pub data Verdict : Type 0 where
  unset clean malware error timeout unavailable : Verdict
  other : String → Verdict

-- const Version = 1
abbrev pub protocol_version : ℕ
protocol_version = 1

-- `capabilities` is `none` for a nil slice; a slice that is not nil may be empty.
pub record Message : Type 0 where
  pub version : ℤ
  pub type : MessageType
  pub request_id : ℕ
  pub scanner_id : String
  pub worker_version : String
  pub capabilities : Option (List String)
  pub file_path : String
  pub signature_path : String
  pub status : String
  pub verdict : Verdict
  pub signature : String
  pub duration_ms : ℤ
  pub success : Bool
  pub signature_count : ℤ
  pub error : String

-- The zero value, with a version and a type: `Message{Version: …, Type: …}`.
abbrev pub message_of : ℤ → MessageType → Message
message_of v t = record {
  version = v;
  type = t;
  request_id = 0;
  scanner_id = "";
  worker_version = "";
  capabilities = Option.none;
  file_path = "";
  signature_path = "";
  status = "";
  verdict = Verdict.unset;
  signature = "";
  duration_ms = ℤ.pos 0;
  success = false;
  signature_count = ℤ.pos 0;
  error = "";
}

-- Message{Version: protocol.Version, Type: t}
abbrev pub new_message : MessageType → Message
new_message t = message_of (ℤ.pos protocol_version) t

unfoldable pub valid_verdict : Verdict → Bool
valid_verdict Verdict.unset = false
valid_verdict (Verdict.other s) = false
valid_verdict _ = true

-- result.Type == ""
abbrev pub type_unset : MessageType → Bool
type_unset MessageType.unset = true
type_unset _ = false
