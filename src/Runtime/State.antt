-- ===== src/Runtime/State.antt =====
-- The state of the event loop of pkg/coordinator/runtime.go. A reply channel is a number; what the
-- loop sends on channels, and the timers and kills that it asks for, go to the log, newest first.
use mini_av.Prelude.{ℕ, String, Option, none, some, List, [], ◌∷◌, Bool, false}
use mini_av.Prelude.Equality.{string_eq}
use mini_av.Prelude.Int.{ℤ}
use mini_av.Prelude.Table.{Table, insert}
use mini_av.Process.{Child}
use mini_av.Protocol.{MessageType, Message}
use mini_av.Aggregator.{Answer}
use mini_av.Coordinator.State.{WorkerState, WorkerKey, key_eq}

abbrev pub Channel : Type 0
Channel = ℕ

-- Why a worker failed. `given` is a text of the caller: of a transport error, or of StartWorker.
pub data Reason : Type 0 where
  unexpected_hello_ack unexpected_health_result unexpected_shutdown_ack exited_unexpectedly : Reason
  unexpected_message : MessageType → Reason
  queue_full : WorkerKey → Reason
  given : String → Reason

pub data RuntimeError : Type 0 where
  already_registered not_starting hello_pending health_pending not_healthy not_registered :
      WorkerKey → RuntimeError
  has_candidate : String → WorkerKey → RuntimeError
  cannot_fail : WorkerKey → WorkerState → RuntimeError
  identity_mismatch : String → String → RuntimeError
  unhealthy : String → RuntimeError
  shutting_down no_active_workers reload_timed_out shutdown_in_progress : RuntimeError
  no_active_worker reload_in_progress : String → RuntimeError
  failed : Reason → RuntimeError
  worker_error : String → RuntimeError

-- `failure_reason` is `none` for the empty text. The reply fields are nil channels if `none`.
pub record RuntimeWorker : Type 0 where
  pub key : WorkerKey
  pub child : Child
  pub transport : String
  pub outbound : List Message
  pub state : WorkerState
  pub signature_path : String
  pub failure_reason : Option Reason
  pub exit_code : ℤ
  pub exit_error : String
  pub in_flight : ℕ
  pub hello_reply : Option Channel
  pub health_reply : Option Channel
  pub reload_reply : Option Channel
  pub reload_timer : Bool
  pub pending_signature_path : String
  pub shutdown_sent : Bool
  pub shutdown_ack : Bool
  pub exited : Bool

-- A result whose message has no type is still awaited.
pub record RuntimeRequest : Type 0 where
  pub id : ℕ
  pub path : String
  pub results : Table WorkerKey Message
  pub reply : Channel

-- The fields of config.Worker that the loop sets or reads.
pub record WorkerConfig : Type 0 where
  pub scanner_id : String
  pub worker_version : String
  pub transport : String
  pub signature_path : String

pub record ScanResult : Type 0 where
  pub request_id : ℕ
  pub answer : Answer
  pub results : Table WorkerKey Message

pub record ReloadResult : Type 0 where
  pub scanner_id : String
  pub worker_version : String
  pub signature_count : ℤ

pub record WorkerView : Type 0 where
  pub key : WorkerKey
  pub pid : ℕ
  pub transport : String
  pub state : WorkerState
  pub failure_reason : Option Reason
  pub exit_code : ℤ
  pub exit_error : String

pub data Effect : Type 0 where
  reply_error : Channel → Option RuntimeError → Effect
  reply_scan : Channel → ScanResult → Effect
  refuse_scan : Channel → RuntimeError → Effect
  reply_reload : Channel → ReloadResult → Option RuntimeError → Effect
  reply_snapshot : Channel → List WorkerView → Effect
  reply_active : Channel → Option WorkerConfig → Option RuntimeError → Effect
  start_scan_timer stop_scan_timer : ℕ → Effect
  start_reload_timer stop_reload_timer : WorkerKey → Effect
  kill kill_after_grace close : WorkerKey → Effect

pub record RuntimeState : Type 0 where
  pub workers : Table WorkerKey RuntimeWorker
  pub active : Table String WorkerKey
  pub requests : Table ℕ RuntimeRequest
  pub next_request_id : ℕ
  pub stop_reply : Option Channel
  pub stopped : Bool
  pub log : List Effect

abbrev pub initial : RuntimeState
initial = record {
  workers = [];
  active = [];
  requests = [];
  next_request_id = 0;
  stop_reply = none;
  stopped = false;
  log = [];
}

abbrev pub emit : Effect → RuntimeState → RuntimeState
emit e s = record s { log = e ∷ s.log }

abbrev pub put_worker : WorkerKey → RuntimeWorker → RuntimeState → RuntimeState
put_worker k w s = record s { workers = insert k w s.workers }

-- A reply on a channel that may be nil.
abbrev pub answer_error : Option Channel → Option RuntimeError → RuntimeState → RuntimeState
answer_error none e s = s
answer_error (some c) e s = emit (Effect.reply_error c e) s

abbrev pub no_reload : ReloadResult
no_reload = record { scanner_id = ""; worker_version = ""; signature_count = ℤ.pos 0 }

abbrev pub answer_reload :
    Option Channel → ReloadResult → Option RuntimeError → RuntimeState → RuntimeState
answer_reload none r e s = s
answer_reload (some c) r e s = emit (Effect.reply_reload c r e) s
