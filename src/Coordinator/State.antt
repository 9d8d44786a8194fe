-- ===== src/Coordinator/State.antt =====
-- The state of the actor of pkg/coordinator/coordinator.go, its commands and its errors. An error
-- is a value with the parts of its text.
use mini_av.Prelude.Int.{ℤ}
use mini_av.Prelude.{ℕ, String, ◌≡◌, ◌↔◌, Option, List, [], Bool, true, false, ◌&&◌, arith}
use mini_av.Prelude.Equality.{Eq, ◌==◌, string_eq}
use text.Mathlib.TextEquality.{eq_iff}
use mini_av.Prelude.Table.{Table}
use mini_av.Process.{Child, Exit, KillError}
use mini_av.Protocol.{Verdict}

pub data WorkerState : Type 0 where
  starting healthy active draining retired failed : WorkerState

abbrev pub is_starting : WorkerState → Bool
is_starting WorkerState.starting = true
is_starting _ = false

abbrev pub is_healthy : WorkerState → Bool
is_healthy WorkerState.healthy = true
is_healthy _ = false

abbrev pub is_active : WorkerState → Bool
is_active WorkerState.active = true
is_active _ = false

abbrev pub is_draining : WorkerState → Bool
is_draining WorkerState.draining = true
is_draining _ = false

abbrev pub is_retired : WorkerState → Bool
is_retired WorkerState.retired = true
is_retired _ = false

abbrev pub is_failed : WorkerState → Bool
is_failed WorkerState.failed = true
is_failed _ = false

-- registered.state == WorkerStarting || registered.state == WorkerHealthy
abbrev pub is_candidate : WorkerState → Bool
is_candidate WorkerState.starting = true
is_candidate WorkerState.healthy = true
is_candidate _ = false

pub record WorkerKey : Type 0 where
  pub scanner_id : String
  pub version : String

unfoldable pub key_beq : WorkerKey → WorkerKey → Bool
key_beq a b = a.scanner_id == b.scanner_id && a.version == b.version

pub key_beq_iff : (a b : WorkerKey) → (key_beq a b ≡ true) ↔ (a ≡ b)
unfolding key_beq
key_beq_iff a b = ground (arith, eq_iff a.scanner_id b.scanner_id, eq_iff a.version b.version)

instance abbrev pub key_eq : Eq WorkerKey
key_eq = record { same = key_beq; decides = key_beq_iff }

pub record Worker : Type 0 where
  pub key : WorkerKey
  pub child : Child
  pub pid : ℕ
  pub state : WorkerState
  pub failure_reason : String
  pub exit_code : ℤ
  pub exit_error : String

-- A verdict that is unset is a result that the worker still owes.
pub record Request : Type 0 where
  pub id : ℕ
  pub results : Table WorkerKey Verdict

pub record State : Type 0 where
  pub workers : Table WorkerKey Worker
  pub active : Table String WorkerKey
  pub requests : Table ℕ Request

abbrev pub initial : State
initial = record { workers = []; active = []; requests = [] }

pub data Error : Type 0 where
  empty_scanner_id empty_version nil_child empty_reason zero_request_id : Error
  already_registered not_registered : WorkerKey → Error
  has_candidate : String → WorkerKey → Error
  invalid_transition : WorkerKey → WorkerState → WorkerState → Error
  cannot_fail : WorkerKey → WorkerState → Error
  terminate_failed : WorkerKey → KillError → Error
  invalid_route : String → WorkerKey → Error
  in_flight : WorkerKey → ℕ → Error
  already_tracked no_workers not_tracked : ℕ → Error
  duplicated not_assigned has_result : WorkerKey → ℕ → Error
  cannot_receive : WorkerKey → WorkerState → Error
  invalid_verdict : Verdict → Error

pub data Command : Type 0 where
  register_worker : WorkerKey → Option Child → Command
  mark_healthy : WorkerKey → Command
  fail_worker : WorkerKey → String → Command
  activate_worker : WorkerKey → Command
  retire_worker : WorkerKey → Command
  track_request : ℕ → List WorkerKey → Command
  record_result : ℕ → WorkerKey → Verdict → Command
  snapshot : Command
  worker_exited : WorkerKey → Exit → Command

pub record WorkerSnapshot : Type 0 where
  pub key : WorkerKey
  pub pid : ℕ
  pub transport : String
  pub state : WorkerState
  pub failure_reason : String
  pub exit_code : ℤ
  pub exit_error : String

pub record Snapshot : Type 0 where
  pub workers : Table WorkerKey WorkerSnapshot
  pub active : Table String WorkerKey
  pub requests : Table ℕ Request

-- What the actor sends on the command's reply channel.
pub data Reply : Type 0 where
  error : Option Error → Reply
  snapshot_result : Snapshot → Reply
  nothing : Reply
