-- ===== src/Runtime/Startup.antt =====
-- How pkg/coordinator/runtime.go brings a worker up: registerRuntimeWorker, beginHello,
-- beginHealth, activateRuntimeWorker and failRuntimeWorker.
use mini_av.Prelude.Int.{ℤ}
use mini_av.Prelude.{
  String, Option, none, some, [], Bool, false, ◌&&◌, not, if◌then◌else◌, nat_beq, is_some,
}
use mini_av.Prelude.Equality.{◌==◌, string_eq}
use mini_av.Prelude.Table.{lookup, insert, find_entry}
use mini_av.Process.{Child}
use mini_av.Protocol.{MessageType, new_message}
use mini_av.Coordinator.State.{
  WorkerState, WorkerKey, key_eq, is_starting, is_healthy, is_candidate,
}
use mini_av.Runtime.State.{
  Channel, Reason, RuntimeError, RuntimeWorker, RuntimeState, WorkerConfig, Effect, emit,
  put_worker,
}
use mini_av.Runtime.Requests.{queue_worker_message, request_worker_shutdown}
use mini_av.Runtime.Failure.{handle_worker_failure}

abbrev pub config_key : WorkerConfig → WorkerKey
config_key c = record { scanner_id = c.scanner_id; version = c.worker_version }

abbrev pub new_worker : WorkerConfig → Child → RuntimeWorker
new_worker c child = record {
  key = config_key c;
  child = child;
  transport = c.transport;
  outbound = [];
  state = WorkerState.starting;
  signature_path = c.signature_path;
  failure_reason = none;
  exit_code = ℤ.pos 0;
  exit_error = "";
  in_flight = 0;
  hello_reply = none;
  health_reply = none;
  reload_reply = none;
  reload_timer = false;
  pending_signature_path = "";
  shutdown_sent = false;
  shutdown_ack = false;
  exited = false;
}

abbrev pub is_rival : String → WorkerKey → RuntimeWorker → Bool
is_rival id k w = w.key.scanner_id == id && is_candidate w.state

-- A handler that returns an error returns it with the state, `none` for nil.
abbrev pub Outcome : Type 0
Outcome = Option RuntimeError × RuntimeState

unfoldable pub register_runtime_worker : WorkerConfig → Child → RuntimeState → Outcome
register_runtime_worker c child s = elim (lookup (config_key c) s.workers) [
  | some w ↦ (some (RuntimeError.already_registered (config_key c)), s)
  | none ↦ elim (find_entry (is_rival c.scanner_id) s.workers) [
    | some (j, w) ↦ (some (RuntimeError.has_candidate c.scanner_id w.key), s)
    | none ↦ (none, put_worker (config_key c) (new_worker c child) s)
  ]
]

-- previous.state = WorkerDraining, and the request to stop if no scan is in flight there.
unfoldable pub drain_previous : WorkerKey → RuntimeWorker → RuntimeState → RuntimeState
unfolding request_worker_shutdown
drain_previous k w s =
    let draining = record w { state = WorkerState.draining } in
    let placed = put_worker k draining s in
    if nat_beq w.in_flight 0 then request_worker_shutdown k draining placed else placed

-- worker.state = WorkerActive; state.active[key.ScannerID] = key
abbrev pub route : WorkerKey → RuntimeWorker → RuntimeState → RuntimeState
route k w s = record s {
  workers = insert k (record w { state = WorkerState.active }) s.workers;
  active = insert k.scanner_id k s.active;
}

-- A route to a worker that is not there would be a nil dereference in Go; nothing is drained then.
unfoldable pub drain_route : WorkerKey → RuntimeState → RuntimeState
unfolding drain_previous
drain_route k s = elim (lookup k.scanner_id s.active) [
  | none ↦ s
  | some previous ↦ elim (lookup previous s.workers) [
    | none ↦ s
    | some p ↦ drain_previous previous p s
  ]
]

unfoldable pub activate_runtime_worker : WorkerKey → RuntimeState → Outcome
unfolding drain_route
activate_runtime_worker k s = elim (lookup k s.workers) [
  | none ↦ (some (RuntimeError.not_healthy k), s)
  | some w ↦
      if not (is_healthy w.state)
      then (some (RuntimeError.not_healthy k), s)
      else (none, route k w (drain_route k s))
]

module _ (text : Reason → String) where
  -- A check that cannot be queued is answered, and fails the worker.
  abbrev queue_failed : WorkerKey → Channel → RuntimeState → RuntimeState
  queue_failed k reply s =
      handle_worker_failure text k (Reason.queue_full k)
        (emit (Effect.reply_error reply (some (RuntimeError.failed (Reason.queue_full k)))) s)

  unfoldable pub begin_hello : WorkerKey → Channel → RuntimeState → RuntimeState
  begin_hello k reply s = elim (lookup k s.workers) [
    | none ↦ emit (Effect.reply_error reply (some (RuntimeError.not_starting k))) s
    | some w ↦
        if not (is_starting w.state)
        then emit (Effect.reply_error reply (some (RuntimeError.not_starting k))) s
        else if is_some w.hello_reply
        then emit (Effect.reply_error reply (some (RuntimeError.hello_pending k))) s
        else elim (queue_worker_message w (new_message MessageType.hello)) [
          | none ↦ queue_failed k reply s
          | some queued ↦ put_worker k (record queued { hello_reply = some reply }) s
        ]
  ]

  unfoldable pub begin_health : WorkerKey → Channel → RuntimeState → RuntimeState
  begin_health k reply s = elim (lookup k s.workers) [
    | none ↦ emit (Effect.reply_error reply (some (RuntimeError.not_starting k))) s
    | some w ↦
        if not (is_starting w.state)
        then emit (Effect.reply_error reply (some (RuntimeError.not_starting k))) s
        else if is_some w.health_reply
        then emit (Effect.reply_error reply (some (RuntimeError.health_pending k))) s
        else elim (queue_worker_message w (new_message MessageType.health_check)) [
          | none ↦ queue_failed k reply s
          | some queued ↦ put_worker k (record queued { health_reply = some reply }) s
        ]
  ]

  unfoldable pub fail_runtime_worker : WorkerKey → String → RuntimeState → Outcome
  fail_runtime_worker k reason s = elim (lookup k s.workers) [
    | none ↦ (some (RuntimeError.not_registered k), s)
    | some w ↦
        if not (is_candidate w.state)
        then (some (RuntimeError.cannot_fail k w.state), s)
        else (none, emit (Effect.kill k) (handle_worker_failure text k (Reason.given reason) s))
  ]
