-- ===== src/Runtime/Loop.antt =====
-- The loop `run` of pkg/coordinator/runtime.go over its events, with the writer goroutine that
-- takes a message off a worker's queue.
use mini_av.Prelude.{
  ℕ, String, Option, none, some, List, [], ◌∷◌, Bool, true, if◌then◌else◌, is_some,
}
use mini_av.Prelude.Table.{lookup}
use mini_av.Process.{Child, Exit}
use mini_av.Protocol.{Message}
use mini_av.Coordinator.State.{WorkerKey, key_eq}
use mini_av.Runtime.State.{
  Channel, Reason, RuntimeError, RuntimeState, WorkerConfig, Effect, emit, put_worker,
}
use mini_av.Runtime.Failure.{handle_worker_failure}
use mini_av.Runtime.Startup.{
  Outcome, register_runtime_worker, begin_hello, begin_health, activate_runtime_worker,
  fail_runtime_worker,
}
use mini_av.Runtime.Scans.{begin_scan, timeout_scan}
use mini_av.Runtime.Reloads.{begin_reload, timeout_reload, active_worker}
use mini_av.Runtime.Shutdown.{
  handle_worker_exit, begin_shutdown, all_exited, close_all, runtime_snapshot,
}
use mini_av.Runtime.Messages.{handle_worker_message}

pub data Event : Type 0 where
  register : WorkerConfig → Child → Channel → Event
  hello health activate : WorkerKey → Channel → Event
  fail : WorkerKey → String → Channel → Event
  worker_message : WorkerKey → Message → Event
  worker_failure : WorkerKey → String → Event
  worker_exit : WorkerKey → Exit → Event
  scan : String → Channel → Event
  scan_timeout : ℕ → Event
  reload : String → String → Channel → Event
  reload_timeout : WorkerKey → Event
  snapshot : Channel → Event
  active_worker_of : String → Channel → Event
  shutdown : Channel → Event

-- The writer goroutine: it takes the oldest message of the queue, if there is one.
abbrev pub tail_of {ℓ} : {A : Type ℓ} → List A → List A
tail_of [] = []
tail_of (x ∷ xs) = xs

unfoldable pub write_worker : WorkerKey → RuntimeState → RuntimeState
write_worker k s = elim (lookup k s.workers) [
  | none ↦ s
  | some w ↦ put_worker k (record w { outbound = tail_of w.outbound }) s
]

-- A turn of the loop, or of a worker's writer, which runs beside it.
pub data Turn : Type 0 where
  receives : Event → Turn
  writes : WorkerKey → Turn

-- What fmt and sort compute from texts: that of a reason, and the order of two keys.
pub record Texts : Type 0 where
  pub reason : Reason → String
  pub before : WorkerKey → WorkerKey → Bool

abbrev reply_outcome : Channel → Outcome → RuntimeState
reply_outcome c (e, s) = emit (Effect.reply_error c e) s

module _ (texts : Texts) where
  open texts use {reason as text, before}

  abbrev reply_active :
      Channel → Option WorkerConfig × Option RuntimeError → RuntimeState → RuntimeState
  reply_active c (w, e) s = emit (Effect.reply_active c w e) s

  -- The switch, but for the second shutdown, which leaves it by `continue`.
  unfoldable pub handle : Event → RuntimeState → RuntimeState
  handle (register c child reply) s = reply_outcome reply (register_runtime_worker c child s)
  handle (hello k reply) s = begin_hello text k reply s
  handle (health k reply) s = begin_health text k reply s
  handle (activate k reply) s = reply_outcome reply (activate_runtime_worker k s)
  handle (fail k reason reply) s = reply_outcome reply (fail_runtime_worker text k reason s)
  handle (worker_message k m) s = handle_worker_message text k m s
  handle (worker_failure k reason) s = handle_worker_failure text k (Reason.given reason) s
  handle (worker_exit k exit) s = handle_worker_exit text k exit s
  handle (scan path reply) s = begin_scan text path reply s
  handle (scan_timeout id) s = timeout_scan id s
  handle (reload id path reply) s = begin_reload text id path reply s
  handle (reload_timeout k) s = timeout_reload k s
  handle (snapshot reply) s =
      emit (Effect.reply_snapshot reply (runtime_snapshot before s.workers)) s
  handle (active_worker_of id reply) s = reply_active reply (active_worker id s) s
  handle (shutdown reply) s = begin_shutdown (record s { stop_reply = some reply })

  -- if state.stopReply != nil && runtime.allWorkersStopped(state) { … return }
  abbrev pub stop_with : Option Channel → RuntimeState → RuntimeState
  stop_with none s = s
  stop_with (some reply) s =
      if all_exited s.workers
      then close_all s.workers (record (emit (Effect.reply_error reply none) s) { stopped = true })
      else s

  unfoldable pub check_stopped : RuntimeState → RuntimeState
  unfolding all_exited close_all
  check_stopped s = stop_with s.stop_reply s

  abbrev in_progress : Channel → RuntimeState → RuntimeState
  in_progress reply s = emit (Effect.reply_error reply (some RuntimeError.shutdown_in_progress)) s

  unfoldable pub receive : Event → RuntimeState → RuntimeState
  unfolding handle check_stopped
  receive (shutdown reply) s =
      if is_some s.stop_reply
      then in_progress reply s
      else check_stopped (handle (shutdown reply) s)
  receive event s = check_stopped (handle event s)

  -- A loop that has returned receives nothing.
  unfoldable pub step : Event → RuntimeState → RuntimeState
  unfolding receive
  step event s = if s.stopped then s else receive event s

  abbrev pub turn : Turn → RuntimeState → RuntimeState
  turn (receives event) s = step event s
  turn (writes k) s = write_worker k s

  -- The loop and the writers, in any order of their turns.
  unfoldable pub run : List Turn → RuntimeState → RuntimeState
  unfolding step write_worker
  run [] s = s
  run (t ∷ turns) s = run turns (turn t s)
