-- ===== src/Runtime/Messages.antt =====
-- handleWorkerMessage of pkg/coordinator/runtime.go.
use mini_av.Prelude.{String, Option, none, some, true, ◌||◌, not, if◌then◌else◌}
use mini_av.Prelude.Equality.{◌==◌, string_eq}
use mini_av.Prelude.Table.{lookup}
use mini_av.Protocol.{MessageType, Message}
use mini_av.Coordinator.State.{WorkerState, WorkerKey, key_eq, is_draining, is_failed, is_retired}
use mini_av.Runtime.State.{
  Reason, RuntimeError, RuntimeWorker, RuntimeState, Effect, emit, put_worker,
}
use mini_av.Runtime.Failure.{handle_worker_failure}
use mini_av.Runtime.Scans.{record_runtime_scan_result}
use mini_av.Runtime.Reloads.{record_reload_result}

abbrev identity_error : RuntimeWorker → Message → Option RuntimeError
identity_error w m =
    if not (m.scanner_id == w.key.scanner_id) || not (m.worker_version == w.key.version)
    then some (RuntimeError.identity_mismatch m.scanner_id m.worker_version)
    else none

module _ (text : Reason → String) where
  unfoldable pub on_hello_ack : WorkerKey → RuntimeWorker → Message → RuntimeState → RuntimeState
  on_hello_ack k w m s = elim w.hello_reply [
    | none ↦ handle_worker_failure text k Reason.unexpected_hello_ack s
    | some reply ↦
        emit (Effect.reply_error reply (identity_error w m))
          (put_worker k (record w { hello_reply = none }) s)
  ]

  unfoldable pub on_health_result :
      WorkerKey → RuntimeWorker → Message → RuntimeState → RuntimeState
  on_health_result k w m s = elim w.health_reply [
    | none ↦ handle_worker_failure text k Reason.unexpected_health_result s
    | some reply ↦
        if not (m.status == "ok")
        then emit (Effect.reply_error reply (some (RuntimeError.unhealthy m.error)))
            (put_worker k (record w { health_reply = none }) s)
        else emit (Effect.reply_error reply none)
            (put_worker k (record w { state = WorkerState.healthy; health_reply = none }) s)
  ]

  unfoldable pub on_shutdown_ack : WorkerKey → RuntimeWorker → RuntimeState → RuntimeState
  on_shutdown_ack k w s =
      if not (is_draining w.state)
      then handle_worker_failure text k Reason.unexpected_shutdown_ack s
      else emit (Effect.kill_after_grace k) (put_worker k (record w { shutdown_ack = true }) s)

  -- The switch on the message's type.
  unfoldable pub on_message :
      MessageType → WorkerKey → RuntimeWorker → Message → RuntimeState → RuntimeState
  unfolding on_hello_ack on_health_result on_shutdown_ack
  on_message MessageType.hello_ack k w m s = on_hello_ack k w m s
  on_message MessageType.health_result k w m s = on_health_result k w m s
  on_message MessageType.scan_result k w m s = record_runtime_scan_result w m s
  on_message MessageType.reload_result k w m s = record_reload_result k w m s
  on_message MessageType.shutdown_ack k w m s = on_shutdown_ack k w s
  on_message t k w m s = handle_worker_failure text k (Reason.unexpected_message t) s

  unfoldable pub handle_worker_message : WorkerKey → Message → RuntimeState → RuntimeState
  unfolding on_message
  handle_worker_message k m s = elim (lookup k s.workers) [
    | none ↦ s
    | some w ↦ if is_failed w.state || is_retired w.state then s else on_message m.type k w m s
  ]
