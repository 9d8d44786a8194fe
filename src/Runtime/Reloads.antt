-- ===== src/Runtime/Reloads.antt =====
-- beginReload, recordReloadResult, timeoutReload and activeWorker of pkg/coordinator/runtime.go.
use mini_av.Prelude.{String, Option, none, some, Bool, true, false, not, if◌then◌else◌, is_some}
use mini_av.Prelude.Equality.{string_eq}
use mini_av.Prelude.Table.{lookup}
use mini_av.Protocol.{MessageType, Message, new_message}
use mini_av.Coordinator.State.{WorkerKey, key_eq}
use mini_av.Runtime.State.{
  Channel, Reason, RuntimeError, RuntimeWorker, RuntimeState, WorkerConfig, ReloadResult, Effect,
  emit, put_worker, no_reload,
}
use mini_av.Runtime.Requests.{queue_worker_message}
use mini_av.Runtime.Failure.{handle_worker_failure}

abbrev pub refuse_reload : Channel → RuntimeError → RuntimeState → RuntimeState
refuse_reload c e s = emit (Effect.reply_reload c no_reload (some e)) s

abbrev pub reload_message : String → Message
reload_message path = record (new_message MessageType.reload) { signature_path = path }

module _ (text : Reason → String) where
  abbrev pub queue_reload :
      WorkerKey → RuntimeWorker → String → Channel → RuntimeState → RuntimeState
  queue_reload k w path reply s = elim (queue_worker_message w (reload_message path)) [
    | none ↦ handle_worker_failure text k (Reason.queue_full k) (
        refuse_reload reply (RuntimeError.failed (Reason.queue_full k))
          (put_worker k (record w { reload_reply = none; pending_signature_path = "" }) s))
    | some queued ↦ emit (Effect.start_reload_timer k) (
        put_worker k
          (record queued {
            reload_reply = some reply;
            pending_signature_path = path;
            reload_timer = true;
          })
          s)
  ]

  unfoldable pub begin_reload : String → String → Channel → RuntimeState → RuntimeState
  begin_reload id path reply s = elim (lookup id s.active) [
    | none ↦ refuse_reload reply (RuntimeError.no_active_worker id) s
    | some k ↦ elim (lookup k s.workers) [
      | none ↦ s
      | some w ↦
          if is_some w.reload_reply
          then refuse_reload reply (RuntimeError.reload_in_progress id) s
          else queue_reload k w path reply s
    ]
  ]

abbrev reload_result : RuntimeWorker → Message → ReloadResult
reload_result w m = record {
  scanner_id = w.key.scanner_id;
  worker_version = w.key.version;
  signature_count = m.signature_count;
}

abbrev reload_error : Message → Option RuntimeError
reload_error m = if not m.success then some (RuntimeError.worker_error m.error) else none

abbrev pub stop_timer : WorkerKey → Bool → RuntimeState → RuntimeState
stop_timer k true s = emit (Effect.stop_reload_timer k) s
stop_timer k false s = s

unfoldable pub record_reload_result :
    WorkerKey → RuntimeWorker → Message → RuntimeState → RuntimeState
record_reload_result k w m s = elim w.reload_reply [
  | none ↦ s
  | some reply ↦ emit (Effect.reply_reload reply (reload_result w m) (reload_error m)) (
      put_worker k
        (record w {
          signature_path = if not m.success then w.signature_path else w.pending_signature_path;
          pending_signature_path = "";
          reload_reply = none;
        })
        (stop_timer k w.reload_timer s))
]

unfoldable pub timeout_reload : WorkerKey → RuntimeState → RuntimeState
timeout_reload k s = elim (lookup k s.workers) [
  | none ↦ s
  | some w ↦ elim w.reload_reply [
    | none ↦ s
    | some reply ↦
        put_worker k (record w { reload_reply = none; pending_signature_path = "" })
          (refuse_reload reply RuntimeError.reload_timed_out s)
  ]
]

-- A route to a worker that is not there would be a nil dereference in Go.
unfoldable pub active_worker : String → RuntimeState → Option WorkerConfig × Option RuntimeError
active_worker id s = elim (lookup id s.active) [
  | none ↦ (none, some (RuntimeError.no_active_worker id))
  | some k ↦ elim (lookup k s.workers) [
    | none ↦ (none, none)
    | some w ↦ (
      some (record {
        scanner_id = k.scanner_id;
        worker_version = k.version;
        transport = w.transport;
        signature_path = w.signature_path;
      }),
      none,
    )
  ]
]
