-- ===== src/Runtime/Shutdown.antt =====
-- handleWorkerExit, beginShutdown, allWorkersStopped, the deferred end of `run`, and
-- runtimeSnapshot of pkg/coordinator/runtime.go.
use mini_av.Prelude.{
  ℕ, String, Option, none, some, List, [], ◌∷◌, Bool, true, ◌&&◌, ◌||◌, if◌then◌else◌,
}
use mini_av.Prelude.Table.{Table, lookup}
use mini_av.Process.{Exit}
use mini_av.Protocol
use mini_av.Coordinator.State.{WorkerState, WorkerKey, key_eq, is_draining, is_retired, is_failed}
use mini_av.Runtime.State.{
  Reason, RuntimeWorker, RuntimeRequest, RuntimeState, WorkerView, Effect, emit, put_worker,
}
use mini_av.Runtime.Requests.{request_worker_shutdown, complete_request}
use mini_av.Runtime.Failure.{handle_worker_failure}
use mini_av.Runtime.Scans.{cut_short}

abbrev text_or : Option String → String → String
text_or none old = old
text_or (some new) old = new

module _ (text : Reason → String) where
  unfoldable pub handle_worker_exit : WorkerKey → Exit → RuntimeState → RuntimeState
  handle_worker_exit k exit s = elim (lookup k s.workers) [
    | none ↦ s
    | some w ↦
        (let noted = record w {
          exit_code = exit.code;
          exited = true;
          exit_error = text_or exit.err w.exit_error;
        } in
          let placed = put_worker k noted s in
          if is_draining w.state && w.shutdown_ack
          then put_worker k (record noted { state = WorkerState.retired }) s
          else if is_retired w.state
          then placed
          else handle_worker_failure text k Reason.exited_unexpectedly placed)
  ]

-- Every scan in flight is answered, with UNAVAILABLE for what is awaited.
unfoldable pub complete_all : Table ℕ RuntimeRequest → RuntimeState → RuntimeState
unfolding complete_request
complete_all [] s = s
complete_all ((id, r) ∷ requests) s =
    complete_all requests
      (complete_request (cut_short id Protocol.Verdict.unavailable "core is shutting down" r) s)

unfoldable pub drain_worker : WorkerKey → RuntimeState → RuntimeState
unfolding request_worker_shutdown
drain_worker k s = elim (lookup k s.workers) [
  | none ↦ s
  | some w ↦
      if is_failed w.state || is_retired w.state
      then s
      else (let draining = record w { state = WorkerState.draining } in
          request_worker_shutdown k draining (put_worker k draining s))
]

unfoldable pub drain_all : Table WorkerKey RuntimeWorker → RuntimeState → RuntimeState
unfolding drain_worker
drain_all [] s = s
drain_all ((k, w) ∷ workers) s = drain_all workers (drain_worker k s)

unfoldable pub begin_shutdown : RuntimeState → RuntimeState
unfolding complete_all drain_all
begin_shutdown s =
    let completed = complete_all s.requests s in
    drain_all completed.workers (record completed { active = [] })

unfoldable pub all_exited : Table WorkerKey RuntimeWorker → Bool
all_exited [] = true
all_exited ((k, w) ∷ workers) = w.exited && all_exited workers

-- The deferred function of `run`.
unfoldable pub close_all : Table WorkerKey RuntimeWorker → RuntimeState → RuntimeState
close_all [] s = s
close_all ((k, w) ∷ workers) s = close_all workers (
    if is_retired w.state
    then emit (Effect.close k) s
    else emit (Effect.kill k) (emit (Effect.close k) s))

abbrev view_of : RuntimeWorker → WorkerView
view_of w = record {
  key = w.key;
  pid = w.child.pid;
  transport = w.transport;
  state = w.state;
  failure_reason = w.failure_reason;
  exit_code = w.exit_code;
  exit_error = w.exit_error;
}

-- sort.Slice by the text of the key; `before` compares two such texts.
module _ (before : WorkerKey → WorkerKey → Bool) where
  unfoldable pub insert_view : WorkerView → List WorkerView → List WorkerView
  insert_view v [] = v ∷ []
  insert_view v (u ∷ views) =
      let rest = insert_view v views in if before u.key v.key then u ∷ rest else v ∷ u ∷ views

  unfoldable pub runtime_snapshot : Table WorkerKey RuntimeWorker → List WorkerView
  unfolding insert_view
  runtime_snapshot [] = []
  runtime_snapshot ((k, w) ∷ workers) = insert_view (view_of w) (runtime_snapshot workers)
