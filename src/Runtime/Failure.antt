-- ===== src/Runtime/Failure.antt =====
-- handleWorkerFailure of pkg/coordinator/runtime.go. The text of a reason, which fmt makes, is a
-- parameter.
use mini_av.Prelude.{ℕ, String, none, some, [], ◌∷◌, ◌||◌, if◌then◌else◌}
use mini_av.Prelude.Equality.{◌==◌, nat_eq, string_eq}
use mini_av.Prelude.Table.{Table, lookup, insert, delete}
use mini_av.Protocol
use mini_av.Protocol.{MessageType, Message, new_message, type_unset}
use mini_av.Coordinator.State.{WorkerState, WorkerKey, key_eq, is_failed, is_retired}
use mini_av.Runtime.State.{
  Reason, RuntimeError, RuntimeWorker, RuntimeRequest, RuntimeState, Effect, emit, put_worker,
  answer_error, answer_reload, no_reload,
}
use mini_av.Runtime.Requests.{complete_request_if_ready}

-- A SCAN_RESULT that Core makes itself.
abbrev pub own_result : ℕ → Protocol.Verdict → String → Message
own_result id verdict error = record (new_message MessageType.scan_result) {
  request_id = id;
  verdict = verdict;
  error = error;
}

-- if active, exists := state.active[id]; exists && active == key { delete(…) }
unfoldable pub drop_route : WorkerKey → Table String WorkerKey → Table String WorkerKey
drop_route k active = elim (lookup k.scanner_id active) [
  | none ↦ active
  | some a ↦ if a == k then delete k.scanner_id active else active
]

module _ (text : Reason → String) where
  -- One request of the loop at the end: a result that the worker still owes is UNAVAILABLE.
  unfoldable pub lose_result : WorkerKey → Reason → RuntimeRequest → RuntimeState → RuntimeState
  unfolding complete_request_if_ready
  lose_result k reason r s = elim (lookup k r.results) [
    | none ↦ s
    | some m ↦
        if type_unset m.type
        then complete_request_if_ready
            (record r {
              results =
                  insert k (own_result r.id Protocol.Verdict.unavailable (text reason)) r.results;
            })
            s
        else s
  ]

  unfoldable pub lose_results :
      WorkerKey → Reason → Table ℕ RuntimeRequest → RuntimeState → RuntimeState
  unfolding lose_result
  lose_results k reason [] s = s
  lose_results k reason ((id, r) ∷ requests) s =
      lose_results k reason requests (lose_result k reason r s)

  -- The worker's own part: the state, its route, and the replies that wait for it.
  unfoldable pub mark_failed : WorkerKey → RuntimeWorker → Reason → RuntimeState → RuntimeState
  unfolding drop_route
  mark_failed k w reason s =
      let stopped = record w {
        state = WorkerState.failed;
        failure_reason = some reason;
        hello_reply = none;
        health_reply = none;
        reload_reply = none;
      } in
      let placed = emit (Effect.kill k) (put_worker k stopped s) in
      let unrouted = record placed { active = drop_route k placed.active } in
      answer_reload w.reload_reply no_reload (some (RuntimeError.failed reason)) (
        answer_error w.health_reply (some (RuntimeError.failed reason))
          (answer_error w.hello_reply (some (RuntimeError.failed reason)) unrouted))

  unfoldable pub handle_worker_failure : WorkerKey → Reason → RuntimeState → RuntimeState
  unfolding mark_failed lose_results
  handle_worker_failure k reason s = elim (lookup k s.workers) [
    | none ↦ s
    | some w ↦
        if is_failed w.state || is_retired w.state
        then s
        else lose_results k reason s.requests (mark_failed k w reason s)
  ]
