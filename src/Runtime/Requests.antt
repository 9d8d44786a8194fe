-- ===== src/Runtime/Requests.antt =====
-- queueWorkerMessage, requestWorkerShutdown, completeRequest and completeRequestIfReady of
-- pkg/coordinator/runtime.go.
use mini_av.Prelude.{
  ℕ, ◌-◌, Option, none, some, List, [], ◌∷◌, ◌++◌, Bool, true, ◌&&◌, if◌then◌else◌, ltb, nat_beq,
  length, is_some,
}
use mini_av.Prelude.Equality.{nat_eq}
use mini_av.Prelude.Table.{Table, lookup, insert, delete, find_entry}
use mini_av.Protocol
use mini_av.Protocol.{MessageType, Message, new_message, type_unset}
use mini_av.Aggregator.{aggregate}
use mini_av.Coordinator.State.{WorkerKey, key_eq, is_draining}
use mini_av.Runtime.State.{
  RuntimeWorker, RuntimeRequest, RuntimeState, ScanResult, Effect, emit, put_worker,
}

-- make(chan protocol.Message, 64)
abbrev pub queue_capacity : ℕ
queue_capacity = 64

-- The worker with the message in its queue, or `none` if the queue is full.
unfoldable pub queue_worker_message : RuntimeWorker → Message → Option RuntimeWorker
queue_worker_message w m =
    if ltb (length w.outbound) queue_capacity
    then some (record w { outbound = w.outbound ++ m ∷ [] })
    else none

-- A full queue ends in the worker's process being killed.
unfoldable pub request_worker_shutdown : WorkerKey → RuntimeWorker → RuntimeState → RuntimeState
unfolding queue_worker_message
request_worker_shutdown k w s =
    if w.shutdown_sent
    then s
    else (let asked = record w { shutdown_sent = true } in
        elim (queue_worker_message asked (new_message MessageType.shutdown)) [
          | none ↦ emit (Effect.kill k) (put_worker k asked s)
          | some queued ↦ put_worker k queued s
        ])

-- One worker of a request that is complete: it has one scan less in flight, and is asked to stop if
-- it was draining for this one.
unfoldable pub release_worker : WorkerKey → RuntimeState → RuntimeState
unfolding request_worker_shutdown
release_worker k s = elim (lookup k s.workers) [
  | none ↦ s
  | some w ↦
      if nat_beq w.in_flight 0
      then s
      else (let fewer = record w { in_flight = w.in_flight - 1 } in
          let kept = put_worker k fewer s in
          if is_draining w.state && nat_beq fewer.in_flight 0
          then request_worker_shutdown k fewer kept
          else kept)
]

unfoldable pub release_workers : Table WorkerKey Message → RuntimeState → RuntimeState
unfolding release_worker
release_workers [] s = s
release_workers ((k, m) ∷ results) s = release_workers results (release_worker k s)

abbrev pub verdicts : Table WorkerKey Message → List Protocol.Verdict
verdicts [] = []
verdicts ((k, m) ∷ results) = m.verdict ∷ verdicts results

unfoldable pub complete_request : RuntimeRequest → RuntimeState → RuntimeState
unfolding release_workers aggregate
complete_request r s =
    let released = release_workers r.results (emit (Effect.stop_scan_timer r.id) s) in
    let result : ScanResult = record {
      request_id = r.id;
      answer = aggregate (verdicts r.results);
      results = r.results;
    } in
    let answered = emit (Effect.reply_scan r.reply result) released in
    record answered { requests = delete r.id answered.requests }

-- Is a result of the request still awaited?
unfoldable pub awaits : RuntimeRequest → Bool
awaits r = is_some (find_entry (λ k m. type_unset m.type) r.results)

-- The request as it now is, stored, and completed if no result is awaited.
unfoldable pub complete_request_if_ready : RuntimeRequest → RuntimeState → RuntimeState
unfolding complete_request awaits
complete_request_if_ready r s =
    let stored = record s { requests = insert r.id r s.requests } in
    let completed = complete_request r stored in if awaits r then stored else completed
