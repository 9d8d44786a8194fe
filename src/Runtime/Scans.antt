-- ===== src/Runtime/Scans.antt =====
-- beginScan, recordRuntimeScanResult and timeoutScan of pkg/coordinator/runtime.go.
use mini_av.Prelude.{
  ℕ, ◌+◌, ◌%◌, ◌^◌, String, none, some, List, [], ◌∷◌, Bool, true, false, not, if◌then◌else◌,
  is_some,
}
use mini_av.Prelude.Equality.{nat_eq, string_eq}
use mini_av.Prelude.Table.{Table, lookup, insert, map_values}
use mini_av.Protocol
use mini_av.Protocol.{MessageType, Message, message_of, new_message, type_unset}
use mini_av.Prelude.Int.{ℤ}
use mini_av.Coordinator.State.{WorkerKey, key_eq}
use mini_av.Runtime.State.{
  Channel, Reason, RuntimeError, RuntimeWorker, RuntimeRequest, RuntimeState, Effect, emit,
  put_worker,
}
use mini_av.Runtime.Requests.{queue_worker_message, complete_request, complete_request_if_ready}
use mini_av.Runtime.Failure.{handle_worker_failure, own_result}

-- protocol.Message{}
abbrev pub no_message : Message
no_message = message_of (ℤ.pos 0) MessageType.unset

-- The keys of the active workers, in the order of the range.
abbrev pub active_keys : Table String WorkerKey → List WorkerKey
active_keys [] = []
active_keys ((id, k) ∷ active) = k ∷ active_keys active

-- worker.inFlight++; a key with no worker would be a nil dereference in Go.
abbrev pub add_in_flight : WorkerKey → RuntimeState → RuntimeState
add_in_flight k s = elim (lookup k s.workers) [
  | none ↦ s
  | some w ↦ put_worker k (record w { in_flight = w.in_flight + 1 }) s
]

unfoldable pub assign_all : List WorkerKey → RuntimeState → RuntimeState
assign_all [] s = s
assign_all (k ∷ keys) s = assign_all keys (add_in_flight k s)

unfoldable pub awaited : List WorkerKey → Table WorkerKey Message → Table WorkerKey Message
awaited [] results = results
awaited (k ∷ keys) results = awaited keys (insert k no_message results)

abbrev pub is_empty {ℓ} : {A : Type ℓ} → List A → Bool
is_empty [] = true
is_empty (x ∷ xs) = false

-- state.nextRequestID++, a uint64
abbrev pub next_id : ℕ → ℕ
next_id n = (n + 1) % 2 ^ 64

abbrev pub scan_message : ℕ → String → Message
scan_message id path = record (new_message MessageType.scan) { request_id = id; file_path = path }

module _ (text : Reason → String) where
  unfoldable pub send_scan : ℕ → String → WorkerKey → RuntimeState → RuntimeState
  send_scan id path k s = elim (lookup k s.workers) [
    | none ↦ s
    | some w ↦ elim (queue_worker_message w (scan_message id path)) [
      | none ↦ handle_worker_failure text k (Reason.queue_full k) s
      | some queued ↦ put_worker k queued s
    ]
  ]

  unfoldable pub send_scans : ℕ → String → List WorkerKey → RuntimeState → RuntimeState
  unfolding send_scan
  send_scans id path [] s = s
  send_scans id path (k ∷ keys) s = send_scans id path keys (send_scan id path k s)

  unfoldable pub begin_scan : String → Channel → RuntimeState → RuntimeState
  unfolding assign_all awaited send_scans
  begin_scan path reply s =
      if is_some s.stop_reply
      then emit (Effect.refuse_scan reply RuntimeError.shutting_down) s
      else if is_empty s.active
      then emit (Effect.refuse_scan reply RuntimeError.no_active_workers) s
      else (let id = next_id s.next_request_id in
          let keys = active_keys s.active in
          let request : RuntimeRequest = record {
            id = id;
            path = path;
            results = awaited keys [];
            reply = reply;
          } in
          let tracked = record s {
            next_request_id = id;
            requests = insert id request s.requests;
          } in
          send_scans id path keys (emit (Effect.start_scan_timer id) (assign_all keys tracked)))

unfoldable pub record_runtime_scan_result : RuntimeWorker → Message → RuntimeState → RuntimeState
record_runtime_scan_result w m s = elim (lookup m.request_id s.requests) [
  | none ↦ s
  | some r ↦ elim (lookup w.key r.results) [
    | none ↦ s
    | some current ↦
        if not (type_unset current.type)
        then s
        else complete_request_if_ready (record r { results = insert w.key m r.results }) s
  ]
]

-- The loop over the results of a request that is cut short.
abbrev pub fill : ℕ → Protocol.Verdict → String → WorkerKey → Message → Message
fill id verdict error k m = if type_unset m.type then own_result id verdict error else m

abbrev pub cut_short : ℕ → Protocol.Verdict → String → RuntimeRequest → RuntimeRequest
cut_short id verdict error r = record r { results = map_values (fill id verdict error) r.results }

unfoldable pub timeout_scan : ℕ → RuntimeState → RuntimeState
unfolding complete_request
timeout_scan id s = elim (lookup id s.requests) [
  | none ↦ s
  | some r ↦ complete_request (cut_short id Protocol.Verdict.timeout "scan timed out" r) s
]
