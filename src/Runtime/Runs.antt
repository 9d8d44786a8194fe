-- ===== src/Runtime/Runs.antt =====
-- Every event keeps what Bounds states, so every run of the loop of pkg/coordinator/runtime.go does.
use mini_av.Prelude.{
  ℕ, String, length, ◌≤◌, ◌≡◌, refl, Option, none, some, List, [], ◌∷◌, Bool, true, false, not,
  ◌||◌, ◌&&◌, arith, is_some, if_cases, option_cases,
}
use mini_av.Prelude.Equality.{◌==◌, nat_eq, string_eq}
use mini_av.Prelude.Table.{Table, lookup, insert, find_entry}
use mini_av.Process.{Exit}
use mini_av.Protocol
use mini_av.Protocol.{Message, MessageType, type_unset}
use mini_av.Coordinator.State.{WorkerState, WorkerKey, key_eq, is_draining, is_retired, is_failed}
use mini_av.Runtime.State.{Channel, Reason, RuntimeWorker, RuntimeRequest, RuntimeState, initial}
use mini_av.Runtime.Requests.{queue_capacity, queue_worker_message, complete_request, awaits}
use mini_av.Runtime.Scans.{
  no_message, active_keys, add_in_flight, assign_all, awaited, is_empty, scan_message, send_scans,
  begin_scan, next_id, record_runtime_scan_result, cut_short, timeout_scan,
}
use mini_av.Runtime.Shutdown.{
  handle_worker_exit, complete_all, drain_worker, drain_all, begin_shutdown, all_exited, close_all,
}
use mini_av.Runtime.Messages.{on_message, handle_worker_message}
use mini_av.Runtime.Loop.{
  Event, Texts, Turn, handle, stop_with, check_stopped, receive, step, turn, tail_of, run,
  write_worker,
}
use mini_av.Runtime.Bounds.{
  Fits, Present, Pending, Sound, queue-Fits, put_worker-Holds, request_worker_shutdown-Holds,
  complete_request-Sound, complete_request_if_ready-Sound, Pending-insert,
}
use mini_av.Runtime.Sound.{
  handle_worker_failure-Sound, begin_hello-Sound, begin_health-Sound, fail_runtime_worker-Sound,
  begin_reload-Sound, record_reload_result-Sound, timeout_reload-Sound,
  register_runtime_worker-Sound, activate_runtime_worker-Sound,
}

abbrev pub is_awaited : WorkerKey → Message → Bool
is_awaited k m = type_unset m.type

insert_awaits :
    (k : WorkerKey) (t : Table WorkerKey Message)
    → is_some (find_entry is_awaited (insert k no_message t)) ≡ true
unfolding insert find_entry
insert_awaits k [] = refl
insert_awaits k ((j, m) ∷ t) = ground (arith, insert_awaits k t)

awaited_awaits :
    (ks : List WorkerKey) (t : Table WorkerKey Message)
    → is_some (find_entry is_awaited t) ≡ true
    → is_some (find_entry is_awaited (awaited ks t)) ≡ true
unfolding awaited
awaited_awaits [] t h = h
awaited_awaits (k ∷ ks) t h = awaited_awaits ks (insert k no_message t) (insert_awaits k t)

-- A scan of a route at least awaits a result.
begun_awaits :
    (id : ℕ) (path : String) (c : Channel) (active : Table String WorkerKey)
    → is_empty active ≡ false
    → awaits (record { id = id; path = path; results = awaited (active_keys active) []; reply = c })
      ≡ true
unfolding awaits awaited
begun_awaits id path c [] h = cc
begun_awaits id path c ((i, k) ∷ active) h =
    awaited_awaits (active_keys active) (insert k no_message []) (insert_awaits k [])

assign_all-Sound : (ks : List WorkerKey) (s : RuntimeState) → Sound s → Sound (assign_all ks s)
unfolding assign_all
assign_all-Sound [] s h = h
assign_all-Sound (k ∷ ks) s h = assign_all-Sound ks (add_in_flight k s) (
    option_cases Sound (lookup k s.workers) _ _ (λ _. h)
      λ w e. put_worker-Holds Pending k _ s (h.0 k w e) h)

pub timeout_scan-Sound : (id : ℕ) (s : RuntimeState) → Sound s → Sound (timeout_scan id s)
unfolding timeout_scan
timeout_scan-Sound id s h =
    option_cases Sound (lookup id s.requests) _ _ (λ _. h)
      λ r _. complete_request-Sound (cut_short id Protocol.Verdict.timeout "scan timed out" r) s h

record_runtime_scan_result-Sound :
    (w : RuntimeWorker) (m : Message) (s : RuntimeState)
    → Sound s
    → Sound (record_runtime_scan_result w m s)
unfolding record_runtime_scan_result
record_runtime_scan_result-Sound w m s h =
    option_cases Sound (lookup m.request_id s.requests) _ _ (λ _. h)
      λ r _.
        option_cases Sound (lookup w.key r.results) _ _ (λ _. h)
          λ current _.
            if_cases Sound (not (type_unset current.type)) _ _ (λ _. h)
              (λ _. complete_request_if_ready-Sound _ s h)

complete_all-Sound :
    (rs : Table ℕ RuntimeRequest) (s : RuntimeState) → Sound s → Sound (complete_all rs s)
unfolding complete_all
complete_all-Sound [] s h = h
complete_all-Sound ((id, r) ∷ rs) s h =
    let short = cut_short id Protocol.Verdict.unavailable "core is shutting down" r in
    complete_all-Sound rs (complete_request short s) (complete_request-Sound short s h)

drain_worker-Sound : (k : WorkerKey) (s : RuntimeState) → Sound s → Sound (drain_worker k s)
unfolding drain_worker
drain_worker-Sound k s h =
    option_cases Sound (lookup k s.workers) _ _ (λ _. h)
      λ w e.
        if_cases Sound (is_failed w.state || is_retired w.state) _ _ (λ _. h)
          λ _.
            (let draining = record w { state = WorkerState.draining } in
              request_worker_shutdown-Holds Pending k draining _ (h.0 k w e)
                (put_worker-Holds Pending k draining s (h.0 k w e) h))

drain_all-Sound :
    (ws : Table WorkerKey RuntimeWorker) (s : RuntimeState) → Sound s → Sound (drain_all ws s)
unfolding drain_all
drain_all-Sound [] s h = h
drain_all-Sound ((k, w) ∷ ws) s h = drain_all-Sound ws _ (drain_worker-Sound k s h)

no_route : (ws : Table WorkerKey RuntimeWorker) → Present ws []
unfolding lookup
no_route ws id k h = absurd (ground arith)

begin_shutdown-Sound : (s : RuntimeState) → Sound s → Sound (begin_shutdown s)
unfolding begin_shutdown
begin_shutdown-Sound s h =
    let completed = complete_all s.requests s in
    let (q, p, r) = complete_all-Sound s.requests s h in
    drain_all-Sound completed.workers (record completed { active = [] })
      (q, no_route completed.workers, r)

close_all-Sound :
    (ws : Table WorkerKey RuntimeWorker) (s : RuntimeState) → Sound s → Sound (close_all ws s)
unfolding close_all
close_all-Sound [] s h = h
close_all-Sound ((k, w) ∷ ws) s h =
    close_all-Sound ws _ (if_cases Sound (is_retired w.state) _ _ (λ _. h) (λ _. h))

check_stopped-Sound : (texts : Texts) (s : RuntimeState) → Sound s → Sound (check_stopped texts s)
unfolding check_stopped
check_stopped-Sound texts s h = stops s.stop_reply
  where
    stops : (c : Option Channel) → Sound (stop_with texts c s)
    stops none = h
    stops (some c) =
        if_cases Sound (all_exited s.workers) _ _ (λ _. close_all-Sound s.workers _ h) (λ _. h)

module _ (text : Reason → String) where
  send_scans-Sound :
      (id : ℕ) (path : String) (ks : List WorkerKey) (s : RuntimeState)
      → Sound s
      → Sound (send_scans text id path ks s)
  unfolding send_scans
  send_scans-Sound id path [] s h = h
  send_scans-Sound id path (k ∷ ks) s h = send_scans-Sound id path ks _ (
      option_cases Sound (lookup k s.workers) _ _ (λ _. h)
        λ w e.
          option_cases Sound (queue_worker_message w (scan_message id path)) _ _
            (λ _. handle_worker_failure-Sound text k _ s h)
            λ queued q. put_worker-Holds Pending k queued s (queue-Fits w queued _ q) h)

  begin_scan-Sound :
      (path : String) (c : Channel) (s : RuntimeState) → Sound s → Sound (begin_scan text path c s)
  unfolding begin_scan
  begin_scan-Sound path c s h =
      if_cases Sound (is_some s.stop_reply) _ _ (λ _. h)
        λ _.
          if_cases Sound (is_empty s.active) _ _ (λ _. h)
            λ some_route.
              (let (q, p, r) = h in
                let id = next_id s.next_request_id in
                send_scans-Sound id path (active_keys s.active) _ (
                  assign_all-Sound (active_keys s.active) _ (
                    q,
                    p,
                    Pending-insert id _ s.requests (begun_awaits id path c s.active some_route) r,
                  )))

  handle_worker_exit-Sound :
      (k : WorkerKey) (exit : Exit) (s : RuntimeState)
      → Sound s
      → Sound (handle_worker_exit text k exit s)
  unfolding handle_worker_exit
  handle_worker_exit-Sound k exit s h =
      option_cases Sound (lookup k s.workers) _ _ (λ _. h)
        λ w e.
          if_cases Sound (is_draining w.state && w.shutdown_ack) _ _
            (λ _. put_worker-Holds Pending k _ s (h.0 k w e) h)
            λ _.
              if_cases Sound (is_retired w.state) _ _
                (λ _. put_worker-Holds Pending k _ s (h.0 k w e) h)
                (λ _.
                  handle_worker_failure-Sound text k _ _
                    (put_worker-Holds Pending k _ s (h.0 k w e) h))

  on_message-Sound :
      (t : MessageType) (k : WorkerKey) (w : RuntimeWorker) (m : Message) (s : RuntimeState)
      → Fits w
      → Sound s
      → Sound (on_message text t k w m s)
  unfolding on_message
  on_message-Sound MessageType.hello_ack k w m s f h =
      option_cases Sound w.hello_reply _ _ (λ _. handle_worker_failure-Sound text k _ s h)
        (λ c _. put_worker-Holds Pending k _ s f h)
  on_message-Sound MessageType.health_result k w m s f h =
      option_cases Sound w.health_reply _ _ (λ _. handle_worker_failure-Sound text k _ s h)
        λ c _.
          if_cases Sound (not (m.status == "ok")) _ _ (λ _. put_worker-Holds Pending k _ s f h)
            (λ _. put_worker-Holds Pending k _ s f h)
  on_message-Sound MessageType.scan_result k w m s f h = record_runtime_scan_result-Sound w m s h
  on_message-Sound MessageType.reload_result k w m s f h = record_reload_result-Sound k w m s f h
  on_message-Sound MessageType.shutdown_ack k w m s f h =
      if_cases Sound (not (is_draining w.state)) _ _ (λ _. handle_worker_failure-Sound text k _ s h)
        (λ _. put_worker-Holds Pending k _ s f h)
  on_message-Sound _ k w m s f h = handle_worker_failure-Sound text k _ s h

  handle_worker_message-Sound :
      (k : WorkerKey) (m : Message) (s : RuntimeState)
      → Sound s
      → Sound (handle_worker_message text k m s)
  unfolding handle_worker_message
  handle_worker_message-Sound k m s h =
      option_cases Sound (lookup k s.workers) _ _ (λ _. h)
        λ w e.
          if_cases Sound (is_failed w.state || is_retired w.state) _ _ (λ _. h)
            (λ _. on_message-Sound m.type k w m s (h.0 k w e) h)

handle-Sound : (texts : Texts) (e : Event) (s : RuntimeState) → Sound s → Sound (handle texts e s)
unfolding handle
handle-Sound texts (Event.register c child reply) s h = register_runtime_worker-Sound c child s h
handle-Sound texts (Event.hello k reply) s h = begin_hello-Sound texts.reason k reply s h
handle-Sound texts (Event.health k reply) s h = begin_health-Sound texts.reason k reply s h
handle-Sound texts (Event.activate k reply) s h = activate_runtime_worker-Sound k s h
handle-Sound texts (Event.fail k reason reply) s h =
    fail_runtime_worker-Sound texts.reason k reason s h
handle-Sound texts (Event.worker_message k m) s h = handle_worker_message-Sound texts.reason k m s h
handle-Sound texts (Event.worker_failure k reason) s h =
    handle_worker_failure-Sound texts.reason k _ s h
handle-Sound texts (Event.worker_exit k exit) s h = handle_worker_exit-Sound texts.reason k exit s h
handle-Sound texts (Event.scan path reply) s h = begin_scan-Sound texts.reason path reply s h
handle-Sound texts (Event.scan_timeout id) s h = timeout_scan-Sound id s h
handle-Sound texts (Event.reload id path reply) s h =
    begin_reload-Sound texts.reason id path reply s h
handle-Sound texts (Event.reload_timeout k) s h = timeout_reload-Sound k s h
handle-Sound texts (Event.snapshot reply) s h = h
handle-Sound texts (Event.active_worker_of id reply) s h = h
handle-Sound texts (Event.shutdown reply) s h = begin_shutdown-Sound _ h

receive-Sound : (texts : Texts) (e : Event) (s : RuntimeState) → Sound s → Sound (receive texts e s)
unfolding receive
receive-Sound texts (Event.shutdown reply) s h =
    if_cases Sound (is_some s.stop_reply) _ _ (λ _. h)
      (λ _. check_stopped-Sound texts _ (handle-Sound texts (Event.shutdown reply) s h))
receive-Sound texts e s h = check_stopped-Sound texts _ (handle-Sound texts e s h)

tail-Fits : (w : RuntimeWorker) → Fits w → length (tail_of w.outbound) ≤ queue_capacity
tail-Fits w f = shorter w.outbound f
  where
    shorter :
        (ms : List Message) → length ms ≤ queue_capacity → length (tail_of ms) ≤ queue_capacity
    shorter [] f = f
    shorter (m ∷ ms) f = omega arith

write_worker-Sound : (k : WorkerKey) (s : RuntimeState) → Sound s → Sound (write_worker k s)
unfolding write_worker
write_worker-Sound k s h =
    option_cases Sound (lookup k s.workers) _ _ (λ _. h)
      λ w e. put_worker-Holds Pending k _ s (tail-Fits w (h.0 k w e)) h

turn-Sound : (texts : Texts) (t : Turn) (s : RuntimeState) → Sound s → Sound (turn texts t s)
unfolding step
turn-Sound texts (Turn.receives e) s h =
    if_cases Sound s.stopped _ _ (λ _. h) (λ _. receive-Sound texts e s h)
turn-Sound texts (Turn.writes k) s h = write_worker-Sound k s h

run_from-Sound :
    (texts : Texts) (ts : List Turn) (s : RuntimeState) → Sound s → Sound (run texts ts s)
unfolding run
run_from-Sound texts [] s h = h
run_from-Sound texts (t ∷ ts) s h =
    run_from-Sound texts ts (turn texts t s) (turn-Sound texts t s h)

initial-Sound : Sound initial
unfolding lookup
initial-Sound = (λ k w h. absurd (ground arith), no_route [], λ id r h. absurd (ground arith))

-- After any turns of the loop and of the writers: no worker's queue is longer than its channel;
-- every route leads to a worker that is there, so that no lookup of a route's worker is a nil
-- pointer; and every scan that is kept still awaits a result.
pub run-Sound : (texts : Texts) (ts : List Turn) → Sound (run texts ts initial)
run-Sound texts ts = run_from-Sound texts ts initial initial-Sound
