-- ===== src/Runtime/Sound.antt =====
-- The handlers of pkg/coordinator/runtime.go for a single worker keep what Bounds states.
use mini_av.Prelude.{
  ℕ, String, Option, none, some, [], ◌∷◌, Bool, true, false, not, ◌||◌, arith, is_some, if_cases,
  option_cases, nat_beq,
}
use mini_av.Prelude.Equality.{◌==◌, nat_eq, string_eq}
use mini_av.Prelude.Table.{Table, lookup, find_entry, lookup-insert, lookup-delete}
use mini_av.Process.{Child}
use mini_av.Protocol.{Message, MessageType, new_message, type_unset}
use mini_av.Coordinator.State.{
  WorkerState, WorkerKey, key_eq, key_beq_iff, is_retired, is_failed, is_healthy, is_starting,
  is_candidate,
}
use mini_av.Runtime.State.{
  Channel, Reason, RuntimeError, RuntimeWorker, RuntimeRequest, RuntimeState, WorkerConfig,
  ReloadResult, answer_error, answer_reload,
}
use mini_av.Runtime.Requests.{queue_worker_message}
use mini_av.Runtime.Failure.{
  drop_route, lose_result, lose_results, mark_failed, handle_worker_failure,
}
use mini_av.Runtime.Startup.{
  Outcome, config_key, new_worker, is_rival, register_runtime_worker, drain_previous, route,
  drain_route, activate_runtime_worker, begin_hello, begin_health, fail_runtime_worker,
}
use mini_av.Runtime.Reloads.{
  reload_message, queue_reload, begin_reload, record_reload_result, stop_timer, timeout_reload,
}
use mini_av.Runtime.Bounds.{
  Fits, Present, Pending, Sound, queue-Fits, put_worker-Holds, request_worker_shutdown-Holds,
  complete_request_if_ready-Sound,
}

answer_error-Sound :
    (c : Option Channel) (e : Option RuntimeError) (s : RuntimeState)
    → Sound s
    → Sound (answer_error c e s)
answer_error-Sound none e s h = h
answer_error-Sound (some c) e s h = h

answer_reload-Sound :
    (c : Option Channel) (r : ReloadResult) (e : Option RuntimeError) (s : RuntimeState)
    → Sound s
    → Sound (answer_reload c r e s)
answer_reload-Sound none r e s h = h
answer_reload-Sound (some c) r e s h = h

drop_route-Present :
    (k : WorkerKey) (ws : Table WorkerKey RuntimeWorker) (active : Table String WorkerKey)
    → Present ws active
    → Present ws (drop_route k active)
unfolding drop_route
drop_route-Present k ws active p =
    option_cases (Present ws) (lookup k.scanner_id active) _ _ (λ _. p)
      λ a _.
        if_cases (Present ws) (a == k) _ _
          (λ _ id j h. ground (arith, lookup-delete k.scanner_id id active, p id j)) (λ _. p)

mark_failed-Sound :
    (text : Reason → String) (k : WorkerKey) (w : RuntimeWorker) (reason : Reason)
    (s : RuntimeState)
    → Fits w
    → Sound s
    → Sound (mark_failed text k w reason s)
unfolding mark_failed
mark_failed-Sound text k w reason s f h =
    let (q, p, r) =
      put_worker-Holds Pending k
        (record w {
          state = WorkerState.failed;
          failure_reason = some reason;
          hello_reply = none;
          health_reply = none;
          reload_reply = none;
        })
        s f h in
    answer_reload-Sound w.reload_reply _ _ _ (
      answer_error-Sound w.health_reply _ _
        (answer_error-Sound w.hello_reply _ _ (q, drop_route-Present k _ s.active p, r)))

module _ (text : Reason → String) where
  lose_result-Sound :
      (k : WorkerKey) (reason : Reason) (r : RuntimeRequest) (s : RuntimeState)
      → Sound s
      → Sound (lose_result text k reason r s)
  unfolding lose_result
  lose_result-Sound k reason r s h =
      option_cases Sound (lookup k r.results) _ _ (λ _. h)
        λ m _.
          if_cases Sound (type_unset m.type) _ _ (λ _. complete_request_if_ready-Sound _ s h)
            (λ _. h)

  lose_results-Sound :
      (k : WorkerKey) (reason : Reason) (rs : Table ℕ RuntimeRequest) (s : RuntimeState)
      → Sound s
      → Sound (lose_results text k reason rs s)
  unfolding lose_results
  lose_results-Sound k reason [] s h = h
  lose_results-Sound k reason ((id, r) ∷ rs) s h =
      lose_results-Sound k reason rs (lose_result text k reason r s)
        (lose_result-Sound k reason r s h)

  pub handle_worker_failure-Sound :
      (k : WorkerKey) (reason : Reason) (s : RuntimeState)
      → Sound s
      → Sound (handle_worker_failure text k reason s)
  unfolding handle_worker_failure
  handle_worker_failure-Sound k reason s h =
      option_cases Sound (lookup k s.workers) _ _ (λ _. h)
        λ w e.
          if_cases Sound (is_failed w.state || is_retired w.state) _ _ (λ _. h)
            λ _.
              lose_results-Sound k reason s.requests _
                (mark_failed-Sound text k w reason s (h.0 k w e) h)

  pub begin_hello-Sound :
      (k : WorkerKey) (c : Channel) (s : RuntimeState) → Sound s → Sound (begin_hello text k c s)
  unfolding begin_hello
  begin_hello-Sound k c s h =
      option_cases Sound (lookup k s.workers) _ _ (λ _. h)
        λ w e.
          if_cases Sound (not (is_starting w.state)) _ _ (λ _. h)
            λ _.
              if_cases Sound (is_some w.hello_reply) _ _ (λ _. h)
                λ _.
                  option_cases Sound (queue_worker_message w (new_message MessageType.hello)) _ _
                    (λ _. handle_worker_failure-Sound k _ _ h)
                    λ queued q.
                      put_worker-Holds Pending k (record queued { hello_reply = some c }) s
                        (queue-Fits w queued _ q) h

  pub begin_health-Sound :
      (k : WorkerKey) (c : Channel) (s : RuntimeState) → Sound s → Sound (begin_health text k c s)
  unfolding begin_health
  begin_health-Sound k c s h =
      option_cases Sound (lookup k s.workers) _ _ (λ _. h)
        λ w e.
          if_cases Sound (not (is_starting w.state)) _ _ (λ _. h)
            λ _.
              if_cases Sound (is_some w.health_reply) _ _ (λ _. h)
                λ _.
                  option_cases Sound (queue_worker_message w (new_message MessageType.health_check))
                    _ _ (λ _. handle_worker_failure-Sound k _ _ h)
                    λ queued q.
                      put_worker-Holds Pending k (record queued { health_reply = some c }) s
                        (queue-Fits w queued _ q) h

  pub fail_runtime_worker-Sound :
      (k : WorkerKey) (reason : String) (s : RuntimeState)
      → Sound s
      → Sound (fail_runtime_worker text k reason s).1
  unfolding fail_runtime_worker
  fail_runtime_worker-Sound k reason s h =
      let Ends = λ (o : Outcome). Sound o.1 in
      option_cases Ends (lookup k s.workers) _ _ (λ _. h)
        λ w e.
          if_cases Ends (not (is_candidate w.state)) _ _ (λ _. h)
            (λ _. handle_worker_failure-Sound k (Reason.given reason) s h)

  queue_reload-Sound :
      (k : WorkerKey) (w : RuntimeWorker) (path : String) (c : Channel) (s : RuntimeState)
      → Fits w
      → Sound s
      → Sound (queue_reload text k w path c s)
  queue_reload-Sound k w path c s f h =
      option_cases Sound (queue_worker_message w (reload_message path)) _ _
        (λ _. handle_worker_failure-Sound k _ _ (
          put_worker-Holds Pending k (record w { reload_reply = none; pending_signature_path = "" })
            s f h))
        λ queued q.
          put_worker-Holds Pending k
            (record queued {
              reload_reply = some c;
              pending_signature_path = path;
              reload_timer = true;
            })
            s (queue-Fits w queued _ q) h

  pub begin_reload-Sound :
      (id path : String) (c : Channel) (s : RuntimeState)
      → Sound s
      → Sound (begin_reload text id path c s)
  unfolding begin_reload
  begin_reload-Sound id path c s h =
      option_cases Sound (lookup id s.active) _ _ (λ _. h)
        λ k _.
          option_cases Sound (lookup k s.workers) _ _ (λ _. h)
            λ w e.
              if_cases Sound (is_some w.reload_reply) _ _ (λ _. h)
                λ _. queue_reload-Sound k w path c s (h.0 k w e) h

stop_timer-Sound :
    (k : WorkerKey) (b : Bool) (s : RuntimeState) → Sound s → Sound (stop_timer k b s)
stop_timer-Sound k true s h = h
stop_timer-Sound k false s h = h

pub record_reload_result-Sound :
    (k : WorkerKey) (w : RuntimeWorker) (m : Message) (s : RuntimeState)
    → Fits w
    → Sound s
    → Sound (record_reload_result k w m s)
unfolding record_reload_result
record_reload_result-Sound k w m s f h =
    option_cases Sound w.reload_reply _ _ (λ _. h)
      λ c _.
        put_worker-Holds Pending k _ (stop_timer k w.reload_timer s) f
          (stop_timer-Sound k w.reload_timer s h)

pub timeout_reload-Sound : (k : WorkerKey) (s : RuntimeState) → Sound s → Sound (timeout_reload k s)
unfolding timeout_reload
timeout_reload-Sound k s h =
    option_cases Sound (lookup k s.workers) _ _ (λ _. h)
      λ w e.
        option_cases Sound w.reload_reply _ _ (λ _. h)
          λ c _. put_worker-Holds Pending k _ s (h.0 k w e) h

pub register_runtime_worker-Sound :
    (c : WorkerConfig) (child : Child) (s : RuntimeState)
    → Sound s
    → Sound (register_runtime_worker c child s).1
unfolding register_runtime_worker
register_runtime_worker-Sound c child s h =
    let Ends = λ (o : Outcome). Sound o.1 in
    option_cases Ends (lookup (config_key c) s.workers) _ _
      (λ _.
        option_cases Ends (find_entry (is_rival c.scanner_id) s.workers) _ _
          (λ _. put_worker-Holds Pending (config_key c) (new_worker c child) s (omega arith) h)
          (λ _ _. h))
      (λ _ _. h)

drain_previous-Sound :
    (k : WorkerKey) (w : RuntimeWorker) (s : RuntimeState)
    → Fits w
    → Sound s
    → Sound (drain_previous k w s)
unfolding drain_previous
drain_previous-Sound k w s f h =
    let draining = record w { state = WorkerState.draining } in
    let placed = put_worker-Holds Pending k draining s f h in
    if_cases Sound (nat_beq w.in_flight 0) _ _
      (λ _. request_worker_shutdown-Holds Pending k draining _ f placed) (λ _. placed)

drain_route-Sound : (k : WorkerKey) (s : RuntimeState) → Sound s → Sound (drain_route k s)
unfolding drain_route
drain_route-Sound k s h =
    option_cases Sound (lookup k.scanner_id s.active) _ _ (λ _. h)
      λ old _.
        option_cases Sound (lookup old s.workers) _ _ (λ _. h)
          λ p e. drain_previous-Sound old p s (h.0 old p e) h

route-Sound :
    (k : WorkerKey) (w : RuntimeWorker) (s : RuntimeState) → Fits w → Sound s → Sound (route k w s)
route-Sound k w s f h =
    let active = record w { state = WorkerState.active } in
    let (q, p, r) = put_worker-Holds Pending k active s f h in
    (
      q,
      (λ id j g. ground (
        arith,
        lookup-insert k.scanner_id id k s.active,
        lookup-insert k j active s.workers,
        key_beq_iff k j,
        p id j,
      )),
      r,
    )

pub activate_runtime_worker-Sound :
    (k : WorkerKey) (s : RuntimeState) → Sound s → Sound (activate_runtime_worker k s).1
unfolding activate_runtime_worker
activate_runtime_worker-Sound k s h =
    let Ends = λ (o : Outcome). Sound o.1 in
    option_cases Ends (lookup k s.workers) _ _ (λ _. h)
      λ w e.
        if_cases Ends (not (is_healthy w.state)) _ _ (λ _. h)
          (λ _. route-Sound k w (drain_route k s) (h.0 k w e) (drain_route-Sound k s h))
