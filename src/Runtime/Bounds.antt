-- ===== src/Runtime/Bounds.antt =====
-- What the event loop of pkg/coordinator/runtime.go keeps true, and the writes that all its
-- handlers are made of.
use mini_av.Prelude.{
  ℕ, ◌-◌, String, ◌≤◌, ◌≡◌, some, [], ◌∷◌, true, arith, length, length-append, is_some, if_cases,
  option_cases, nat_beq, ◌&&◌,
}
use mini_av.Prelude.Equality.{nat_eq, string_eq}
use mini_av.Prelude.Table.{Table, lookup, insert, delete, lookup-insert, lookup-delete}
use mini_av.Protocol.{Message, MessageType, new_message}
use mini_av.Coordinator.State.{WorkerKey, key_eq, key_beq_iff, is_draining}
use mini_av.Runtime.State.{RuntimeWorker, RuntimeRequest, RuntimeState, put_worker}
use mini_av.Runtime.Requests.{
  queue_capacity, queue_worker_message, request_worker_shutdown, release_worker, release_workers,
  complete_request, awaits, complete_request_if_ready,
}

abbrev pub Fits : RuntimeWorker → Type 0
Fits w = length w.outbound ≤ queue_capacity

-- No queue is longer than its channel.
abbrev pub Queued : Table WorkerKey RuntimeWorker → Type 0
Queued ws = (k : WorkerKey) (w : RuntimeWorker) → lookup k ws ≡ some w → Fits w

-- A route leads to a worker.
abbrev pub Present : Table WorkerKey RuntimeWorker → Table String WorkerKey → Type 0
Present ws active =
    (id : String) (k : WorkerKey) → lookup id active ≡ some k → is_some (lookup k ws) ≡ true

-- A scan that is kept awaits a result.
abbrev pub Pending : Table ℕ RuntimeRequest → Type 0
Pending rs = (id : ℕ) (r : RuntimeRequest) → lookup id rs ≡ some r → awaits r ≡ true

abbrev pub Holds : (Table ℕ RuntimeRequest → Type 0) → RuntimeState → Type 0
Holds Q s = Queued s.workers × Present s.workers s.active × Q s.requests

abbrev pub Sound : RuntimeState → Type 0
Sound s = Holds Pending s

Queued-insert :
    (k : WorkerKey) (w : RuntimeWorker) (ws : Table WorkerKey RuntimeWorker)
    → Fits w
    → Queued ws
    → Queued (insert k w ws)
Queued-insert k w ws f q j v h = ground (arith, lookup-insert k j w ws, key_beq_iff k j, q j v)

pub Present-insert :
    (k : WorkerKey) (w : RuntimeWorker) (ws : Table WorkerKey RuntimeWorker)
    (active : Table String WorkerKey)
    → Present ws active
    → Present (insert k w ws) active
Present-insert k w ws active p id j h = ground (arith, lookup-insert k j w ws, p id j h)

pub queue-Fits :
    (w queued : RuntimeWorker) (m : Message) → queue_worker_message w m ≡ some queued → Fits queued
unfolding queue_worker_message
queue-Fits w queued m h = ground (arith, length-append w.outbound (m ∷ []))

-- What is true of the requests, in the steps that leave them alone.
module _ (Q : Table ℕ RuntimeRequest → Type 0) where
  pub put_worker-Holds :
      (k : WorkerKey) (w : RuntimeWorker) (s : RuntimeState)
      → Fits w
      → Holds Q s
      → Holds Q (put_worker k w s)
  put_worker-Holds k w s f (q, p, r) =
      (Queued-insert k w s.workers f q, Present-insert k w s.workers s.active p, r)

  pub request_worker_shutdown-Holds :
      (k : WorkerKey) (w : RuntimeWorker) (s : RuntimeState)
      → Fits w
      → Holds Q s
      → Holds Q (request_worker_shutdown k w s)
  unfolding request_worker_shutdown
  request_worker_shutdown-Holds k w s f h =
      if_cases (Holds Q) w.shutdown_sent _ _ (λ _. h)
        λ _.
          option_cases (Holds Q)
            (queue_worker_message (record w { shutdown_sent = true })
              (new_message MessageType.shutdown))
            _ _ (λ _. put_worker-Holds k (record w { shutdown_sent = true }) s f h)
            λ queued e. put_worker-Holds k queued s (queue-Fits _ queued _ e) h

  release_worker-Holds :
      (k : WorkerKey) (s : RuntimeState) → Holds Q s → Holds Q (release_worker k s)
  unfolding release_worker
  release_worker-Holds k s h =
      option_cases (Holds Q) (lookup k s.workers) _ _ (λ _. h)
        λ w e.
          if_cases (Holds Q) (nat_beq w.in_flight 0) _ _ (λ _. h)
            λ _.
              (let fewer = record w { in_flight = w.in_flight - 1 } in
                let kept = put_worker-Holds k fewer s (h.0 k w e) h in
                if_cases (Holds Q) (is_draining w.state && nat_beq fewer.in_flight 0) _ _
                  (λ _. request_worker_shutdown-Holds k fewer _ (h.0 k w e) kept) (λ _. kept))

  release_workers-Holds :
      (results : Table WorkerKey Message) (s : RuntimeState)
      → Holds Q s
      → Holds Q (release_workers results s)
  unfolding release_workers
  release_workers-Holds [] s h = h
  release_workers-Holds ((k, m) ∷ results) s h =
      release_workers-Holds results (release_worker k s) (release_worker-Holds k s h)

Pending-delete : (id : ℕ) (rs : Table ℕ RuntimeRequest) → Pending rs → Pending (delete id rs)
Pending-delete id rs p i r h = ground (arith, lookup-delete id i rs, p i r)

Pending-done :
    (r : RuntimeRequest) (rs : Table ℕ RuntimeRequest)
    → Pending rs
    → Pending (delete r.id (insert r.id r rs))
Pending-done r rs p i x h =
    ground (arith, lookup-delete r.id i (insert r.id r rs), lookup-insert r.id i r rs, p i x)

pub Pending-insert :
    (id : ℕ) (r : RuntimeRequest) (rs : Table ℕ RuntimeRequest)
    → awaits r ≡ true
    → Pending rs
    → Pending (insert id r rs)
Pending-insert id r rs a p i x h = ground (arith, lookup-insert id i r rs, p i x)

-- Without the request that is completed, what was true of the others is true.
abbrev Without : ℕ → Table ℕ RuntimeRequest → Type 0
Without id rs = Pending (delete id rs)

complete_others :
    (r : RuntimeRequest) (s : RuntimeState) → Holds (Without r.id) s → Sound (complete_request r s)
unfolding complete_request
complete_others r s h = release_workers-Holds (Without r.id) r.results _ h

pub complete_request-Sound :
    (r : RuntimeRequest) (s : RuntimeState) → Sound s → Sound (complete_request r s)
complete_request-Sound r s (q, p, d) = complete_others r s (q, p, Pending-delete r.id s.requests d)

pub complete_request_if_ready-Sound :
    (r : RuntimeRequest) (s : RuntimeState) → Sound s → Sound (complete_request_if_ready r s)
unfolding complete_request_if_ready
complete_request_if_ready-Sound r s (q, p, d) =
    if_cases Sound (awaits r) _ _ (λ a. (q, p, Pending-insert r.id r s.requests a d))
      λ _. complete_others r _ (q, p, Pending-done r s.requests d)
