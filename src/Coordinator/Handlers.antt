-- ===== src/Coordinator/Handlers.antt =====
-- The handlers of pkg/coordinator/coordinator.go and the actor's loop over its commands. A handler
-- returns its error, `none` for nil, and the new state.
use mini_av.Prelude.Int.{ℤ}
use mini_av.Prelude.{
  ℕ, String, Option, none, some, List, [], ◌∷◌, Bool, true, false, ◌&&◌, not, if◌then◌else◌,
  nat_beq, is_some, Result, ok, err,
}
use mini_av.Prelude.Equality.{◌==◌, string_eq, nat_eq}
use mini_av.Prelude.Table.{Table, lookup, insert, delete, map_values, find_entry}
use mini_av.Prelude.Text.{is_blank}
use mini_av.Process.{Child, Exit, terminate}
use mini_av.Protocol.{Verdict, valid_verdict}
use mini_av.Coordinator.State.{
  WorkerState, is_starting, is_healthy, is_active, is_draining, is_retired, is_candidate, WorkerKey,
  key_eq, Worker, Request, State, Error, Command, WorkerSnapshot, Snapshot, Reply,
}

abbrev pub Outcome : Type 0
Outcome = Option Error × State

-- return err
abbrev pub refuse : State → Error → Outcome
refuse s e = (some e, s)

-- return nil
abbrev pub done : State → Outcome
done s = (none, s)

abbrev pub put_worker : State → WorkerKey → Worker → State
put_worker s k w = record s { workers = insert k w s.workers }

unfoldable pub validate_worker_key : WorkerKey → Option Error
validate_worker_key k =
    if is_blank k.scanner_id
    then some Error.empty_scanner_id
    else if is_blank k.version
    then some Error.empty_version
    else none

-- findWorker, and the rest of the handler with the worker that it found.
abbrev with_worker : State → WorkerKey → (Worker → Outcome) → Outcome
with_worker s k rest = elim (lookup k s.workers) [
  | none ↦ refuse s (Error.not_registered k)
  | some w ↦ rest w
]

abbrev pub new_worker : WorkerKey → Child → Worker
new_worker k c = record {
  key = k;
  child = c;
  pid = c.pid;
  state = WorkerState.starting;
  failure_reason = "";
  exit_code = ℤ.pos 0;
  exit_error = "";
}

abbrev pub is_rival : String → WorkerKey → Worker → Bool
is_rival id k w = w.key.scanner_id == id && is_candidate w.state

register_child : State → WorkerKey → Child → Outcome
register_child s k c = elim (lookup k s.workers) [
  | some w ↦ refuse s (Error.already_registered k)
  | none ↦ elim (find_entry (is_rival k.scanner_id) s.workers) [
    | some (j, w) ↦ refuse s (Error.has_candidate k.scanner_id w.key)
    | none ↦ done (put_worker s k (new_worker k c))
  ]
]

unfoldable pub register_worker : State → WorkerKey → Option Child → Outcome
unfolding register_child
register_worker s k child = elim (validate_worker_key k) [
  | some e ↦ refuse s e
  | none ↦ elim child [ none ↦ refuse s Error.nil_child | some c ↦ register_child s k c ]
]

unfoldable pub mark_healthy : State → WorkerKey → Outcome
mark_healthy s k = with_worker s k λ w.
    if not (is_starting w.state)
    then refuse s (Error.invalid_transition k w.state WorkerState.healthy)
    else done (put_worker s k (record w { state = WorkerState.healthy }))

abbrev pub is_unset : Verdict → Bool
is_unset Verdict.unset = true
is_unset _ = false

-- result, expected := results[key]; expected && result == ""
unfoldable pub owes : WorkerKey → Request → Bool
owes k r = elim (lookup k r.results) [ none ↦ false | some v ↦ is_unset v ]

unfoldable pub settle : WorkerKey → Request → Request
unfolding owes
settle k r = if owes k r then record r { results = insert k Verdict.unavailable r.results } else r

unfoldable pub mark_pending_unavailable : WorkerKey → Table ℕ Request → Table ℕ Request
mark_pending_unavailable k requests = map_values (λ id r. settle k r) requests

-- The worker is failed before its process is terminated, whatever that answers.
unfoldable pub fail_worker : State → WorkerKey → String → Outcome
fail_worker s k reason = with_worker s k λ w.
    if not (is_candidate w.state)
    then refuse s (Error.cannot_fail k w.state)
    else if is_blank reason
    then refuse s Error.empty_reason
    else (let (child, killed) = terminate w.child in
        let failed = record w {
          state = WorkerState.failed;
          failure_reason = reason;
          child = child;
        } in
        let after = record s {
          workers = insert k failed s.workers;
          requests = mark_pending_unavailable k s.requests;
        } in
        elim killed [ none ↦ done after | some e ↦ refuse after (Error.terminate_failed k e) ])

-- worker.state = WorkerActive; current.active[key.ScannerID] = key
abbrev route : State → WorkerKey → Worker → Outcome
route s k w = done (record s {
  workers = insert k (record w { state = WorkerState.active }) s.workers;
  active = insert k.scanner_id k s.active;
})

drain_active : State → WorkerKey → Worker → WorkerKey → Outcome
drain_active s k w active_key = elim (lookup active_key s.workers) [
  | none ↦ refuse s (Error.invalid_route k.scanner_id active_key)
  | some a ↦
      if not (is_active a.state)
      then refuse s (Error.invalid_route k.scanner_id active_key)
      else route (put_worker s active_key (record a { state = WorkerState.draining })) k w
]

unfoldable pub activate_worker : State → WorkerKey → Outcome
unfolding drain_active
activate_worker s k = with_worker s k λ w.
    if not (is_healthy w.state)
    then refuse s (Error.invalid_transition k w.state WorkerState.active)
    else elim (lookup k.scanner_id s.active) [
      | none ↦ route s k w
      | some active_key ↦ drain_active s k w active_key
    ]

unfoldable pub retire_worker : State → WorkerKey → Outcome
unfolding owes
retire_worker s k = with_worker s k λ w.
    if not (is_draining w.state)
    then refuse s (Error.invalid_transition k w.state WorkerState.retired)
    else elim (find_entry (λ id r. owes k r) s.requests) [
      | some (id, r) ↦ refuse s (Error.in_flight k id)
      | none ↦ done (put_worker s k (record w { state = WorkerState.retired }))
    ]

abbrev pub initial_verdict : WorkerState → Option Verdict
initial_verdict WorkerState.active = some Verdict.unset
initial_verdict WorkerState.failed = some Verdict.unavailable
initial_verdict _ = none

-- The loop of trackRequest over the keys.
unfoldable pub assign :
    Table WorkerKey Worker
    → ℕ
    → Table WorkerKey Verdict
    → List WorkerKey
    → Result Error (Table WorkerKey Verdict)
assign workers id results [] = ok results
assign workers id results (k ∷ rest) = elim (lookup k workers) [
  | none ↦ err (Error.not_registered k)
  | some w ↦ elim (lookup k results) [
    | some v ↦ err (Error.duplicated k id)
    | none ↦ elim (initial_verdict w.state) [
      | none ↦ err (Error.cannot_receive k w.state)
      | some v ↦ assign workers id (insert k v results) rest
    ]
  ]
]

abbrev pub is_empty {ℓ} : {A : Type ℓ} → List A → Bool
is_empty [] = true
is_empty (x ∷ xs) = false

-- The end of trackRequest, with what the loop returned.
unfoldable pub track_assigned : State → ℕ → Result Error (Table WorkerKey Verdict) → Outcome
track_assigned s id (err e) = refuse s e
track_assigned s id (ok results) =
    done (record s { requests = insert id (record { id = id; results = results }) s.requests })

unfoldable pub track_request : State → ℕ → List WorkerKey → Outcome
track_request s id keys =
    if nat_beq id 0
    then refuse s Error.zero_request_id
    else if is_some (lookup id s.requests)
    then refuse s (Error.already_tracked id)
    else if is_empty keys
    then refuse s (Error.no_workers id)
    else track_assigned s id (assign s.workers id [] keys)

unfoldable pub record_result : State → ℕ → WorkerKey → Verdict → Outcome
unfolding valid_verdict
record_result s id k verdict = elim (lookup id s.requests) [
  | none ↦ refuse s (Error.not_tracked id)
  | some r ↦ elim (lookup k r.results) [
    | none ↦ refuse s (Error.not_assigned k id)
    | some v ↦
        if not (is_unset v)
        then refuse s (Error.has_result k id)
        else if not (valid_verdict verdict)
        then refuse s (Error.invalid_verdict verdict)
        else done (record s {
          requests = insert id (record r { results = insert k verdict r.results }) s.requests;
        })
  ]
]

abbrev pub text_or : Option String → String → String
text_or none old = old
text_or (some new) old = new

-- if activeKey, active := current.active[id]; active && activeKey == key { delete(…) }
unfoldable pub drop_route : WorkerKey → Table String WorkerKey → Table String WorkerKey
drop_route k active = elim (lookup k.scanner_id active) [
  | none ↦ active
  | some active_key ↦ if active_key == k then delete k.scanner_id active else active
]

unfoldable pub record_worker_exit : State → WorkerKey → Exit → State
record_worker_exit s k exit = elim (lookup k s.workers) [
  | none ↦ s
  | some w ↦
      if not (nat_beq w.pid exit.pid)
      then s
      else (let noted = record w {
        exit_code = exit.code;
        exit_error = text_or exit.err w.exit_error;
      } in
          if is_retired w.state then put_worker s k noted else record s {
            workers =
                insert k
                  (record noted {
                    state = WorkerState.failed;
                    failure_reason =
                        if w.failure_reason == ""
                        then "worker exited unexpectedly"
                        else w.failure_reason;
                  })
                  s.workers;
            active = drop_route k s.active;
            requests = mark_pending_unavailable k s.requests;
          })
]

-- The copies that makeSnapshot takes; `transport` is left at its zero value.
abbrev snapshot_worker : WorkerKey → Worker → WorkerSnapshot
snapshot_worker k w = record {
  key = w.key;
  pid = w.pid;
  transport = "";
  state = w.state;
  failure_reason = w.failure_reason;
  exit_code = w.exit_code;
  exit_error = w.exit_error;
}

abbrev copy_request : ℕ → Request → Request
copy_request id r = record { id = r.id; results = map_values (λ k v. v) r.results }

unfoldable pub make_snapshot : State → Snapshot
make_snapshot s = record {
  workers = map_values snapshot_worker s.workers;
  active = map_values (λ id k. k) s.active;
  requests = map_values copy_request s.requests;
}

abbrev replied : Outcome → Reply × State
replied (e, s) = (Reply.error e, s)

-- One round of `run`: the switch on the command that was received.
unfoldable pub step : State → Command → Reply × State
step s (Command.register_worker k c) = replied (register_worker s k c)
step s (Command.mark_healthy k) = replied (mark_healthy s k)
step s (Command.fail_worker k reason) = replied (fail_worker s k reason)
step s (Command.activate_worker k) = replied (activate_worker s k)
step s (Command.retire_worker k) = replied (retire_worker s k)
step s (Command.track_request id keys) = replied (track_request s id keys)
step s (Command.record_result id k v) = replied (record_result s id k v)
step s Command.snapshot = (Reply.snapshot_result (make_snapshot s), s)
step s (Command.worker_exited k exit) = (Reply.nothing, record_worker_exit s k exit)

-- The actor's loop over the commands that it receives, up to the end of its context.
unfoldable pub run : State → List Command → State
run s [] = s
run s (c ∷ cs) = run (step s c).1 cs
