-- ===== src/Coordinator/Moves.antt =====
-- The transitions that the actor of pkg/coordinator/coordinator.go can make, as a relation on its
-- states. Each constructor is one place where a handler writes, with what it tested before.
use mini_av.Prelude.{ℕ, String, ◌≡◌, ◌≢◌, ◌⊎◌, none, some, List, [], true, ok, if◌then◌else◌}
use mini_av.Prelude.Equality.{◌==◌, string_eq, nat_eq}
use mini_av.Prelude.Table.{Table, lookup, insert, find_entry}
use mini_av.Process.{Child, Exit}
use mini_av.Protocol.{Verdict, valid_verdict}
use mini_av.Coordinator.State.{WorkerState, is_candidate, WorkerKey, key_eq, Worker, Request, State}
use mini_av.Coordinator.Handlers.{
  put_worker, new_worker, is_rival, owes, mark_pending_unavailable, assign, drop_route, text_or,
}

-- The worker after its exit was noted: the code, and the error if there was one.
abbrev pub noted : Worker → Exit → Worker
noted w exit = record w { exit_code = exit.code; exit_error = text_or exit.err w.exit_error }

abbrev pub exit_failed : Worker → Exit → Worker
exit_failed w exit = record (noted w exit) {
  state = WorkerState.failed;
  failure_reason =
      if w.failure_reason == "" then "worker exited unexpectedly" else w.failure_reason;
}

pub data Move (s : State) : State → Type 0 where
  register :
      (k : WorkerKey) (c : Child)
      → lookup k s.workers ≡ none
      → find_entry (is_rival k.scanner_id) s.workers ≡ none
      → Move s (put_worker s k (new_worker k c))
  become_healthy :
      (k : WorkerKey) (w : Worker)
      → lookup k s.workers ≡ some w
      → w.state ≡ WorkerState.starting
      → Move s (put_worker s k (record w { state = WorkerState.healthy }))
  fail :
      (k : WorkerKey) (w : Worker) (c : Child) (reason : String)
      → lookup k s.workers ≡ some w
      → is_candidate w.state ≡ true
      → Move s (record s {
        workers =
            insert k
              (record w { state = WorkerState.failed; failure_reason = reason; child = c })
              s.workers;
        requests = mark_pending_unavailable k s.requests;
      })
  activate :
      (k : WorkerKey) (w : Worker)
      → lookup k s.workers ≡ some w
      → w.state ≡ WorkerState.healthy
      → lookup k.scanner_id s.active ≡ none
      → Move s (record s {
        workers = insert k (record w { state = WorkerState.active }) s.workers;
        active = insert k.scanner_id k s.active;
      })
  swap :
      (k old : WorkerKey) (w a : Worker)
      → lookup k s.workers ≡ some w
      → w.state ≡ WorkerState.healthy
      → lookup k.scanner_id s.active ≡ some old
      → lookup old s.workers ≡ some a
      → a.state ≡ WorkerState.active
      → Move s (record s {
        workers =
            insert k
              (record w { state = WorkerState.active })
              (insert old (record a { state = WorkerState.draining }) s.workers);
        active = insert k.scanner_id k s.active;
      })
  retire :
      (k : WorkerKey) (w : Worker)
      → lookup k s.workers ≡ some w
      → w.state ≡ WorkerState.draining
      → find_entry (λ id r. owes k r) s.requests ≡ none
      → Move s (put_worker s k (record w { state = WorkerState.retired }))
  track :
      (id : ℕ) (keys : List WorkerKey) (results : Table WorkerKey Verdict)
      → id ≢ 0
      → lookup id s.requests ≡ none
      → keys ≢ []
      → assign s.workers id [] keys ≡ ok results
      → Move s
          (record s { requests = insert id (record { id = id; results = results }) s.requests })
  answer :
      (id : ℕ) (k : WorkerKey) (v : Verdict) (r : Request)
      → lookup id s.requests ≡ some r
      → owes k r ≡ true
      → valid_verdict v ≡ true
      → Move s (record s {
        requests = insert id (record r { results = insert k v r.results }) s.requests;
      })
  exit_retired :
      (k : WorkerKey) (w : Worker) (exit : Exit)
      → lookup k s.workers ≡ some w
      → w.state ≡ WorkerState.retired
      → Move s (put_worker s k (noted w exit))
  exit_fails :
      (k : WorkerKey) (w : Worker) (exit : Exit)
      → lookup k s.workers ≡ some w
      → w.pid ≡ exit.pid
      → w.state ≢ WorkerState.retired
      → Move s (record s {
        workers = insert k (exit_failed w exit) s.workers;
        active = drop_route k s.active;
        requests = mark_pending_unavailable k s.requests;
      })

-- A handler stays, or makes a move.
abbrev pub Goes : State → State → Type 0
Goes s t = (t ≡ s) ⊎ Move s t
