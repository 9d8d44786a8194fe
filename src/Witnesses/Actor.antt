-- ===== src/Witnesses/Actor.antt =====
-- Runs of the actor of pkg/coordinator/coordinator.go: one worker that replaces another while a
-- request is in flight.
use mini_av.Prelude.Int.{ℤ}
use mini_av.Prelude.{◌≡◌, refl, none, some, List, [], ◌∷◌, false}
use mini_av.Prelude.Equality.{string_eq, nat_eq}
use mini_av.Prelude.Table.{lookup}
use mini_av.Process.{Child}
use mini_av.Protocol.{Verdict}
use mini_av.Coordinator.State.{
  WorkerState, WorkerKey, key_eq, key_beq, Worker, Request, State, Command, initial,
}
use mini_av.Coordinator.Handlers.{activate_worker, step, run}
use mini_av.Coordinator.Invariant.{Inv}
use mini_av.Coordinator.Safety.{run-Inv, is_invalid_route, activate_worker-route_valid}
use mini_av.Coordinator.Lifecycle.{Continues, step-Continues}
use mini_av.Coordinator.Routes.{route_after, step-route_after}
use mini_av.Coordinator.Results.{KeepsVerdicts, run-KeepsVerdicts}

abbrev child : Child
child = record { pid = 41; kill = none; terminated = false; terminate_err = none }

abbrev old_key : WorkerKey
old_key = record { scanner_id = "scanner-a"; version = "1.0.0" }

abbrev new_key : WorkerKey
new_key = record { scanner_id = "scanner-a"; version = "1.1.0" }

-- An update: the old worker has answered a request, and drains.
abbrev update_commands : List Command
update_commands =
    Command.register_worker old_key (some child)
    ∷ Command.mark_healthy old_key
    ∷ Command.activate_worker old_key
    ∷ Command.track_request 7 (old_key ∷ [])
    ∷ Command.register_worker new_key (some child)
    ∷ Command.mark_healthy new_key
    ∷ Command.activate_worker new_key
    ∷ Command.record_result 7 old_key Verdict.malware
    ∷ Command.retire_worker old_key
    ∷ []

abbrev retired_worker : Worker
retired_worker = record {
  key = old_key;
  child = child;
  pid = 41;
  state = WorkerState.retired;
  failure_reason = "";
  exit_code = ℤ.pos 0;
  exit_error = "";
}

abbrev answered_request : Request
answered_request = record { id = 7; results = (old_key, Verdict.malware) ∷ [] }

abbrev answered_state : State
answered_state = record {
  workers = (old_key, retired_worker) ∷ [];
  active = [];
  requests = (7, answered_request) ∷ [];
}

run-Inv_example : Inv (run initial update_commands)
run-Inv_example = run-Inv update_commands

activate_worker-route_valid_example :
    is_invalid_route (activate_worker (run initial update_commands) new_key).0 ≡ false
activate_worker-route_valid_example = activate_worker-route_valid update_commands new_key

step-Continues_example :
    Continues answered_state.workers
      (step answered_state (Command.register_worker new_key (some child))).1.workers
step-Continues_example =
    step-Continues answered_state (Command.register_worker new_key (some child))

retired_there : lookup old_key answered_state.workers ≡ some retired_worker
unfolding lookup key_beq
retired_there = refl

run-KeepsVerdicts_example :
    KeepsVerdicts answered_state.requests (run answered_state update_commands).requests
run-KeepsVerdicts_example = run-KeepsVerdicts answered_state update_commands

-- The new worker is killed by a signal.
abbrev killed : Command
killed =
    Command.worker_exited new_key
      record { pid = 41; code = ℤ.negsuc 0; err = some "signal: killed" }

step-route_after_example :
    lookup "scanner-a" (step (run initial update_commands) killed).1.active
    ≡ route_after
        (run initial update_commands)
        killed
        (step (run initial update_commands) killed).0
        "scanner-a"
        (lookup "scanner-a" (run initial update_commands).active)
step-route_after_example = step-route_after update_commands killed "scanner-a"
