-- ===== src/Coordinator/Clients.antt =====
-- The methods of the actor of pkg/coordinator/coordinator.go that its clients call, and `monitor`.
-- What the actor and the context answer is any function of the commands that the client has sent,
-- the last one first.
use mini_av.Prelude.Actions
use mini_av.Prelude.Actions.{Await}
use mini_av.Prelude.{ℕ, String, Option, none, some, List, ◌∷◌, Result, ok, err, Bool, if◌then◌else◌}
use mini_av.Protocol.{Verdict}
use mini_av.Process.{Child, Exit}
use mini_av.Coordinator.State.{WorkerKey, Command, Error, Snapshot}

pub data ClientError : Type 0 where
  context : String → ClientError
  stopped : ClientError
  refused : Error → ClientError

-- `context` is ctx.Err(), and `accept` the select that sends a command.
pub record Env : Type 0 where
  pub context : List Command → Option String
  pub accept : List Command → Await (Unit {0})
  pub reply : List Command → Await (Option Error)
  pub reply_snapshot : List Command → Await Snapshot
  pub done : List Command → Bool

abbrev pub Action {ℓ} : Type ℓ → Type ℓ
Action A = Actions.Action Command ClientError A

abbrev awaited {ℓ} : {A : Type ℓ} → Await A → Result ClientError A
awaited (Await.answered a) = ok a
awaited (Await.expired e) = err (ClientError.context e)
awaited Await.stopped = err ClientError.stopped

abbrev wait_result : Await (Option Error) → Result ClientError (Unit {0})
wait_result (Await.answered none) = ok tt
wait_result (Await.answered (some e)) = err (ClientError.refused e)
wait_result (Await.expired e) = err (ClientError.context e)
wait_result Await.stopped = err ClientError.stopped

module _ (env : Env) where
  -- A command that no select took is not sent.
  abbrev selected : Command → Await (Unit {0}) → Action (Unit {0})
  selected c (Await.answered u) h = (ok tt, c ∷ h)
  selected c (Await.expired e) h = (err (ClientError.context e), h)
  selected c Await.stopped h = (err ClientError.stopped, h)

  unfoldable pub send : Command → Action (Unit {0})
  send c h = elim (env.context h) [
    | some e ↦ (err (ClientError.context e), h)
    | none ↦ selected c (env.accept h) h
  ]

  unfoldable pub wait_error : Action (Unit {0})
  wait_error h = (wait_result (env.reply h), h)

  abbrev request : Command → Action (Unit {0})
  request c h = Actions.next (λ u. wait_error) (send c h)

  unfoldable pub register_worker : WorkerKey → Option Child → Action (Unit {0})
  unfolding send wait_error
  register_worker key child = request (Command.register_worker key child)

  unfoldable pub mark_healthy : WorkerKey → Action (Unit {0})
  unfolding send wait_error
  mark_healthy key = request (Command.mark_healthy key)

  unfoldable pub fail_worker : WorkerKey → String → Action (Unit {0})
  unfolding send wait_error
  fail_worker key reason = request (Command.fail_worker key reason)

  unfoldable pub activate_worker : WorkerKey → Action (Unit {0})
  unfolding send wait_error
  activate_worker key = request (Command.activate_worker key)

  unfoldable pub retire_worker : WorkerKey → Action (Unit {0})
  unfolding send wait_error
  retire_worker key = request (Command.retire_worker key)

  unfoldable pub track_request : ℕ → List WorkerKey → Action (Unit {0})
  unfolding send wait_error
  track_request id keys = request (Command.track_request id keys)

  unfoldable pub record_result : ℕ → WorkerKey → Verdict → Action (Unit {0})
  unfolding send wait_error
  record_result id key verdict = request (Command.record_result id key verdict)

  unfoldable pub snapshot : Action Snapshot
  unfolding send
  snapshot h =
      Actions.next (λ u h1. (awaited (env.reply_snapshot h1), h1)) (send Command.snapshot h)

  -- What the channel of exits gives first: `none` if it is closed, or if the actor is done before.
  unfoldable pub monitor : WorkerKey → Option Exit → List Command → List Command
  monitor key none h = h
  monitor key (some exit) h = if env.done h then h else Command.worker_exited key exit ∷ h
