-- ===== src/Runtime/Clients/Owned.antt =====
-- What StartWorker of pkg/coordinator/runtime.go leaves behind: who owns the child process and its
-- connection, as the calls of a client and their answers tell.
use mini_av.Prelude.{
  String, Option, none, [], ◌∷◌, ◌≡◌, Bool, true, false, Result, ok, err, if◌then◌else◌, arith,
}
use mini_av.Prelude.Equality.{◌==◌, ==_refl, string_eq}
use mini_av.Config.{Worker}
use mini_av.Process.{Child}
use mini_av.Coordinator.State.{WorkerKey, key_eq}
use mini_av.Runtime.State.{RuntimeError}
use mini_av.Runtime.Startup.{config_key}
use mini_av.Runtime.Loop.{Event}
use mini_av.Runtime.Clients.{Call, History, Await, ClientError, Env, wait_runtime_reply}
use mini_av.Runtime.Clients.Starting.{
  Shown, worker_key, connect_worker, hello, health, activate, fail_candidate, register,
}

-- `child` and `connection`: the client has one that it must still end. `registered`: the loop has
-- taken both. The other fields are what the loop answered with nil, and what it was told.
pub record Owned : Type 0 where
  pub child : Bool
  pub connection : Bool
  pub registered : Bool
  pub greeted : Bool
  pub healthy : Bool
  pub active : Bool
  pub told_to_fail : Bool

abbrev pub nothing : Owned
nothing = record {
  child = false;
  connection = false;
  registered = false;
  greeted = false;
  healthy = false;
  active = false;
  told_to_fail = false;
}

abbrev after_start : Result String Child → Owned → Owned
after_start (ok c) o = record o { child = true }
after_start (err e) o = o

abbrev after_dial : Result String (Unit {0}) → Owned → Owned
after_dial (ok u) o = record o { connection = true }
after_dial (err e) o = o

-- What nil answers to an event mean for the worker of the key.
abbrev after_nil : WorkerKey → Event → Owned → Owned
after_nil key (Event.register c child reply) o =
    if config_key c == key
    then record o { child = false; connection = false; registered = true }
    else o
after_nil key (Event.hello k reply) o = if k == key then record o { greeted = true } else o
after_nil key (Event.health k reply) o = if k == key then record o { healthy = true } else o
after_nil key (Event.activate k reply) o = if k == key then record o { active = true } else o
after_nil key event o = o

abbrev after_reply : WorkerKey → Await (Option RuntimeError) → History → Owned → Owned
after_reply key (Await.answered none) (Call.sent ctx event ∷ h) o = after_nil key event o
after_reply key answer h o = o

abbrev after_sent : WorkerKey → Event → Owned → Owned
after_sent key (Event.fail k reason reply) o =
    if k == key then record o { told_to_fail = true } else o
after_sent key event o = o

abbrev pub Left : Type 0
Left = Result ClientError (Unit {0}) × History

module _ (env : Env) (key : WorkerKey) where
  -- The calls of a client, from the first one on.
  unfoldable pub owned : History → Owned
  owned [] = nothing
  owned (Call.start executable args ∷ h) = after_start (env.start h executable args) (owned h)
  owned (Call.open_stream ∷ h) = record (owned h) { connection = true }
  owned (Call.dial mode address ∷ h) = after_dial (env.dial h mode address) (owned h)
  owned (Call.close_connection ∷ h) = record (owned h) { connection = false }
  owned (Call.terminate ∷ h) = record (owned h) { child = false }
  owned (Call.sent ctx event ∷ h) = after_sent key event (owned h)
  owned (Call.waited ctx reply ∷ h) = after_reply key (env.reply_error h) h (owned h)
  owned (call ∷ h) = owned h

  unfoldable pub Took : (Owned → Owned) → Owned → Left → Type 0
  Took f o (ok u, h) = owned h ≡ f o
  Took f o (err e, h) = owned h ≡ o

  module _ (shown : Shown) where
    pub connect_worker-owned :
        (mode : String) (h : History)
        → Took (λ o. record o { connection = true }) (owned h) (connect_worker env shown mode h)
    unfolding connect_worker owned Took
    connect_worker-owned mode h = ground arith

    pub register-owned :
        (w : Worker) (c : Child) (h : History)
        → worker_key w ≡ key
        → Took
            (λ o. record o { child = false; connection = false; registered = true })
            (owned h)
            (register env shown w c h)
    unfolding register wait_runtime_reply owned Took
    register-owned w c h is =
        let same : (worker_key w == key) ≡ true = (key_eq.decides (worker_key w) key).1 is in
        ground (arith, same)

    pub hello-owned :
        (h : History) → Took (λ o. record o { greeted = true }) (owned h) (hello env shown key h)
    unfolding hello wait_runtime_reply owned Took
    hello-owned h = ground (arith, ==_refl key)

    pub health-owned :
        (h : History) → Took (λ o. record o { healthy = true }) (owned h) (health env shown key h)
    unfolding health wait_runtime_reply owned Took
    health-owned h = ground (arith, ==_refl key)

    pub activate-owned :
        (h : History) → Took (λ o. record o { active = true }) (owned h) (activate env shown key h)
    unfolding activate wait_runtime_reply owned Took
    activate-owned h = ground (arith, ==_refl key)

    pub fail_candidate-owned :
        (e : ClientError) (h : History)
        → owned (fail_candidate env shown key e h) ≡ record (owned h) { told_to_fail = true }
    unfolding fail_candidate wait_runtime_reply owned
    fail_candidate-owned e h = ground (arith, ==_refl key)
