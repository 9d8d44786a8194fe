-- ===== src/Runtime/Clients.antt =====
-- The side of pkg/coordinator/runtime.go that the loop's clients run: send, the waits for a reply,
-- and Scan, Reload, ActiveWorker, Snapshot and Shutdown. A client returns its result with the calls
-- that it made (Prelude/Actions). What the loop, the operating system and the contexts answer is
-- any function of the calls before.
pub mod Starting
pub mod Owned
pub mod Settled
pub mod Relays
use mini_av.Prelude.Actions
pub use mini_av.Prelude.Actions.{Await, next, ◌>>=◌, ◌>>◌, done, returned, refuse_when}
use mini_av.Prelude.{
  ℕ, String, Option, none, some, List, ◌∷◌, not, if◌then◌else◌, length, Result, ok, err, Bool, ◌||◌,
}
use mini_av.Prelude.Equality.{string_eq}
use mini_av.Prelude.Text.{is_blank}
use mini_av.Prelude.Int.{ℤ, is_positive}
use mini_av.Process.{Child}
use mini_av.Coordinator.State.{WorkerKey}
use mini_av.Runtime.State.{
  Channel, RuntimeError, WorkerConfig, ScanResult, ReloadResult, WorkerView,
}
use mini_av.Runtime.Loop.{Event}

-- The context of a call: the caller's, the one with the startup timeout, or the one of failCandidate.
pub data Context : Type 0 where
  callers startup cleanup : Context

-- `waited` is the select on a reply, and `cancel_run` is runtime.cancel() with the wait for `done`.
pub data Call : Type 0 where
  abs stat : String → Call
  start : String → List String → Call
  open_stream await_bootstrap close_connection terminate cancel_run : Call
  dial : String → String → Call
  sent : Context → Event → Call
  waited : Context → Channel → Call

abbrev pub History : Type 0
History = List Call

-- Which case the select of connectWorker takes: the child's bootstrap, its exit or ctx.Done().
pub data Ready : Type 0 where
  received : Result String String → Ready
  exited : ℕ → Ready
  expired : String → Ready

pub data ClientError : Type 0 where
  stopped : ClientError
  context start_failed connect_failed resolve_failed stat_failed : String → ClientError
  refused : RuntimeError → ClientError
  bootstrap_exited : String → ℕ → ClientError
  bootstrap_expired : String → String → ClientError
  handshake health_check : WorkerKey → ClientError → ClientError
  empty_path irregular bad_timeouts : ClientError

-- `start` is what Start of pkg/process answers, and `dial` what Dial of pkg/workertransport answers.
pub record Env : Type 0 where
  pub abs : History → String → Result String String
  pub stat : History → String → Result String Bool
  pub start : History → String → List String → Result String Child
  pub ready : History → Ready
  pub dial : History → String → String → Result String (Unit {0})
  pub accept : History → Await (Unit {0})
  pub reply_error : History → Await (Option RuntimeError)
  pub reply_scan : History → Await (Result RuntimeError ScanResult)
  pub reply_reload : History → Await (Result RuntimeError ReloadResult)
  pub reply_active : History → Await (Result RuntimeError WorkerConfig)
  pub reply_snapshot : History → Await (List WorkerView)

abbrev pub Action {ℓ} : Type ℓ → Type ℓ
Action A = Actions.Action Call ClientError A

abbrev pub or_client {ℓ} :
    {A : Type ℓ} → (String → ClientError) → Result String A → Result ClientError A
or_client f (ok a) = ok a
or_client f (err e) = err (f e)

abbrev pub awaited {ℓ} : {A : Type ℓ} → Await A → Result ClientError A
awaited (Await.answered a) = ok a
awaited (Await.expired e) = err (ClientError.context e)
awaited Await.stopped = err ClientError.stopped

-- A reply that is an error or nil, and one that is an error or a value.
abbrev pub nil_or_refused : Await (Option RuntimeError) → Result ClientError (Unit {0})
nil_or_refused (Await.answered none) = ok tt
nil_or_refused (Await.answered (some e)) = err (ClientError.refused e)
nil_or_refused (Await.expired e) = err (ClientError.context e)
nil_or_refused Await.stopped = err ClientError.stopped

abbrev pub value_or_refused {ℓ} :
    {A : Type ℓ} → Await (Result RuntimeError A) → Result ClientError A
value_or_refused (Await.answered (ok a)) = ok a
value_or_refused (Await.answered (err e)) = err (ClientError.refused e)
value_or_refused (Await.expired e) = err (ClientError.context e)
value_or_refused Await.stopped = err ClientError.stopped

-- reply := make(chan …, 1). No two channels have the same number, since a client's calls only grow.
abbrev pub new_channel : History → Channel
new_channel h = length h

module _ (env : Env) where
  abbrev pub send : Context → Event → Action (Unit {0})
  send ctx event h = (awaited (env.accept h), Call.sent ctx event ∷ h)

  unfoldable pub wait_runtime_reply : Context → Channel → Action (Unit {0})
  wait_runtime_reply ctx reply h = (nil_or_refused (env.reply_error h), Call.waited ctx reply ∷ h)

  abbrev pub wait_value {ℓ} :
      {A : Type ℓ} → (History → Await (Result RuntimeError A)) → Context → Channel → Action A
  wait_value answer ctx reply h = (value_or_refused (answer h), Call.waited ctx reply ∷ h)

  unfoldable pub filepath_regular : String → Action String
  filepath_regular path = do
    refuse_when (is_blank path) ClientError.empty_path
    absolute ← λ h. (or_client ClientError.resolve_failed (env.abs h path), Call.abs path ∷ h)
    is_regular ←
        λ h. (or_client ClientError.stat_failed (env.stat h absolute), Call.stat absolute ∷ h)
    refuse_when (not is_regular) ClientError.irregular
    done absolute

  -- A command is sent with a new channel, and its reply is awaited.
  abbrev pub exchange {ℓ} :
      {A : Type ℓ} → Context → (Channel → Event) → (Channel → Action A) → Action A
  exchange ctx event wait h = ((send ctx (event (new_channel h))) >> wait (new_channel h)) h

  -- An error of the aggregation is the result's answer.
  unfoldable pub scan : String → Action ScanResult
  unfolding filepath_regular
  scan path = do
    absolute ← filepath_regular path
    exchange Context.callers (Event.scan absolute) (wait_value env.reply_scan Context.callers)

  unfoldable pub reload : String → String → Action ReloadResult
  unfolding filepath_regular
  reload scanner_id path = do
    absolute ← filepath_regular path
    exchange Context.callers (Event.reload scanner_id absolute)
        (wait_value env.reply_reload Context.callers)

  unfoldable pub active_worker : String → Action WorkerConfig
  active_worker scanner_id =
      exchange Context.callers (Event.active_worker_of scanner_id)
        (wait_value env.reply_active Context.callers)

  unfoldable pub snapshot : Action (List WorkerView)
  snapshot =
      exchange Context.callers Event.snapshot
        λ reply h. (awaited (env.reply_snapshot h), Call.waited Context.callers reply ∷ h)

  -- The last select of Shutdown.
  abbrev shutdown_reply :
      Await (Option RuntimeError) → History → Result ClientError (Unit {0}) × History
  shutdown_reply (Await.answered none) h = (ok tt, h)
  shutdown_reply (Await.answered (some e)) h = (err (ClientError.refused e), h)
  shutdown_reply (Await.expired e) h = (err (ClientError.context e), Call.cancel_run ∷ h)
  shutdown_reply Await.stopped h = (ok tt, h)

  unfoldable pub shutdown : Action (Unit {0})
  shutdown =
      exchange Context.callers Event.shutdown
        λ reply h. shutdown_reply (env.reply_error h) (Call.waited Context.callers reply ∷ h)

-- NewRuntime: the timeouts of the runtime whose loop it starts.
unfoldable pub new_runtime : ℤ → ℤ → Result ClientError (ℤ × ℤ)
new_runtime startup_timeout scan_timeout =
    if not (is_positive startup_timeout) || not (is_positive scan_timeout)
    then err ClientError.bad_timeouts
    else ok (startup_timeout, scan_timeout)
