-- ===== src/Runtime/Clients/Starting.antt =====
-- StartWorker of pkg/coordinator/runtime.go, with connectWorker, hello, health, activate and
-- failCandidate.
use mini_av.Prelude.{String, List, [], ◌∷◌, ◌++◌, if◌then◌else◌, Result, ok, err}
use mini_av.Prelude.Equality.{◌==◌, string_eq}
use mini_av.Prelude.Int.{ℤ, is_zero}
use mini_av.Config.{Worker}
use mini_av.Process.{Child}
use mini_av.Coordinator.State.{WorkerKey}
use mini_av.Runtime.State.{WorkerConfig}
use mini_av.Runtime.Loop.{Event}
use mini_av.Runtime.Clients.{
  Context, Call, History, Ready, ClientError, Env, Action, ◌>>=◌, ◌>>◌, or_client,
  wait_runtime_reply, exchange,
}

-- The fields that the loop reads.
abbrev pub registered : Worker → WorkerConfig
registered w = record {
  scanner_id = w.scanner_id;
  worker_version = w.worker_version;
  transport = w.transport;
  signature_path = w.signature_path;
}

abbrev pub worker_key : Worker → WorkerKey
worker_key w = record { scanner_id = w.scanner_id; version = w.worker_version }

-- What fmt.Sprint makes of a delay, and Error() of an error.
pub record Shown : Type 0 where
  pub delay : ℤ → String
  pub error : ClientError → String

-- The flags of the scanner program.
unfoldable pub worker_args : Shown → Worker → List String
worker_args shown w =
    ("-worker-version" ∷ w.worker_version ∷ "-signatures" ∷ w.signature_path ∷ [])
    ++ ((if w.transport == "stdio" then [] else "-listen" ∷ "127.0.0.1:0" ∷ [])
        ++ ((if is_zero w.delay_ms then [] else "-delay" ∷ shown.delay w.delay_ms ∷ [])
            ++ ((if w.crash_on_scan then "-crash-on-scan" ∷ [] else [])
                ++ (if w.fail_health then "-fail-health" ∷ [] else []))))

-- if err := …; err != nil { clean up; return … }
abbrev pub or_clean {ℓ} :
    {A : Type ℓ}
    → (ClientError → ClientError)
    → (ClientError → History → History)
    → Result ClientError A × History
    → Result ClientError A × History
or_clean wrap clean (ok a, h) = (ok a, h)
or_clean wrap clean (err e, h) = (err (wrap e), clean e h)

abbrev pub same_error : ClientError → ClientError
same_error e = e

-- child.Terminate and connection.Close, whose errors StartWorker drops.
abbrev pub terminate : ClientError → History → History
terminate e h = Call.terminate ∷ h

abbrev pub close_and_terminate : ClientError → History → History
close_and_terminate e h = Call.terminate ∷ Call.close_connection ∷ h

module _ (env : Env) (shown : Shown) where
  abbrev start : Worker → Action Child
  start w h =
      let args = worker_args shown w in
      (
        or_client ClientError.start_failed (env.start h w.executable args),
        Call.start w.executable args ∷ h,
      )

  abbrev dial : String → String → Action (Unit {0})
  dial mode address h =
      (or_client ClientError.connect_failed (env.dial h mode address), Call.dial mode address ∷ h)

  abbrev bootstrapped : String → Ready → Action (Unit {0})
  bootstrapped mode (Ready.received (ok address)) h = dial mode address h
  bootstrapped mode (Ready.received (err e)) h = (err (ClientError.connect_failed e), h)
  bootstrapped mode (Ready.exited code) h = (err (ClientError.bootstrap_exited mode code), h)
  bootstrapped mode (Ready.expired e) h = (err (ClientError.bootstrap_expired mode e), h)

  unfoldable pub connect_worker : String → Action (Unit {0})
  connect_worker mode h =
      if mode == "stdio"
      then (ok tt, Call.open_stream ∷ h)
      else bootstrapped mode (env.ready h) (Call.await_bootstrap ∷ h)

  unfoldable pub hello : WorkerKey → Action (Unit {0})
  unfolding wait_runtime_reply
  hello key =
      exchange env Context.startup (Event.hello key) (wait_runtime_reply env Context.startup)

  unfoldable pub health : WorkerKey → Action (Unit {0})
  unfolding wait_runtime_reply
  health key =
      exchange env Context.startup (Event.health key) (wait_runtime_reply env Context.startup)

  unfoldable pub activate : WorkerKey → Action (Unit {0})
  unfolding wait_runtime_reply
  activate key =
      exchange env Context.startup (Event.activate key) (wait_runtime_reply env Context.startup)

  -- What failCandidate gets as a reply is dropped.
  unfoldable pub fail_candidate : WorkerKey → ClientError → History → History
  unfolding wait_runtime_reply
  fail_candidate key failure h =
      (exchange env Context.cleanup (Event.fail key (shown.error failure))
        (wait_runtime_reply env Context.cleanup) h).1

  -- The register command and its reply.
  unfoldable pub register : Worker → Child → Action (Unit {0})
  unfolding wait_runtime_reply
  register w child =
      exchange env Context.callers (Event.register (registered w) child)
        (wait_runtime_reply env Context.callers)

  -- What StartWorker does with a worker that the loop has registered.
  unfoldable pub introduce : WorkerKey → Action (Unit {0})
  unfolding hello health activate fail_candidate
  introduce key = do
    λ h. or_clean (ClientError.handshake key) (fail_candidate key) (hello key h)
    λ h. or_clean (ClientError.health_check key) (fail_candidate key) (health key h)
    λ h. or_clean same_error (fail_candidate key) (activate key h)

  unfoldable pub start_worker : Worker → Action (Unit {0})
  unfolding worker_args connect_worker register introduce
  start_worker w = do
    child ← start w
    λ h. or_clean same_error terminate (connect_worker w.transport h)
    λ h. or_clean same_error close_and_terminate (register w child h)
    introduce (worker_key w)
