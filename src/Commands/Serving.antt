-- ===== src/Commands/Serving.antt =====
-- serve and serveListener of cmd/miniav/transport.go: Core from its configuration to its end.
use mini_av.Prelude.Actions
use mini_av.Prelude.Actions.{◌>>=◌, ◌>>◌, returned, done}
use mini_av.Prelude.{
  String, Option, none, some, List, [], ◌∷◌, Bool, if◌then◌else◌, Result, ok, err,
}
use mini_av.Config
use mini_av.Config.{Config, Files}
use mini_av.Config.Check.{ConfigError, load, startup_timeout, scan_timeout, workers}
use mini_av.Protocol.Wire.{Trailer}
use mini_av.Runtime.Clients.{ClientError, new_runtime}
use mini_av.Prelude.Addresses.{Addresses}
use mini_av.Commands.Connection.{AddressError, validate_loopback_address}

-- `shutdown` is runtime.Shutdown, `handle` the goroutine of a connection, and `wait` waits for all.
pub data Call : Type 0 where
  create_runtime open_listener handle wait shutdown check_done : Call
  start_worker : Config.Worker → Call

abbrev pub History : Type 0
History = List Call

-- What the calls of Accept return: connections, until an error, after `stop` was closed or before.
pub data Accepts : Type 0 where
  connection : Accepts → Accepts
  stopped : Accepts
  failed : String → Accepts

-- `runtime_done` is whether runtime.Done() is closed.
pub record Env : Type 0 where
  pub start_worker : History → Config.Worker → Option String
  pub listen : History → Option String
  pub accepts : History → Accepts
  pub runtime_done : History → Bool

pub data ServeError : Type 0 where
  bad_address : AddressError → ServeError
  config : ConfigError → ServeError
  runtime : ClientError → ServeError
  start_worker : String → String → ServeError
  listen accept : String → ServeError

abbrev pub Action {ℓ} : Type ℓ → Type ℓ
Action A = Actions.Action Call ServeError A

abbrev pub none_or : Option AddressError → Result ServeError (Unit {0})
none_or none = ok tt
none_or (some e) = err (ServeError.bad_address e)

abbrev pub or_serve {ℓ κ} :
    {D : Type ℓ} {A : Type κ} → (D → ServeError) → Result D A → Result ServeError A
or_serve f (ok a) = ok a
or_serve f (err e) = err (f e)

module _ (env : Env) where
  abbrev pub start_one : Config.Worker → Action (Unit {0})
  start_one w h = elim (env.start_worker h w) [
    | none ↦ (ok tt, Call.start_worker w ∷ h)
    | some e ↦
        (err (ServeError.start_worker w.scanner_id e), Call.shutdown ∷ Call.start_worker w ∷ h)
  ]

  unfoldable pub start_workers : List Config.Worker → Action (Unit {0})
  start_workers [] = done tt
  start_workers (w ∷ rest) = start_one w >> start_workers rest

  -- The deferred function of serveListener.
  unfoldable pub finish : History → History
  finish h =
      if env.runtime_done (Call.wait ∷ h)
      then Call.check_done ∷ Call.wait ∷ h
      else Call.shutdown ∷ Call.check_done ∷ Call.wait ∷ h

  unfoldable pub serve_listener : Accepts → Action (Unit {0})
  unfolding finish
  serve_listener (Accepts.connection rest) h = serve_listener rest (Call.handle ∷ h)
  serve_listener Accepts.stopped h = (ok tt, finish h)
  serve_listener (Accepts.failed e) h = (err (ServeError.accept e), finish h)

  abbrev pub listen_and_serve : Action (Unit {0})
  listen_and_serve h = elim (env.listen h) [
    | none ↦ serve_listener (env.accepts (Call.open_listener ∷ h)) (Call.open_listener ∷ h)
    | some e ↦ (err (ServeError.listen e), Call.shutdown ∷ Call.open_listener ∷ h)
  ]

  abbrev pub create : Config → Action (Unit {0})
  create loaded h = elim (new_runtime (startup_timeout loaded) (scan_timeout loaded)) [
    | ok timeouts ↦ (ok tt, Call.create_runtime ∷ h)
    | err e ↦ (err (ServeError.runtime e), h)
  ]

  unfoldable pub serve :
      Addresses
      → Files
      → (String → String)
      → (String → Result String (Option (Config × Trailer)))
      → String
      → String
      → Action (Unit {0})
  unfolding validate_loopback_address load new_runtime startup_timeout scan_timeout start_workers
      serve_listener
  serve addresses files dir read address config_path = do
    returned (none_or (validate_loopback_address addresses address))
    loaded ← returned (or_serve ServeError.config (load files dir read config_path))
    create loaded
    start_workers (workers loaded)
    listen_and_serve
