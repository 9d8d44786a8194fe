-- ===== src/Commands/Stopped.antt =====
-- That serve of cmd/miniav/transport.go leaves no runtime behind.
use mini_av.Prelude.Actions
use mini_av.Prelude.{
  String, Option, List, [], ◌∷◌, ◌≡◌, refl, Bool, true, false, if◌then◌else◌, Result, ok, err,
  arith, option_cases,
}
use mini_av.Config
use mini_av.Config.{Config, Files}
use mini_av.Config.Check.{load, workers}
use mini_av.Protocol.Wire.{Trailer}
use mini_av.Prelude.Addresses.{Addresses}
use mini_av.Commands.Connection.{validate_loopback_address}
use mini_av.Commands.Serving.{
  Call, History, Accepts, Env, ServeError, Action, start_one, create, listen_and_serve, none_or,
  or_serve, start_workers, finish, serve_listener, serve,
}

module _ (env : Env) where
  -- The runtime runs from its creation until it is shut down or found to be done.
  unfoldable pub is_running : History → Bool
  is_running [] = false
  is_running (Call.create_runtime ∷ h) = true
  is_running (Call.shutdown ∷ h) = false
  is_running (Call.check_done ∷ h) = if env.runtime_done h then false else is_running h
  is_running (call ∷ h) = is_running h

  finish-is_running : (h : History) → is_running (finish env h) ≡ false
  unfolding finish is_running
  finish-is_running h = ground arith

  serve_listener-is_running :
      (accepts : Accepts) (h : History) → is_running (serve_listener env accepts h).1 ≡ false
  unfolding serve_listener
  serve_listener-is_running (Accepts.connection rest) h =
      serve_listener-is_running rest (Call.handle ∷ h)
  serve_listener-is_running Accepts.stopped h = finish-is_running h
  serve_listener-is_running (Accepts.failed e) h = finish-is_running h

  abbrev Outcome : Type 0
  Outcome = Result ServeError (Unit {0}) × History

  -- An error leaves no runtime.
  abbrev Ends : Outcome → Type 0
  Ends (ok u, h) = Unit {0}
  Ends (err e, h) = is_running h ≡ false

  abbrev Stops : Outcome → Type 0
  Stops r = is_running r.1 ≡ false

  then_Stops :
      (f : Unit {0} → Action (Unit {0})) (r : Outcome)
      → Ends r
      → ((u : Unit {0}) (h : History) → Stops (f u h))
      → Stops (Actions.next f r)
  then_Stops f (ok u, h) e s = s u h
  then_Stops f (err x, h) e s = e

  then_Ends :
      (f : Unit {0} → Action (Unit {0})) (r : Outcome)
      → Ends r
      → ((u : Unit {0}) (h : History) → Ends (f u h))
      → Ends (Actions.next f r)
  then_Ends f (ok u, h) e s = s u h
  then_Ends f (err x, h) e s = e

  -- A step without a call.
  kept_Stops {ℓ} :
      {A : Type ℓ} (f : A → Action (Unit {0})) (r : Result ServeError A) (h : History)
      → is_running h ≡ false
      → ((a : A) → Stops (f a h))
      → Stops (Actions.next f (r, h))
  kept_Stops f (ok a) h e s = s a
  kept_Stops f (err x) h e s = e

  start_one-Ends : (w : Config.Worker) (h : History) → Ends (start_one env w h)
  unfolding is_running
  start_one-Ends w h = ground arith

  start_workers-Ends : (ws : List Config.Worker) (h : History) → Ends (start_workers env ws h)
  unfolding start_workers
  start_workers-Ends [] h = tt
  start_workers-Ends (w ∷ ws) h =
      then_Ends (λ u. start_workers env ws) (start_one env w h) (start_one-Ends w h)
        λ u mid. start_workers-Ends ws mid

  create-Ends : (c : Config) (h : History) → is_running h ≡ false → Ends (create env c h)
  create-Ends c h stopped = ground arith

  listen_and_serve-Stops : (h : History) → Stops (listen_and_serve env h)
  unfolding is_running
  listen_and_serve-Stops h =
      option_cases Stops (env.listen h) _ _
        (λ e.
          serve_listener-is_running (env.accepts (Call.open_listener ∷ h)) (Call.open_listener ∷ h))
        λ x e. refl

  module _ (addresses : Addresses) (files : Files) (dir : String → String)
      (read : String → Result String (Option (Config × Trailer))) where
    -- However serve returns, with nil or an error, the runtime that it has created was shut down or
    -- has ended by itself.
    serve-is_running :
        (address config_path : String) (h : History)
        → is_running h ≡ false
        → is_running (serve env addresses files dir read address config_path h).1 ≡ false
    unfolding serve
    serve-is_running address config_path h stopped =
        kept_Stops _ (none_or (validate_loopback_address addresses address)) h stopped λ u.
          kept_Stops _ (or_serve ServeError.config (load files dir read config_path)) h stopped
            λ loaded. then_Stops _ (create env loaded h) (create-Ends loaded h stopped) λ u h1.
              then_Stops _ (start_workers env (workers loaded) h1)
                (start_workers-Ends (workers loaded) h1) λ u h2. listen_and_serve-Stops h2
