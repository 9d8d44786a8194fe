-- ===== src/Worker/Sent.antt =====
-- What a session of pkg/worker/worker.go sends: valid messages.
use mini_av.Prelude.{
  All-snoc, ℕ, ◌≡◌, ◌≢◌, refl, String, Option, none, some, List, [], ◌∷◌, true, false, arith,
  Result, ok, err, All, Bool-cases, inl, inr,
}
use mini_av.Prelude.Equality.{contains, string_eq}
use mini_av.Prelude.Text.{is_blank}
use mini_av.Protocol.{Message}
use mini_av.Protocol.Validate.{validate}
use mini_av.Protocol.Grammar.{Body, Outcome, to_message, to_verdict, validate-to_message}
use mini_av.Signatures.Match.{Store}
use mini_av.Signatures.Load.{LoadError}
use mini_av.Worker.{Settings, validate_config}
use mini_av.Worker.Scan.{ScanTexts, Matched, scan_response}
use mini_av.Worker.Keeps.{Speaks, IsAnswer, IsFine, serve-Speaks}
use mini_av.Worker.Session.{
  Session, Final, Turn, InFlight, WorkerTexts, capabilities, hello_ack, health_result,
  reload_result, waited, run, new_session,
}

abbrev IsAccepted : Message → Type 0
IsAccepted m = validate m ≡ none

scan_response-IsAccepted :
    (texts : ScanTexts) (id duration : ℕ) (m : Matched)
    → id ≢ 0
    → IsAccepted (scan_response texts id duration m)
unfolding scan_response to_message to_verdict
scan_response-IsAccepted texts id duration (ok (some p)) n =
    validate-to_message (Body.scan_result id Outcome.malware (texts.of_bytes p) duration "") n
scan_response-IsAccepted texts id duration (ok none) n =
    validate-to_message (Body.scan_result id Outcome.clean "" duration "") n
scan_response-IsAccepted texts id duration (err e) n =
    validate-to_message (Body.scan_result id Outcome.error "" duration (texts.of_error e)) n

module _ (config : Settings) (texts : WorkerTexts) where
  -- The settings passed their checks, and no error has a blank text.
  abbrev IsSetUp : Type 0
  IsSetUp = (validate_config config ≡ none) × ((e : LoadError) → is_blank (texts.of_load e) ≡ false)

  hello_ack-IsAccepted : IsSetUp → IsAccepted (hello_ack config)
  unfolding validate_config to_message is_blank contains
  hello_ack-IsAccepted (c, _) =
      validate-to_message (Body.hello_ack config.scanner_id config.worker_version capabilities)
        (ground arith, ground arith, (refl, (refl, tt)), (refl, (refl, tt)))

  health_result-IsAccepted : IsAccepted (health_result config)
  unfolding to_message
  health_result-IsAccepted = elim (Bool-cases config.fail_health) [
    | inl e ↦
        rw e (
          validate-to_message (Body.health_result false "health check failed by fault injection")
            tt)
    | inr e ↦ rw e (validate-to_message (Body.health_result true "") tt)
  ]

  reload_result-IsAccepted :
      (r : Result LoadError ℕ) → IsSetUp → IsAccepted (reload_result config texts r)
  unfolding to_message
  reload_result-IsAccepted (ok count) c = validate-to_message (Body.reload_result true count "") tt
  reload_result-IsAccepted (err e) c =
      validate-to_message (Body.reload_result false 0 (texts.of_load e)) (c.1 e)

  waited-Speaks :
      (xs : List InFlight) (final : Final) (send : Option String) (s : Session)
      → Speaks IsAccepted s
      → Speaks IsAccepted (waited config texts xs final send s)
  unfolding to_message
  waited-Speaks (x ∷ xs) final send s h = h
  waited-Speaks [] (Final.give_back e) send s h = h
  waited-Speaks [] Final.acknowledge (some e) s h = h
  waited-Speaks [] Final.acknowledge none s (a, b) =
      (a, All-snoc IsAccepted s.sent _ b (validate-to_message Body.shutdown_ack tt))

  answers-IsAccepted : IsSetUp → IsAnswer config texts IsAccepted
  answers-IsAccepted c = record {
    hello = hello_ack-IsAccepted c;
    health = health_result-IsAccepted;
    reload = λ r. reload_result-IsAccepted r c;
    scan = scan_response-IsAccepted texts.scans;
  }

  run_from-Speaks :
      (turns : List Turn) (s : Session)
      → IsSetUp
      → All IsFine turns
      → Speaks IsAccepted s
      → Speaks IsAccepted (run config texts turns s)
  unfolding run
  run_from-Speaks [] s c f h = h
  run_from-Speaks (turn ∷ turns) s c f h = run_from-Speaks turns _ c f.1 (
      serve-Speaks config texts IsAccepted (Speaks IsAccepted) s.phase turn s (λ t x. x)
        (λ final send. waited-Speaks s.scans final send s h) (answers-IsAccepted c) f.0 h)

  -- Whatever a session is given that Validate accepts, and in whatever order its scans end and its
  -- sends fail, every message that it has sent is one that Validate accepts. The settings passed
  -- validateConfig, and the text of an error is not blank.
  pub run-accepted :
      (turns : List Turn) (store : Store)
      → validate_config config ≡ none
      → ((e : LoadError) → is_blank (texts.of_load e) ≡ false)
      → All IsFine turns
      → All (λ m. validate m ≡ none) (run config texts turns (new_session store)).sent
  run-accepted turns store c e f = (run_from-Speaks turns (new_session store) (c, e) f (tt, tt)).1
