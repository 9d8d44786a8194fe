-- ===== src/Commands/Served.antt =====
-- What dispatchCommand of cmd/miniav/transport.go does for each request that it is sent.
use mini_av.Prelude.{
  String, none, List, [], ◌∷◌, ◌++◌, ◌≡◌, refl, Bool, true, false, ◌&&◌, not, Result, ok, err,
  arith, All, is_some, any, option_cases,
}
use mini_av.Prelude.Equality.{◌==◌, string_eq}
use mini_av.Prelude.Table.{lookup}
use mini_av.Config.{Files}
use mini_av.Update.{PreparedRelease}
use mini_av.Runtime.State.{WorkerConfig, ScanResult}
use mini_av.Commands.{CommandRequest, CommandResponse}
use mini_av.Commands.Request.{validate_command_request, resolve_control_path}
use mini_av.Commands.Texts.{Formats}
use mini_av.Commands.Dispatch.{
  Call, History, Core, Panic, candidate, replace_active, serve_prepared, dispatch_valid,
  dispatch_command,
}
use mini_av.Commands.Accepted.{valid_command}

-- The calls that a command is for.
abbrev pub permits : String → Call → Bool
permits command Call.snapshot = command == "status"
permits command Call.shutdown = command == "shutdown"
permits command (Call.scan path) = command == "scan"
permits command (Call.reload scanner_id path) = command == "reload"
permits command (Call.prepare base source) = command == "update"
permits command (Call.active_worker scanner_id) = command == "update"
permits command (Call.start_worker c) = command == "update"

abbrev is_ok {ℓ κ} : {E : Type ℓ} {A : Type κ} → Result E A → Bool
is_ok (ok a) = true
is_ok (err e) = false

abbrev is_verdict : Result String ScanResult → Bool
is_verdict (ok result) = is_ok result.answer
is_verdict (err e) = false

module _ (core : Core) where
  -- The call is answered without an error.
  abbrev succeeds : History → Call → Bool
  succeeds h Call.snapshot = is_ok (core.snapshot h)
  succeeds h Call.shutdown = not (is_some (core.shutdown h))
  succeeds h (Call.scan path) = is_verdict (core.scan h path)
  succeeds h (Call.reload scanner_id path) = is_ok (core.reload h scanner_id path)
  succeeds h (Call.prepare base source) = is_ok (core.prepare h base source)
  succeeds h (Call.active_worker scanner_id) = is_ok (core.active_worker h scanner_id)
  succeeds h (Call.start_worker c) = not (is_some (core.start_worker h c))

  abbrev all_succeed : List Call → History → Bool
  all_succeed [] h = true
  all_succeed (call ∷ calls) h = succeeds (calls ++ h) call && all_succeed calls h

  -- The calls are of the command, and the response tells how they were answered.
  pub record IsServed (r : CommandRequest) (h : History) (response : CommandResponse)
      (after : History) : Type 0 where
    pub calls : List Call
    pub made : after ≡ calls ++ h
    pub permitted : All (λ call. permits r.command call ≡ true) calls
    pub success :
        response.success ≡ (not (is_some (validate_command_request r)) && all_succeed calls h)
    pub rejected : is_some (validate_command_request r) ≡ true → calls ≡ []
    pub stops : response.shutdown ≡ true → calls ≡ Call.shutdown ∷ []

  abbrev pub Answered : CommandRequest → History → Result Panic CommandResponse × History → Type 0
  Answered r h (answer, after) =
      (response : CommandResponse) × (answer ≡ ok response) × IsServed r h response after

  served :
      (r : CommandRequest) (h : History) (response : CommandResponse) (calls : List Call)
      → validate_command_request r ≡ none
      → All (λ call. permits r.command call ≡ true) calls
      → response.success ≡ all_succeed calls h
      → (response.shutdown ≡ true → calls ≡ Call.shutdown ∷ [])
      → Answered r h (ok response, calls ++ h)
  served r h response calls e permitted success stops = (
    response,
    refl,
    record {
      calls = calls;
      made = refl;
      permitted = permitted;
      success = ground (arith, e, success);
      rejected = λ x. absurd (ground (arith, e, x));
      stops = stops;
    },
  )

  module _ (files : Files) (formats : Formats) (config_dir : String) where
    abbrev Runs : String → Type 0
    Runs c =
        (args : List String) (h : History)
        → validate_command_request (record { command = c; args = args }) ≡ none
        → Answered (record { command = c; args = args }) h
            (dispatch_valid core files formats config_dir c args h)

    status-Runs : Runs "status"
    unfolding dispatch_valid
    status-Runs args h e =
        served (record { command = "status"; args = args }) h _ (Call.snapshot ∷ []) e (refl, tt)
          (ground arith) λ s. absurd (ground arith)

    shutdown-Runs : Runs "shutdown"
    unfolding dispatch_valid
    shutdown-Runs args h e =
        served (record { command = "shutdown"; args = args }) h _ (Call.shutdown ∷ []) e (refl, tt)
          (ground arith) λ s. refl

    scan-Runs : Runs "scan"
    unfolding dispatch_valid resolve_control_path validate_command_request lookup any
    scan-Runs [] h e = absurd (ground arith)
    scan-Runs (path ∷ rest) h e =
        let resolved = resolve_control_path files config_dir path in
        served (record { command = "scan"; args = path ∷ rest }) h _ (Call.scan resolved ∷ []) e
          (refl, tt) (ground arith) λ s. absurd (ground arith)

    reload-Runs : Runs "reload"
    unfolding dispatch_valid resolve_control_path validate_command_request lookup any
    reload-Runs [] h e = absurd (ground arith)
    reload-Runs (scanner_id ∷ []) h e = absurd (ground arith)
    reload-Runs (scanner_id ∷ path ∷ rest) h e =
        let resolved = resolve_control_path files config_dir path in
        served (record { command = "reload"; args = scanner_id ∷ path ∷ rest }) h _
          (Call.reload scanner_id resolved ∷ []) e (refl, tt) (ground arith)
          λ s. absurd (ground arith)

    -- The last two calls of an update, one at a time.
    module _ (source : String) (args : List String) (h : History) where
      abbrev updating : CommandRequest
      updating = record { command = "update"; args = args }

      abbrev first_call : Call
      first_call = Call.prepare config_dir source

      replace_active-Answered :
          (p : PreparedRelease) (answer : Result String WorkerConfig)
          → validate_command_request updating ≡ none
          → core.prepare h config_dir source ≡ ok p
          → core.active_worker (first_call ∷ h) p.manifest.scanner_id ≡ answer
          → Answered updating h (
              replace_active core files formats config_dir p answer
                (Call.active_worker p.manifest.scanner_id ∷ first_call ∷ h))
      replace_active-Answered p (err x) e prepared active =
          served updating h _ (Call.active_worker p.manifest.scanner_id ∷ first_call ∷ []) e
            (refl, (refl, tt)) (ground (arith, active)) λ s. absurd (ground arith)
      replace_active-Answered p (ok w) e prepared active =
          served updating h _
            (Call.start_worker (candidate p w)
              ∷ Call.active_worker p.manifest.scanner_id
              ∷ first_call
              ∷ [])
            e (refl, (refl, (refl, tt))) (ground (arith, active, prepared))
            λ s. absurd (ground arith)

      serve_prepared-Answered :
          (answer : Result String PreparedRelease)
          → validate_command_request updating ≡ none
          → core.prepare h config_dir source ≡ answer
          → Answered updating h
              (serve_prepared core files formats config_dir answer (first_call ∷ h))
      serve_prepared-Answered (err x) e prepared =
          served updating h _ (first_call ∷ []) e (refl, tt) (ground (arith, prepared))
            λ s. absurd (ground arith)
      serve_prepared-Answered (ok p) e prepared =
          replace_active-Answered p (core.active_worker (first_call ∷ h) p.manifest.scanner_id) e
            prepared refl

    update-Runs : Runs "update"
    unfolding dispatch_valid validate_command_request lookup any
    update-Runs [] h e = absurd (ground arith)
    update-Runs (source ∷ rest) h e =
        serve_prepared-Answered source (source ∷ rest) h (core.prepare h config_dir source) e refl

    any-Runs : (c : String) → Runs c
    any-Runs c args h e =
        valid_command c args e Runs scan-Runs status-Runs reload-Runs update-Runs shutdown-Runs args
          h e

    -- Core answers every request: no index of the arguments is out of range, and a request that is
    -- refused makes no call. The calls that are made are those of the request's command. The
    -- response says success exactly if the request is not refused and no call that was made
    -- answered with an error, and it asks Core to stop only after Shutdown alone was called.
    pub dispatch_command-Answered :
        (r : CommandRequest) (h : History)
        → Answered r h (dispatch_command core files formats config_dir r h)
    unfolding dispatch_command
    dispatch_command-Answered r h =
        option_cases (Answered r h) (validate_command_request r) _ _
          (λ e. any-Runs r.command r.args h e)
          λ x e. (
            _,
            refl,
            record {
              calls = [];
              made = refl;
              permitted = tt;
              success = ground (arith, e);
              rejected = λ s. refl;
              stops = λ s. absurd (ground arith);
            },
          )
