-- ===== src/Commands/Dispatch.antt =====
-- dispatchCommand of cmd/miniav/transport.go. What the runtime of pkg/coordinator and Prepare of
-- pkg/update answer is any function of the calls before, the last one first.
use mini_av.Prelude.Actions
use mini_av.Prelude.Actions.{◌>>=◌, returned}
use mini_av.Prelude.{
  String, Option, none, some, List, [], ◌∷◌, true, false, if◌then◌else◌, Result, ok, err,
}
use mini_av.Prelude.Equality.{◌==◌, string_eq}
use mini_av.Prelude.Int.{ℤ}
use mini_av.Config
use mini_av.Config.{Files}
use mini_av.Update.{PreparedRelease}
use mini_av.Runtime.State.{WorkerConfig, ReloadResult, WorkerView, ScanResult}
use mini_av.Commands.{CommandRequest, CommandResponse, no_response}
use mini_av.Commands.Request.{validate_command_request, resolve_control_path}
use mini_av.Commands.Texts.{Formats, status_output, scan_output, reload_output, update_output}

pub data Call : Type 0 where
  snapshot shutdown : Call
  scan active_worker : String → Call
  reload prepare : String → String → Call
  start_worker : Config.Worker → Call

abbrev pub History : Type 0
History = List Call

-- An error is its text; Shutdown and StartWorker return `none` for nil.
pub record Core : Type 0 where
  pub snapshot : History → Result String (List WorkerView)
  pub scan : History → String → Result String ScanResult
  pub reload : History → String → String → Result String ReloadResult
  pub active_worker : History → String → Result String WorkerConfig
  pub start_worker : History → Config.Worker → Option String
  pub shutdown : History → Option String
  pub prepare : History → String → String → Result String PreparedRelease

-- An index out of range ends the program.
pub data Panic : Type 0 where
  index_out_of_range : Panic

abbrev pub Action : Type 0 → Type 0
Action A = Actions.Action Call Panic A

abbrev pub failed : String → CommandResponse
failed e = record no_response { error = e }

abbrev pub succeeded : String → CommandResponse
succeeded s = record no_response { success = true; output = s }

-- request.Args[0] and request.Args[1]
abbrev pub first : List String → Result Panic String
first [] = err Panic.index_out_of_range
first (a ∷ rest) = ok a

abbrev pub second : List String → Result Panic String
second (a ∷ b ∷ rest) = ok b
second rest = err Panic.index_out_of_range

-- The fields of config.Worker that are not set are zero.
abbrev pub candidate : PreparedRelease → WorkerConfig → Config.Worker
candidate p active = record {
  scanner_id = p.manifest.scanner_id;
  worker_version = p.manifest.worker_version;
  transport = active.transport;
  executable = p.staged_path;
  signature_path = active.signature_path;
  delay_ms = ℤ.pos 0;
  crash_on_scan = false;
  fail_health = false;
}

module _ (core : Core) (files : Files) (formats : Formats) (config_dir : String) where
  abbrev respond : CommandResponse → History → Result Panic CommandResponse × History
  respond r h = (ok r, h)

  abbrev status_response : Result String (List WorkerView) → CommandResponse
  status_response (err e) = failed e
  status_response (ok workers) = succeeded (status_output formats workers)

  abbrev status_command : Action CommandResponse
  status_command h = respond (status_response (core.snapshot h)) (Call.snapshot ∷ h)

  abbrev shutdown_response : Option String → CommandResponse
  shutdown_response (some e) = failed e
  shutdown_response none = record (succeeded "core: stopped") { shutdown = true }

  abbrev shutdown_command : Action CommandResponse
  shutdown_command h = respond (shutdown_response (core.shutdown h)) (Call.shutdown ∷ h)

  -- A result whose verdicts cannot be combined is an error of Scan.
  abbrev scan_response : Result String ScanResult → CommandResponse
  scan_response (err e) = failed e
  scan_response (ok result) = elim result.answer [
    | err e ↦ failed (formats.aggregate_error e)
    | ok verdict ↦ succeeded (scan_output formats result verdict)
  ]

  abbrev run_scan : String → Action CommandResponse
  run_scan path h =
      let resolved = resolve_control_path files config_dir path in
      respond (scan_response (core.scan h resolved)) (Call.scan resolved ∷ h)

  abbrev reload_response : Result String ReloadResult → CommandResponse
  reload_response (err e) = failed e
  reload_response (ok result) = succeeded (reload_output formats result)

  abbrev run_reload : String → String → Action CommandResponse
  run_reload scanner_id path h =
      let resolved = resolve_control_path files config_dir path in
      respond (reload_response (core.reload h scanner_id resolved))
        (Call.reload scanner_id resolved ∷ h)

  abbrev start_response : Config.Worker → WorkerConfig → Option String → CommandResponse
  start_response c active (some e) = failed (formats.rolled_back e)
  start_response c active none =
      succeeded (update_output c.scanner_id active.worker_version c.worker_version)

  abbrev pub run_start : PreparedRelease → WorkerConfig → Action CommandResponse
  run_start p active h =
      let c = candidate p active in
      respond (start_response c active (core.start_worker h c)) (Call.start_worker c ∷ h)

  abbrev pub replace_active : PreparedRelease → Result String WorkerConfig → Action CommandResponse
  replace_active p (err e) h = respond (failed e) h
  replace_active p (ok active) h = run_start p active h

  abbrev pub serve_prepared : Result String PreparedRelease → Action CommandResponse
  serve_prepared (err e) h = respond (failed e) h
  serve_prepared (ok p) h =
      let id = p.manifest.scanner_id in
      replace_active p (core.active_worker h id) (Call.active_worker id ∷ h)

  abbrev run_update : String → Action CommandResponse
  run_update source h =
      serve_prepared (core.prepare h config_dir source) (Call.prepare config_dir source ∷ h)

  abbrev scan_command : List String → Action CommandResponse
  scan_command args = do path ← returned (first args); run_scan path

  abbrev reload_command : List String → Action CommandResponse
  reload_command args = do
    scanner_id ← returned (first args)
    path ← returned (second args)
    run_reload scanner_id path

  abbrev update_command : List String → Action CommandResponse
  update_command args = do source ← returned (first args); run_update source

  -- The switch.
  unfoldable pub dispatch_valid : String → List String → Action CommandResponse
  dispatch_valid command args =
      if command == "status"
      then status_command
      else if command == "shutdown"
      then shutdown_command
      else if command == "scan"
      then scan_command args
      else if command == "reload"
      then reload_command args
      else if command == "update"
      then update_command args
      else respond (failed (formats.unknown_command command))

  unfoldable pub dispatch_command : CommandRequest → Action CommandResponse
  unfolding validate_command_request dispatch_valid
  dispatch_command r h = elim (validate_command_request r) [
    | some e ↦ respond (failed (formats.request_error e)) h
    | none ↦ dispatch_valid r.command r.args h
  ]
