-- ===== src/Commands/Cli.antt =====
-- cmd/miniav/cli.go, with main.go: the arguments of the program, and what it prints and exits with.
use mini_av.Prelude.{
  ℕ, String, Option, none, some, List, [], ◌∷◌, Bool, true, false, not, ◌||◌, ◌&&◌, if◌then◌else◌,
  nat_beq, length, Result, ok, err, ◌>>=◌, ◌>>◌, refuse_if,
}
use mini_av.Prelude.Equality.{◌==◌, string_eq}
use mini_av.Prelude.Text.{is_blank}
use mini_av.Config.Check.{or_error}
use mini_av.Commands.{CommandRequest, CommandResponse, no_request}

pub record Invocation : Type 0 where
  pub serve : Bool
  pub config_path : String
  pub request : CommandRequest

-- `flag_required` has the command, the flag and the placeholder.
pub data UsageError : Type 0 where
  no_command scan_count scan_blank status_count reload_count reload_blank shutdown_count :
      UsageError
  flags : String → UsageError
  positional unknown_command : String → UsageError
  flag_required : String → String → String → UsageError

-- FlagSet.Parse of a set with one text flag: the flag's value and the arguments that are left.
abbrev pub ParseFlags : Type 0
ParseFlags = String → List String → Result String (String × List String)

unfoldable pub request_invocation : String → List String → Invocation
request_invocation command args = record {
  serve = false;
  config_path = "";
  request = record { command = command; args = args };
}

abbrev placeholder : String → String → String
placeholder name command = if command == "update" && name == "manifest" then "source" else "path"

-- What is printed: an error, or an output.
pub data Printed : Type 0 where
  usage_error : UsageError → Printed
  failure output : String → Printed
  nothing : Printed

-- const defaultCoreAddress
abbrev pub default_core_address : String
default_core_address = "127.0.0.1:7331"

module _ (parse_flags : ParseFlags) where
  unfoldable pub required_flag : List String → String → String → Result UsageError String
  unfolding is_blank
  required_flag args name command = do
    parsed ← or_error UsageError.flags (parse_flags name args)
    refuse_if (not (nat_beq (length parsed.1) 0)) (UsageError.positional command)
    refuse_if (is_blank parsed.0) (UsageError.flag_required command name (placeholder name command))
    ok parsed.0

  abbrev serve_invocation : List String → Result UsageError Invocation
  serve_invocation rest = do
    path ← required_flag rest "config" "serve"
    ok (record { serve = true; config_path = path; request = no_request })

  abbrev pub scan_invocation : List String → Result UsageError Invocation
  scan_invocation (path ∷ []) =
      if is_blank path
      then err UsageError.scan_blank
      else ok (request_invocation "scan" (path ∷ []))
  scan_invocation rest = err UsageError.scan_count

  abbrev pub status_invocation : List String → Result UsageError Invocation
  status_invocation [] = ok (request_invocation "status" [])
  status_invocation rest = err UsageError.status_count

  abbrev pub reload_invocation : List String → Result UsageError Invocation
  reload_invocation (scanner_id ∷ path ∷ []) =
      if is_blank scanner_id || is_blank path
      then err UsageError.reload_blank
      else ok (request_invocation "reload" (scanner_id ∷ path ∷ []))
  reload_invocation rest = err UsageError.reload_count

  abbrev pub update_invocation : List String → Result UsageError Invocation
  update_invocation rest = do
    source ← required_flag rest "manifest" "update"
    ok (request_invocation "update" (source ∷ []))

  abbrev pub shutdown_invocation : List String → Result UsageError Invocation
  shutdown_invocation [] = ok (request_invocation "shutdown" [])
  shutdown_invocation rest = err UsageError.shutdown_count

  -- The arguments after the program's name.
  unfoldable pub parse_invocation : List String → Result UsageError Invocation
  unfolding required_flag request_invocation
  parse_invocation [] = err UsageError.no_command
  parse_invocation (command ∷ rest) =
      if command == "serve"
      then serve_invocation rest
      else if command == "scan"
      then scan_invocation rest
      else if command == "status"
      then status_invocation rest
      else if command == "reload"
      then reload_invocation rest
      else if command == "update"
      then update_invocation rest
      else if command == "shutdown"
      then shutdown_invocation rest
      else err (UsageError.unknown_command command)

  -- if response.Error == "" { … }
  abbrev failure_text : String → String
  failure_text text = if text == "" then "core returned an unsuccessful response" else text

  abbrev served : Option String → Printed × ℕ
  served none = (Printed.nothing, 0)
  served (some e) = (Printed.failure e, 1)

  abbrev responded : Result String CommandResponse → Printed × ℕ
  responded (err e) = (Printed.failure e, 1)
  responded (ok r) =
      if not r.success
      then (Printed.failure (failure_text r.error), 1)
      else (if r.output == "" then Printed.nothing else Printed.output r.output, 0)

  abbrev ran :
      (String → Option String)
      → (CommandRequest → Result String CommandResponse)
      → Result UsageError Invocation
      → Printed × ℕ
  ran serve request (err e) = (Printed.usage_error e, 2)
  ran serve request (ok i) =
      let answer = served (serve i.config_path) in
      let response = responded (request i.request) in if i.serve then answer else response

  -- The method `run`, with the two functions of the struct cli, and the exit code.
  unfoldable pub run :
      (String → Option String)
      → (CommandRequest → Result String CommandResponse)
      → List String
      → Printed × ℕ
  unfolding parse_invocation
  run serve request args = ran serve request (parse_invocation args)

  -- cmd/miniav/main.go: what is printed, whether the usage is printed after it, and the exit code.
  -- The two functions are given Core's address.
  unfoldable pub main :
      (String → String → Option String)
      → (String → CommandRequest → Result String CommandResponse)
      → List String
      → Printed × Bool × ℕ
  unfolding run
  main serve request args =
      let (printed, code) = run (serve default_core_address) (request default_core_address) args in
      (printed, nat_beq code 2, code)
