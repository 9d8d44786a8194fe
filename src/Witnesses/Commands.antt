-- ===== src/Witnesses/Commands.antt =====
-- The command line and a control connection, with a Core whose scan finds nothing.
use Prim.Native.String
use mini_av.Prelude.{
  ◌≡◌, ◌↔◌, refl, subst, String, none, List, [], ◌∷◌, true, false, if◌then◌else◌, ok, err, any,
  arith,
}
use mini_av.Prelude.Equality.{◌==◌, string_eq}
use mini_av.Prelude.Text.{is_blank}
use mini_av.Prelude.Table.{lookup}
use mini_av.Config.{Files}
use mini_av.Signatures.Bytes.{Bytes}
use mini_av.Ipc.Limited.{Codec, IsKept}
use mini_av.Aggregator
use mini_av.Runtime.State.{ScanResult}
use mini_av.Commands.{CommandRequest, CommandResponse}
use mini_av.Commands.Request.{validate_command_request, resolve_control_path}
use mini_av.Commands.Cli.{ParseFlags, request_invocation, parse_invocation}
use mini_av.Commands.Accepted.{IsFlags, parse_invocation-accepts}
use mini_av.Commands.Texts.{Formats, scan_output}
use mini_av.Commands.Dispatch.{Core, dispatch_command, dispatch_valid}
use mini_av.Commands.Served.{Answered, dispatch_command-Answered}
use mini_av.Commands.Connection.{send_command}
use mini_av.Commands.Exchange.{joined, received_response, send_command-joined}

-- A flag's value is the second argument, if the first one is the flag.
abbrev two_flags : ParseFlags
two_flags name (flag ∷ value ∷ []) =
    if flag == String.◌++◌ "--" name then ok (value, []) else err "flag provided but not defined"
two_flags name args = err "no flag"

two_flags-IsFlags : IsFlags two_flags
two_flags-IsFlags = record { sets = λ value. refl }

abbrev scan_file : CommandRequest
scan_file = record { command = "scan"; args = "/tmp/file" ∷ [] }

parse_invocation-accepts_example : (validate_command_request scan_file ≡ none) ↔ (
    (args : List String) × (parse_invocation two_flags args
      ≡ ok (request_invocation scan_file.command scan_file.args)))
parse_invocation-accepts_example = parse_invocation-accepts two_flags two_flags-IsFlags scan_file

abbrev clean_result : ScanResult
clean_result = record { request_id = 3; answer = ok Aggregator.Verdict.clean; results = [] }

abbrev calm_core : Core
calm_core = record {
  snapshot = λ h. ok [];
  scan = λ h path. ok clean_result;
  reload = λ h scanner_id path. err "no worker";
  active_worker = λ h scanner_id. err "no worker";
  start_worker = λ h c. none;
  shutdown = λ h. none;
  prepare = λ h base source. err "no release";
}

abbrev flat_files : Files
flat_files = record {
  is_abs = λ path. true;
  join = λ base path. path;
  abs = λ path. ok path;
  stat = λ path. ok true;
}

abbrev formats : Formats
formats = record {
  number = λ n. "3";
  signed = λ n. "3";
  reason = λ r. "reason";
  request_error = λ e. "bad request";
  aggregate_error = λ e. "no verdict";
  unknown_command = λ s. "unknown command";
  read_failed = λ s. "read command";
  decode_failed = λ s. "decode command";
  rolled_back = λ s. "update rolled back";
  before = λ a b. true;
}

dispatch_command-Answered_example :
    Answered calm_core scan_file []
      (dispatch_command calm_core flat_files formats "/etc/miniav" scan_file [])
dispatch_command-Answered_example =
    dispatch_command-Answered calm_core flat_files formats "/etc/miniav" scan_file []

abbrev scan_line : Bytes
scan_line = b's' ∷ b'\n' ∷ []

abbrev clean_line : Bytes
clean_line = b'c' ∷ b'\n' ∷ []

abbrev clean_response : CommandResponse
clean_response = record {
  success = true;
  output = "verdict: CLEAN\nrequest_id: 3";
  error = "";
  shutdown = false;
}

abbrev scan_codec : Codec CommandRequest
scan_codec = record { encode = λ r. scan_line; decode = λ s. ok scan_file }

abbrev clean_codec : Codec CommandResponse
clean_codec = record { encode = λ r. clean_line; decode = λ s. ok clean_response }

scan_file-IsKept : IsKept scan_codec scan_file
scan_file-IsKept = record {
  payload = b's' ∷ [];
  line = refl;
  one_line = (refl, tt);
  decodes = refl;
}

clean_response-IsKept : IsKept clean_codec clean_response
clean_response-IsKept = record {
  payload = b'c' ∷ [];
  line = refl;
  one_line = (refl, tt);
  decodes = refl;
}

scan_file-clean :
    (dispatch_command calm_core flat_files formats "/etc/miniav" scan_file []).0 ≡ ok clean_response
unfolding dispatch_command dispatch_valid validate_command_request resolve_control_path scan_output
    lookup any is_blank
scan_file-clean = refl

only_clean :
    (response : CommandResponse)
    → (dispatch_command calm_core flat_files formats "/etc/miniav" scan_file []).0 ≡ ok response
    → IsKept clean_codec response
only_clean response e =
    let same : clean_response ≡ response = ground (arith, scan_file-clean, e) in
    subst (IsKept clean_codec) same clean_response-IsKept

send_command-joined_example :
    (response : CommandResponse) × ((dispatch_command calm_core flat_files formats "/etc/miniav"
        scan_file []).0
      ≡ ok response)
    × (send_command scan_codec clean_codec
          (joined scan_codec clean_codec calm_core flat_files formats
            (λ e. "bad frame")
            "/etc/miniav"
            (λ s. none)
            [])
          scan_file
        ≡ received_response (clean_codec.encode response) response)
send_command-joined_example =
    send_command-joined scan_codec clean_codec calm_core flat_files formats (λ e. "bad frame")
      "/etc/miniav" (λ s. none) scan_file [] scan_file-IsKept only_clean (omega arith)
