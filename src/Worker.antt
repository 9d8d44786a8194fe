-- ===== src/Worker.antt =====
-- pkg/worker/worker.go: a worker process, which answers the messages of Core. Config is named
-- Settings here; its Crash and Logger are not modelled, the default of the first ends the process.
pub mod Scan
pub mod Session
pub mod Server
pub mod Main
pub mod Flags
pub mod Verdicts
pub mod Keeps
pub mod Sent
pub mod Farewell
pub mod Answered
pub mod Drained
use mini_av.Prelude.{String, Option, none, some, Bool, if◌then◌else◌}
use mini_av.Prelude.Int.{ℤ, is_negative}
use mini_av.Prelude.Text.{is_blank}

-- The delay is a time.Duration.
pub record Settings : Type 0 where
  pub scanner_id : String
  pub worker_version : String
  pub signature_path : String
  pub delay : ℤ
  pub crash_on_scan : Bool
  pub fail_health : Bool

pub data SettingsError : Type 0 where
  empty_scanner_id empty_version empty_signature_path negative_delay : SettingsError

unfoldable pub validate_config : Settings → Option SettingsError
validate_config c =
    if is_blank c.scanner_id
    then some SettingsError.empty_scanner_id
    else if is_blank c.worker_version
    then some SettingsError.empty_version
    else if is_blank c.signature_path
    then some SettingsError.empty_signature_path
    else if is_negative c.delay
    then some SettingsError.negative_delay
    else none
