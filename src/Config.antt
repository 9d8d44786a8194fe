-- ===== src/Config.antt =====
-- pkg/config/config.go: the configuration of Core. What the packages os and path/filepath answer
-- is a parameter, and so is encoding/json.
pub mod Check
pub mod Accepted
use mini_av.Prelude.{String, Bool, Result}
use mini_av.Prelude.Int.{ℤ}

pub record Worker : Type 0 where
  pub scanner_id : String
  pub worker_version : String
  pub transport : String
  pub executable : String
  pub signature_path : String
  pub delay_ms : ℤ
  pub crash_on_scan : Bool
  pub fail_health : Bool

pub record Config : Type 0 where
  pub startup_timeout_ms : ℤ
  pub scan_timeout_ms : ℤ
  pub stdio_worker : Worker
  pub socket_worker : Worker
  pub grpc_worker : Worker
  pub base_dir : String

-- filepath.IsAbs, Join and Abs, and os.Stat, whose answer is whether the file is regular.
pub record Files : Type 0 where
  pub is_abs : String → Bool
  pub join : String → String → String
  pub abs : String → Result String String
  pub stat : String → Result String Bool
