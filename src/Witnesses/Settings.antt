-- ===== src/Witnesses/Settings.antt =====
-- A configuration of three workers for pkg/config/config.go.
use mini_av.Prelude.{◌≡◌, ◌↔◌, ◌≤◌, ◌*◌, String, true, false, not, ok}
use mini_av.Prelude.Equality.{◌==◌, string_eq}
use mini_av.Prelude.Int.{ℤ}
use mini_av.Config.{Worker, Config, Files}
use mini_av.Config.Check.{validate, milliseconds}
use mini_av.Config.Accepted.{IsValid, validate-IsValid, milliseconds-bound}

-- The signature file is given by a relative path. Every file is regular.
abbrev flat_files : Files
flat_files = record {
  is_abs = λ path. not (path == "signatures");
  join = λ base path. "/etc/signatures";
  abs = λ path. ok path;
  stat = λ path. ok true;
}

abbrev worker_of : String → String → String → Worker
worker_of id transport path = record {
  scanner_id = id;
  worker_version = "1.0.0";
  transport = transport;
  executable = "/bin/scanner";
  signature_path = path;
  delay_ms = ℤ.pos 0;
  crash_on_scan = false;
  fail_health = false;
}

abbrev config_of : String → String → String → String → Config
config_of stdio socket grpc path = record {
  startup_timeout_ms = ℤ.pos 5000;
  scan_timeout_ms = ℤ.pos 1000;
  stdio_worker = worker_of "a" stdio path;
  socket_worker = worker_of "b" socket path;
  grpc_worker = worker_of "c" grpc path;
  base_dir = "/etc";
}

validate-IsValid_example :
    (validate flat_files (config_of "" "" "" "signatures")
      ≡ ok (config_of "stdio" "socket" "grpc" "/etc/signatures"))
    ↔ IsValid flat_files
        (config_of "" "" "" "signatures")
        (config_of "stdio" "socket" "grpc" "/etc/signatures")
validate-IsValid_example =
    validate-IsValid flat_files (config_of "" "" "" "signatures")
      (config_of "stdio" "socket" "grpc" "/etc/signatures")

milliseconds-bound_example :
    (milliseconds (ℤ.pos 5000) ≡ ℤ.pos (5000 * 1_000_000)) ↔ (5000 ≤ 9_223_372_036_854)
milliseconds-bound_example = milliseconds-bound 5000
