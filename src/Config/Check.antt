-- ===== src/Config/Check.antt =====
-- Load and `validate` of pkg/config/config.go.
use mini_av.Prelude.{
  ◌*◌, ◌+◌, String, Option, none, some, List, [], ◌∷◌, not, Result, ok, err, ◌>>=◌, ◌>>◌, refuse_if,
  if◌then◌else◌,
}
use mini_av.Prelude.Equality.{contains, string_eq}
use mini_av.Prelude.Int.{ℤ, is_negative, is_positive, to_int64}
use mini_av.Prelude.Text.{is_blank}
use mini_av.Protocol.Wire.{Trailer}
use mini_av.Config.{Worker, Config, Files}

-- The entry of the loop's table: the field of Config with its transport.
pub data Slot : Type 0 where
  stdio_worker socket_worker grpc_worker : Slot

abbrev pub transport_of : Slot → String
transport_of Slot.stdio_worker = "stdio"
transport_of Slot.socket_worker = "socket"
transport_of Slot.grpc_worker = "grpc"

pub data PathError : Type 0 where
  empty not_regular : PathError
  resolve stat : String → PathError

pub data ConfigError : Type 0 where
  bad_startup_timeout bad_scan_timeout : ConfigError
  empty_scanner_id empty_version negative_delay : Slot → ConfigError
  duplicate_scanner_id : String → ConfigError
  bad_executable bad_signature_path : Slot → PathError → ConfigError
  resolve_failed stat_failed read_failed : String → ConfigError
  irregular decode_failed multiple_values : ConfigError

abbrev pub or_error {ε δ ℓ} :
    {D : Type δ} {E : Type ε} {A : Type ℓ} → (D → E) → Result D A → Result E A
or_error f (ok a) = ok a
or_error f (err d) = err (f d)

-- The value that Decode finds in the file, with what a second Decode then finds.
abbrev pub single_value : Option (Config × Trailer) → Result ConfigError Config
single_value none = err ConfigError.decode_failed
single_value (some (c, Trailer.end_of_input)) = ok c
single_value (some (c, Trailer.value)) = err ConfigError.multiple_values
single_value (some (c, Trailer.malformed)) = err ConfigError.decode_failed

module _ (files : Files) where
  abbrev pub rooted : String → String → String
  rooted base path = if files.is_abs path then path else files.join base path

  unfoldable pub regular_path : String → String → Result PathError String
  regular_path base path = do
    refuse_if (is_blank path) PathError.empty
    absolute ← or_error PathError.resolve (files.abs (rooted base path))
    is_regular ← or_error PathError.stat (files.stat absolute)
    refuse_if (not is_regular) PathError.not_regular
    ok absolute

  -- A round of the loop, with the scanner IDs that it has seen.
  unfoldable pub check_worker : String → List String → Slot → Worker → Result ConfigError Worker
  check_worker base seen slot w = do
    refuse_if (is_blank w.scanner_id) (ConfigError.empty_scanner_id slot)
    refuse_if (contains seen w.scanner_id) (ConfigError.duplicate_scanner_id w.scanner_id)
    refuse_if (is_blank w.worker_version) (ConfigError.empty_version slot)
    refuse_if (is_negative w.delay_ms) (ConfigError.negative_delay slot)
    executable ← or_error (ConfigError.bad_executable slot) (regular_path base w.executable)
    signature_path ←
        or_error (ConfigError.bad_signature_path slot) (regular_path base w.signature_path)
    ok (record w {
      transport = transport_of slot;
      executable = executable;
      signature_path = signature_path;
    })

  -- The configuration as `validate` leaves it.
  unfoldable pub validate : Config → Result ConfigError Config
  validate c = do
    refuse_if (not (is_positive c.startup_timeout_ms)) ConfigError.bad_startup_timeout
    refuse_if (not (is_positive c.scan_timeout_ms)) ConfigError.bad_scan_timeout
    stdio ← check_worker c.base_dir [] Slot.stdio_worker c.stdio_worker
    socket ← check_worker c.base_dir (stdio.scanner_id ∷ []) Slot.socket_worker c.socket_worker
    grpc ←
        check_worker c.base_dir (socket.scanner_id ∷ stdio.scanner_id ∷ []) Slot.grpc_worker
          c.grpc_worker
    ok (record c { stdio_worker = stdio; socket_worker = socket; grpc_worker = grpc })

  -- `read` is what os.ReadFile answers with the value that the decoder finds in it, and `dir` is
  -- filepath.Dir.
  unfoldable pub load :
      (String → String)
      → (String → Result String (Option (Config × Trailer)))
      → String
      → Result ConfigError Config
  load dir read path = do
    absolute ← or_error ConfigError.resolve_failed (files.abs path)
    is_regular ← or_error ConfigError.stat_failed (files.stat absolute)
    refuse_if (not is_regular) ConfigError.irregular
    decoded ← or_error ConfigError.read_failed (read absolute)
    parsed ← single_value decoded
    validate (record parsed { base_dir = dir absolute })

-- time.Duration(n) * time.Millisecond
unfoldable pub milliseconds : ℤ → ℤ
milliseconds (ℤ.pos n) = to_int64 (ℤ.pos (n * 1_000_000))
milliseconds (ℤ.negsuc n) = to_int64 (ℤ.negsuc (n * 1_000_000 + 999_999))

unfoldable pub startup_timeout : Config → ℤ
unfolding milliseconds
startup_timeout c = milliseconds c.startup_timeout_ms

unfoldable pub scan_timeout : Config → ℤ
unfolding milliseconds
scan_timeout c = milliseconds c.scan_timeout_ms

abbrev pub workers : Config → List Worker
workers c = c.stdio_worker ∷ c.socket_worker ∷ c.grpc_worker ∷ []
