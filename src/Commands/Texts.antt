-- ===== src/Commands/Texts.antt =====
-- The output lines that dispatchCommand of cmd/miniav/transport.go makes for the command line.
use Prim.Native.String
use mini_av.Prelude.{ℕ, String, Option, none, some, List, [], ◌∷◌, Bool, if◌then◌else◌, map, length}
use mini_av.Prelude.Equality.{◌==◌, string_eq}
use mini_av.Prelude.Int.{ℤ}
use mini_av.Prelude.Table.{Table, lookup}
use mini_av.Protocol
use mini_av.Protocol.{Message}
use mini_av.Aggregator
use mini_av.Aggregator.{AggregateError}
use mini_av.Coordinator.State.{WorkerState, WorkerKey, key_eq}
use mini_av.Runtime.State.{Reason, ReloadResult, WorkerView, ScanResult}
use mini_av.Commands.Request.{RequestError}

-- What the package fmt makes of numbers and of the errors' formats, and Go's order of two texts.
pub record Formats : Type 0 where
  pub number : ℕ → String
  pub signed : ℤ → String
  pub reason : Reason → String
  pub request_error : RequestError → String
  pub aggregate_error : AggregateError → String
  pub unknown_command : String → String
  pub read_failed : String → String
  pub decode_failed : String → String
  pub rolled_back : String → String
  pub before : String → String → Bool

abbrev pub concat : List String → String
concat [] = ""
concat (s ∷ rest) = String.◌++◌ s (concat rest)

-- strings.Join(lines, "\n")
abbrev pub join_lines : List String → String
join_lines [] = ""
join_lines (line ∷ []) = line
join_lines (line ∷ next ∷ rest) = concat (line ∷ "\n" ∷ join_lines (next ∷ rest) ∷ [])

abbrev pub key_text : WorkerKey → String
key_text k = concat (k.scanner_id ∷ "@" ∷ k.version ∷ [])

abbrev pub state_text : WorkerState → String
state_text WorkerState.starting = "STARTING"
state_text WorkerState.healthy = "HEALTHY"
state_text WorkerState.active = "ACTIVE"
state_text WorkerState.draining = "DRAINING"
state_text WorkerState.retired = "RETIRED"
state_text WorkerState.failed = "FAILED"

abbrev pub verdict_text : Aggregator.Verdict → String
verdict_text Aggregator.Verdict.clean = "CLEAN"
verdict_text Aggregator.Verdict.malware = "MALWARE"
verdict_text Aggregator.Verdict.inconclusive = "INCONCLUSIVE"

abbrev pub worker_verdict_text : Protocol.Verdict → String
worker_verdict_text Protocol.Verdict.unset = ""
worker_verdict_text Protocol.Verdict.clean = "CLEAN"
worker_verdict_text Protocol.Verdict.malware = "MALWARE"
worker_verdict_text Protocol.Verdict.error = "ERROR"
worker_verdict_text Protocol.Verdict.timeout = "TIMEOUT"
worker_verdict_text Protocol.Verdict.unavailable = "UNAVAILABLE"
worker_verdict_text (Protocol.Verdict.other s) = s

module _ (formats : Formats) where
  abbrev reason_text : Option Reason → String
  reason_text none = ""
  reason_text (some r) = concat (" reason=" ∷ formats.reason r ∷ [])

  abbrev worker_line : WorkerView → String
  worker_line v = concat (
      key_text v.key
      ∷ " pid="
      ∷ formats.number v.pid
      ∷ " transport="
      ∷ v.transport
      ∷ " state="
      ∷ state_text v.state
      ∷ reason_text v.failure_reason
      ∷ [])

  unfoldable pub status_output : List WorkerView → String
  status_output workers = join_lines (
      "core: running"
      ∷ concat ("workers: " ∷ formats.number (length workers) ∷ [])
      ∷ map worker_line workers)

  insert_key : WorkerKey → List WorkerKey → List WorkerKey
  insert_key k [] = k ∷ []
  insert_key k (j ∷ keys) =
      let rest = insert_key k keys in
      if formats.before (key_text j) (key_text k) then j ∷ rest else k ∷ j ∷ keys

  -- sort.Slice by the text of the keys.
  sorted_keys : {V : Type 0} → Table WorkerKey V → List WorkerKey
  unfolding insert_key
  sorted_keys [] = []
  sorted_keys ((k, v) ∷ entries) = insert_key k (sorted_keys entries)

  abbrev signature_text : String → String
  signature_text s = if s == "" then "" else concat (" signature=" ∷ s ∷ [])

  -- Each key is one of the map.
  abbrev result_line : Table WorkerKey Message → WorkerKey → String
  result_line results k = elim (lookup k results) [
    | none ↦ concat (key_text k ∷ ": " ∷ [])
    | some m ↦
        concat (key_text k ∷ ": " ∷ worker_verdict_text m.verdict ∷ signature_text m.signature ∷ [])
  ]

  unfoldable pub scan_output : ScanResult → Aggregator.Verdict → String
  unfolding sorted_keys lookup
  scan_output result verdict = join_lines (
      concat ("verdict: " ∷ verdict_text verdict ∷ [])
      ∷ concat ("request_id: " ∷ formats.number result.request_id ∷ [])
      ∷ map (result_line result.results) (sorted_keys result.results))

  unfoldable pub reload_output : ReloadResult → String
  reload_output r = concat (
      "reloaded "
      ∷ r.scanner_id
      ∷ "@"
      ∷ r.worker_version
      ∷ " signatures="
      ∷ formats.signed r.signature_count
      ∷ [])

unfoldable pub update_output : String → String → String → String
update_output scanner_id from to =
    concat ("updated " ∷ scanner_id ∷ " from " ∷ from ∷ " to " ∷ to ∷ [])
