-- ===== src/Witnesses/Core.antt =====
-- A run of the loop of pkg/coordinator/runtime.go: a worker is checked and activated, and is sent
-- a scan that it does not answer.
use mini_av.Prelude.{◌≡◌, ◌≢◌, refl, none, some, List, [], ◌∷◌, true, false, ok}
use mini_av.Prelude.Equality.{nat_eq, string_eq}
use mini_av.Prelude.Table.{lookup, insert, find_entry}
use mini_av.Process.{Child}
use mini_av.Protocol.{Message, MessageType, new_message}
use mini_av.Aggregator.{Verdict}
use mini_av.Coordinator.State.{WorkerKey, key_eq, key_beq}
use mini_av.Runtime.State.{RuntimeRequest, WorkerConfig, ScanResult, Effect, initial}
use mini_av.Runtime.Scans.{begin_scan, timeout_scan, no_message}
use mini_av.Runtime.Requests.{queue_worker_message}
use mini_av.Runtime.Messages.{handle_worker_message}
use mini_av.Runtime.Startup.{register_runtime_worker, begin_health, activate_runtime_worker}
use mini_av.Runtime.Loop.{Event, Turn, Texts, run}
use mini_av.Runtime.Bounds.{Sound}
use mini_av.Runtime.Runs.{run-Sound}
use mini_av.Runtime.Timeouts.{timeout_scan-unclean}

abbrev plain_texts : Texts
plain_texts = record { reason = λ r. "worker failed"; before = λ j k. true }

abbrev worker_child : Child
worker_child = record { pid = 41; kill = none; terminated = false; terminate_err = none }

abbrev worker_config : WorkerConfig
worker_config = record {
  scanner_id = "scanner-a";
  worker_version = "1.0.0";
  transport = "stdio";
  signature_path = "signatures.txt";
}

abbrev worker_key : WorkerKey
worker_key = record { scanner_id = "scanner-a"; version = "1.0.0" }

abbrev healthy_message : Message
healthy_message = record (new_message MessageType.health_result) { status = "ok" }

abbrev scan_turns : List Turn
scan_turns =
    Turn.receives (Event.register worker_config worker_child 1)
    ∷ Turn.receives (Event.health worker_key 2)
    ∷ Turn.writes worker_key
    ∷ Turn.receives (Event.worker_message worker_key healthy_message)
    ∷ Turn.receives (Event.activate worker_key 3)
    ∷ Turn.receives (Event.scan "/tmp/file" 4)
    ∷ []

run-Sound_example : Sound (run plain_texts scan_turns initial)
run-Sound_example = run-Sound plain_texts scan_turns

abbrev scan_request : RuntimeRequest
scan_request = record {
  id = 1;
  path = "/tmp/file";
  results = (worker_key, no_message) ∷ [];
  reply = 4;
}

scan_awaits : lookup 1 (run plain_texts scan_turns initial).requests ≡ some scan_request
unfolding run lookup register_runtime_worker find_entry begin_health insert key_beq
    queue_worker_message handle_worker_message activate_runtime_worker begin_scan
scan_awaits = refl

timeout_scan-unclean_example :
    (result : ScanResult) × (log : List Effect) × ((timeout_scan 1
        (run plain_texts scan_turns initial)).log
      ≡ Effect.reply_scan 4 result ∷ log)
    × (result.answer ≢ ok Verdict.clean)
timeout_scan-unclean_example =
    timeout_scan-unclean plain_texts scan_turns 1 scan_request scan_awaits
