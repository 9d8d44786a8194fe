-- ===== src/Witnesses/Workers.antt =====
-- A session of pkg/worker/worker.go: a SCAN, the end of the scan, and a SHUTDOWN.
use mini_av.Prelude.{◌+◌, ◌≡◌, refl, none, some, List, [], ◌∷◌, true, false, All, any}
use mini_av.Prelude.Int.{ℤ}
use mini_av.Prelude.Text.{is_blank}
use mini_av.Prelude.Equality.{contains}
use mini_av.Protocol.{MessageType, Message, new_message}
use mini_av.Protocol.Validate.{validate, check_required, validate_allowed_fields}
use mini_av.Signatures.Match.{find_pattern, next_tail}
use mini_av.Signatures.Bytes.{bytes_contains}
use mini_av.Signatures.Load.{FileAnswer}
use mini_av.Signatures.Search.{reads_of, content}
use mini_av.Worker.{Settings, validate_config}
use mini_av.Worker.Scan.{ScanFile, ScanTexts, handle_scan}
use mini_av.Worker.Session.{
  Phase, Session, Received, Turn, WorkerTexts, run, new_session, pick, load_database,
}
use mini_av.Worker.Verdicts.{Answers, handle_scan-Answers}
use mini_av.Worker.Sent.{run-accepted}
use mini_av.Worker.Farewell.{is_ack, HasLeft, run-HasLeft}
use mini_av.Worker.Drained.{
  cancels, Drains, loads, finishes, early, idle, over, HasReturned, run-HasReturned,
}
use mini_av.Worker.Answered.{results, flying, taken, run-results}
use mini_av.Witnesses.Scanning.{
  two_patterns, accept_all, signature_file, cut_text, two_patterns-loaded,
}

abbrev scan_texts : ScanTexts
scan_texts = record { of_error = λ e. "the scan failed"; of_bytes = λ p. "abc" }

abbrev worker_texts : WorkerTexts
worker_texts = record {
  scans = scan_texts;
  of_load = λ e. "the reload failed";
  utf8_valid = accept_all;
}

abbrev settings : Settings
settings = record {
  scanner_id = "scanner-a";
  worker_version = "1.0.0";
  signature_path = "/etc/signatures";
  delay = ℤ.pos 0;
  crash_on_scan = false;
  fail_health = false;
}

abbrev scan_request : Message
scan_request = record (new_message MessageType.scan) { request_id = 7; file_path = "/tmp/file" }

abbrev scanned_file : ScanFile
scanned_file = ScanFile.regular (reads_of cut_text []) none

abbrev session_turns : List Turn
session_turns =
    Turn.receives (Received.message scan_request) (FileAnswer.contents []) none
    ∷ Turn.receives (Received.message (new_message MessageType.shutdown)) (FileAnswer.contents [])
        none
    ∷ Turn.finishes 0 scanned_file 12 none
    ∷ Turn.ends none
    ∷ []

handle_scan-Answers_example :
    (m : Message) × (handle_scan scan_texts (some two_patterns) scan_request scanned_file 12
      ≡ some m)
    × (m.request_id ≡ 7)
    × Answers scan_texts.of_bytes two_patterns.patterns (content cut_text []) m
handle_scan-Answers_example =
    handle_scan-Answers scan_texts accept_all (FileAnswer.contents signature_file) two_patterns
      scan_request cut_text [] 12 two_patterns-loaded (λ e. cc, (λ e. cc, tt))

settings-valid : validate_config settings ≡ none
unfolding validate_config is_blank
settings-valid = refl

error_text_given : is_blank "the reload failed" ≡ false
unfolding is_blank
error_text_given = refl

scan_request-valid : validate scan_request ≡ none
unfolding validate check_required validate_allowed_fields contains is_blank
scan_request-valid = refl

shutdown-valid : validate (new_message MessageType.shutdown) ≡ none
unfolding validate check_required validate_allowed_fields contains is_blank
shutdown-valid = refl

run-accepted_example :
    All
      (λ m. validate m ≡ none)
      (run settings worker_texts session_turns (new_session (some two_patterns))).sent
run-accepted_example =
    run-accepted settings worker_texts session_turns (some two_patterns) settings-valid
      (λ e. error_text_given) (scan_request-valid, (shutdown-valid, (tt, (tt, tt))))

session_acks :
    any is_ack (run settings worker_texts session_turns (new_session (some two_patterns))).sent
    ≡ true
unfolding run any reads_of find_pattern bytes_contains next_tail
session_acks = refl

run-HasLeft_example :
    HasLeft (run settings worker_texts session_turns (new_session (some two_patterns)))
run-HasLeft_example =
    run-HasLeft settings worker_texts session_turns (some two_patterns)
      (scan_request-valid, (shutdown-valid, (tt, (tt, tt)))) session_acks

run-results_example :
    results 7 (run settings worker_texts session_turns (new_session (some two_patterns))).sent
      + flying 7 (run settings worker_texts session_turns (new_session (some two_patterns))).scans
    ≡ taken settings worker_texts 7 session_turns (new_session (some two_patterns))
run-results_example =
    run-results settings worker_texts 7 session_turns (some two_patterns)
      (tt, (tt, (refl, (tt, tt))))

-- A session with two scans in flight, of different files.
abbrev other_request : Message
other_request = record (new_message MessageType.scan) { request_id = 8; file_path = "/tmp/other" }

abbrev busy_session : Session
busy_session = record {
  store = some two_patterns;
  scans =
      record { request = scan_request; loaded = none }
      ∷ record { request = other_request; loaded = none }
      ∷ [];
  sent = [];
  phase = Phase.serving;
}

-- The second scan ends first, with an error, and its result is not sent.
abbrev drain_turns : List Turn
drain_turns =
    Turn.loads 1
    ∷ Turn.finishes 1 (ScanFile.open_failed "no such file") 30 (some "closed")
    ∷ Turn.ends none
    ∷ Turn.cancels "interrupted"
    ∷ Turn.finishes 0 scanned_file 12 none
    ∷ Turn.ends none
    ∷ []

drain_turns-Drains : Drains settings worker_texts (some two_patterns) busy_session.scans drain_turns
unfolding handle_scan reads_of find_pattern bytes_contains next_tail pick load_database
drain_turns-Drains = loads 1 (
    finishes 1 record { request = other_request; loaded = some (some two_patterns) }
      (ScanFile.open_failed "no such file") 30 (some "closed") refl refl
      (early none (
        idle (cancels "interrupted") (
          finishes 0 record { request = scan_request; loaded = none } scanned_file 12 none refl refl
            over))))

run-HasReturned_example : HasReturned settings worker_texts (
    run settings worker_texts
      (Turn.receives
          (Received.message (new_message MessageType.shutdown))
          (FileAnswer.contents [])
          none
        ∷ drain_turns)
      busy_session)
run-HasReturned_example =
    run-HasReturned settings worker_texts (new_message MessageType.shutdown)
      (FileAnswer.contents []) none busy_session drain_turns refl refl drain_turns-Drains
