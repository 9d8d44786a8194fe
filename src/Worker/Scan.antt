-- ===== src/Worker/Scan.antt =====
-- handleScan of pkg/worker/worker.go. What os.Open, Stat, Read and Close answer for the file is an
-- argument, and so are the milliseconds that time.Since counts.
use mini_av.Prelude.{ℕ, String, Option, none, some, List, Result, ok, err}
use mini_av.Prelude.Int.{ℤ}
use mini_av.Protocol
use mini_av.Protocol.{MessageType, Message, new_message}
use mini_av.Signatures.Bytes.{Bytes}
use mini_av.Signatures.Match.{Read, MatchResult, Store, StoreError, match_store}

-- What the file system answers; the last argument is what Close returns.
pub data ScanFile : Type 0 where
  open_failed : String → ScanFile
  stat_failed : String → Option String → ScanFile
  irregular : Option String → ScanFile
  regular : List Read → Option String → ScanFile

pub data ScanError : Type 0 where
  file_error read_error : String → ScanError
  not_regular : String → ScanError
  store_error : StoreError → ScanError
  no_progress : ScanError

-- The texts: of an error, and of a pattern's bytes.
pub record ScanTexts : Type 0 where
  pub of_error : ScanError → String
  pub of_bytes : Bytes → String

abbrev pub Matched : Type 0
Matched = Result ScanError (Option Bytes)

-- What store.Match returns, `none` if it does not return.
abbrev matched : Result StoreError MatchResult → Option Matched
matched (err e) = some (err (ScanError.store_error e))
matched (ok (MatchResult.found p)) = some (ok (some p))
matched (ok MatchResult.not_found) = some (ok none)
matched (ok (MatchResult.read_failed e)) = some (err (ScanError.read_error e))
matched (ok MatchResult.no_progress) = some (err ScanError.no_progress)
matched (ok MatchResult.blocked) = none

-- closeErr := file.Close(); err == nil && closeErr != nil
abbrev close : Option String → Matched → Matched
close (some e) (ok found) = err (ScanError.file_error e)
close _ m = m

abbrev close_after : Option String → Option Matched → Option Matched
close_after answer none = none
close_after answer (some m) = some (close answer m)

unfoldable pub scan_file : Store → String → ScanFile → Option Matched
unfolding match_store
scan_file store path (ScanFile.open_failed e) = some (err (ScanError.file_error e))
scan_file store path (ScanFile.stat_failed e closed) = some (err (ScanError.file_error e))
scan_file store path (ScanFile.irregular closed) = some (err (ScanError.not_regular path))
scan_file store path (ScanFile.regular reads closed) =
    close_after closed (matched (match_store store (some reads)))

module _ (texts : ScanTexts) where
  -- The response of the scan with its verdict.
  unfoldable pub scan_response : ℕ → ℕ → Matched → Message
  scan_response id duration (ok (some p)) = record (new_message MessageType.scan_result) {
    request_id = id;
    verdict = Protocol.Verdict.malware;
    signature = texts.of_bytes p;
    duration_ms = ℤ.pos duration;
  }
  scan_response id duration (ok none) = record (new_message MessageType.scan_result) {
    request_id = id;
    verdict = Protocol.Verdict.clean;
    duration_ms = ℤ.pos duration;
  }
  scan_response id duration (err e) = record (new_message MessageType.scan_result) {
    request_id = id;
    verdict = Protocol.Verdict.error;
    error = texts.of_error e;
    duration_ms = ℤ.pos duration;
  }

  abbrev pub respond : ℕ → ℕ → Option Matched → Option Message
  respond id duration none = none
  respond id duration (some m) = some (scan_response id duration m)

  -- The message that is written, `none` if the search does not end.
  unfoldable pub handle_scan : Store → Message → ScanFile → ℕ → Option Message
  unfolding scan_file scan_response
  handle_scan store m file duration =
      respond m.request_id duration (scan_file store m.file_path file)
