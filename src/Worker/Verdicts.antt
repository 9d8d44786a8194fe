-- ===== src/Worker/Verdicts.antt =====
-- What a worker answers for a file, with the signatures that it has loaded: pkg/worker/worker.go
-- over pkg/signatures/signatures.go.
use mini_av.Prelude.{ℕ, ◌≡◌, ◌≢◌, ◌⊎◌, inl, inr, refl, String, none, some, List, [], Bool, ok, All}
use mini_av.Protocol
use mini_av.Protocol.{Message}
use mini_av.Signatures.Bytes.{Bytes}
use mini_av.Signatures.Match.{Database, Read, MatchResult, match_reader, match_store}
use mini_av.Signatures.Load.{FileAnswer, load, load-IsWellFormed}
use mini_av.Signatures.Search.{Clear, Hit, Searches, reads_of, content, match_reader-Searches}
use mini_av.Worker.Scan.{ScanFile, ScanTexts, scan_file, scan_response, handle_scan}

-- MALWARE with a pattern that stands in the text, or CLEAN and no pattern stands there.
abbrev pub Answers : (Bytes → String) → List Bytes → Bytes → Message → Type 0
Answers of_bytes patterns text m =
    ((m.verdict ≡ Protocol.Verdict.malware)
      × ((p : Bytes) × Hit patterns text p × (m.signature ≡ of_bytes p)))
    ⊎ ((m.verdict ≡ Protocol.Verdict.clean) × Clear patterns text)

answer_of :
    (texts : ScanTexts) (db : Database) (reads : List Read) (text : Bytes) (request : Message)
    (duration : ℕ) (r : MatchResult)
    → match_reader db reads ≡ r
    → Searches db.patterns text r
    → (m : Message) × (handle_scan texts (some db) request (ScanFile.regular reads none) duration
        ≡ some m)
      × (m.request_id ≡ request.request_id)
      × Answers texts.of_bytes db.patterns text m
unfolding handle_scan scan_file scan_response match_store
answer_of texts db reads text request duration r e (inl (p, f, hit)) =
    rw (e, f) (_, refl, refl, inl (refl, (p, hit, refl)))
answer_of texts db reads text request duration r e (inr (f, clear)) =
    rw (e, f) (_, refl, refl, inr (refl, clear))

-- With the signatures that a worker loads from any file, the scan of a regular file that is read to
-- its end and closed without an error is answered under its request's ID: MALWARE with a pattern
-- that stands in the file, or CLEAN and then no pattern stands there, however the reads cut it.
pub handle_scan-Answers :
    (texts : ScanTexts) (utf8_valid : Bytes → Bool) (file : FileAnswer) (db : Database)
    (request : Message) (chunks : List Bytes) (last : Bytes) (duration : ℕ)
    → load utf8_valid file ≡ ok db
    → All (λ c. c ≢ []) chunks
    → (m : Message) × (handle_scan texts
          (some db)
          request
          (ScanFile.regular (reads_of chunks last) none)
          duration
        ≡ some m)
      × (m.request_id ≡ request.request_id)
      × Answers texts.of_bytes db.patterns (content chunks last) m
handle_scan-Answers texts utf8_valid file db request chunks last duration loaded full =
    answer_of texts db (reads_of chunks last) (content chunks last) request duration
      (match_reader db (reads_of chunks last)) refl
      (match_reader-Searches db chunks last (load-IsWellFormed utf8_valid file db loaded) full)
