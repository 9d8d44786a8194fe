-- ===== src/Worker/Session.antt =====
-- RunSession of pkg/worker/worker.go. Scans run beside the loop, so a session makes turns: the loop
-- receives a message, or a scan ends. What a send returns is a part of the turn. A scan loads
-- the database when its Match begins, which a reload after that does not change.
use mini_av.Prelude.{
  ℕ, zero, suc, String, Option, none, some, List, [], ◌∷◌, ◌++◌, Bool, true, if◌then◌else◌, is_some,
  Result, ok, err,
}
use mini_av.Prelude.Int.{ℤ}
use mini_av.Protocol.{MessageType, Message, new_message}
use mini_av.Signatures.Bytes.{Bytes}
use mini_av.Signatures.Match.{Store}
use mini_av.Signatures.Load.{FileAnswer, LoadError, reload}
use mini_av.Worker.{Settings}
use mini_av.Worker.Scan.{ScanFile, ScanTexts, handle_scan}

-- The error that the session returns.
pub data SessionError : Type 0 where
  receive_failed send_failed context_done : String → SessionError
  unexpected : MessageType → SessionError

-- What follows the wait for the scans.
pub data Final : Type 0 where
  give_back : Option SessionError → Final
  acknowledge : Final

pub data Phase : Type 0 where
  serving crashed : Phase
  waiting : Final → Phase
  returned : Option SessionError → Phase

-- A scan in flight, with the database that its Match has loaded, if it has.
pub record InFlight : Type 0 where
  pub request : Message
  pub loaded : Option Store

-- `scans` are the scans in flight, and `sent` the messages sent, oldest first.
pub record Session : Type 0 where
  pub store : Store
  pub scans : List InFlight
  pub sent : List Message
  pub phase : Phase

-- What `receive` returns: a message, io.EOF or another error.
pub data Received : Type 0 where
  message : Message → Received
  end_of_input : Received
  failed : String → Received

-- A message is received, with the file that a RELOAD finds; the context is done; the scan at that
-- place loads the database; it ends, with the file that it finds and the milliseconds that it takes; the wait is over. The
-- last argument is what the send returns.
pub data Turn : Type 0 where
  receives : Received → FileAnswer → Option String → Turn
  cancels : String → Turn
  loads : ℕ → Turn
  finishes : ℕ → ScanFile → ℕ → Option String → Turn
  ends : Option String → Turn

pub record WorkerTexts : Type 0 where
  pub scans : ScanTexts
  pub of_load : LoadError → String
  pub utf8_valid : Bytes → Bool

-- The capabilities of a worker.
abbrev pub capabilities : List String
capabilities = "file_scan" ∷ "reload" ∷ []

abbrev pub hello_ack : Settings → Message
hello_ack c = record (new_message MessageType.hello_ack) {
  scanner_id = c.scanner_id;
  worker_version = c.worker_version;
  capabilities = some capabilities;
}

abbrev pub health_result : Settings → Message
health_result c = record (new_message MessageType.health_result) {
  status = if c.fail_health then "error" else "ok";
  error = if c.fail_health then "health check failed by fault injection" else "";
}

abbrev pub wait_for : Final → Session → Session
wait_for final s = record s { phase = Phase.waiting final }

-- A send of the loop: an error ends the session.
unfoldable pub write : Message → Option String → Session → Session
write m none s = record s { sent = s.sent ++ m ∷ [] }
write m (some e) s = wait_for (Final.give_back (some (SessionError.send_failed e))) s

-- A send of a scan: an error is only logged.
abbrev pub write_scan : Option Message → Option String → Session → Session
write_scan (some m) none s = record s { sent = s.sent ++ m ∷ [] }
write_scan _ _ s = s

-- The scan at a place of the list, and the list without it.
unfoldable pub pick : ℕ → List InFlight → Option (InFlight × List InFlight)
pick n [] = none
pick zero (x ∷ xs) = some (x, xs)
pick (suc n) (x ∷ xs) = elim (pick n xs) [ none ↦ none | some (y, rest) ↦ some (y, x ∷ rest) ]

-- store.current.Load(), once for each scan.
unfoldable pub load_database : Store → ℕ → List InFlight → List InFlight
load_database store n [] = []
load_database store zero (x ∷ xs) =
    (if is_some x.loaded then x else record x { loaded = some store }) ∷ xs
load_database store (suc n) (x ∷ xs) = x ∷ load_database store n xs

-- The database of a scan that ends.
abbrev pub database_of : Store → Option Store → Store
database_of store none = store
database_of store (some loaded) = loaded

module _ (config : Settings) (texts : WorkerTexts) where
  abbrev pub reload_result : Result LoadError ℕ → Message
  reload_result (ok count) = record (new_message MessageType.reload_result) {
    success = true;
    signature_count = ℤ.pos count;
  }
  reload_result (err e) = record (new_message MessageType.reload_result) { error = texts.of_load e }

  abbrev pub answer_reload : Result LoadError ℕ × Store → Option String → Session → Session
  answer_reload (result, store) send s =
      write (reload_result result) send (record s { store = store })

  -- The switch on the type of a message.
  unfoldable pub receive : MessageType → Message → FileAnswer → Option String → Session → Session
  unfolding write reload
  receive MessageType.hello m file send s = write (hello_ack config) send s
  receive MessageType.health_check m file send s = write (health_result config) send s
  receive MessageType.scan m file send s =
      if config.crash_on_scan
      then record s { phase = Phase.crashed }
      else record s { scans = s.scans ++ record { request = m; loaded = none } ∷ [] }
  receive MessageType.reload m file send s =
      answer_reload (reload texts.utf8_valid s.store file) send s
  receive MessageType.shutdown m file send s = wait_for Final.acknowledge s
  receive t m file send s = wait_for (Final.give_back (some (SessionError.unexpected t))) s

  -- The loop's side of a turn.
  abbrev pub received : Received → FileAnswer → Option String → Session → Session
  received (Received.message m) file send s = receive m.type m file send s
  received Received.end_of_input file send s = wait_for (Final.give_back none) s
  received (Received.failed e) file send s =
      wait_for (Final.give_back (some (SessionError.receive_failed e))) s

  -- A scan that does not end stays in flight.
  abbrev pub finish : Option Message → List InFlight → Option String → Session → Session
  finish none rest send s = s
  finish (some response) rest send s = write_scan (some response) send (record s { scans = rest })

  unfoldable pub finish_scan : ℕ → ScanFile → ℕ → Option String → Session → Session
  unfolding pick handle_scan
  finish_scan n file duration send s = elim (pick n s.scans) [
    | none ↦ s
    | some (x, rest) ↦
        finish (handle_scan texts.scans (database_of s.store x.loaded) x.request file duration) rest
          send s
  ]

  -- The SHUTDOWN_ACK, after the wait.
  abbrev pub acknowledged : Option String → Session → Session
  acknowledged none s = record s {
    sent = s.sent ++ new_message MessageType.shutdown_ack ∷ [];
    phase = Phase.returned none;
  }
  acknowledged (some e) s = record s { phase = Phase.returned (some (SessionError.send_failed e)) }

  abbrev pub after_wait : Final → Option String → Session → Session
  after_wait (Final.give_back e) send s = record s { phase = Phase.returned e }
  after_wait Final.acknowledge send s = acknowledged send s

  -- scans.Wait() is over when no scan is in flight.
  abbrev pub waited : List InFlight → Final → Option String → Session → Session
  waited [] final send s = after_wait final send s
  waited (m ∷ ms) final send s = s

  abbrev pub serve : Phase → Turn → Session → Session
  serve Phase.serving (Turn.receives r file send) s = received r file send s
  serve Phase.serving (Turn.cancels e) s =
      wait_for (Final.give_back (some (SessionError.context_done e))) s
  serve (Phase.waiting final) (Turn.ends send) s = waited s.scans final send s
  serve Phase.crashed turn s = s
  serve (Phase.returned e) turn s = s
  serve phase (Turn.loads n) s = record s { scans = load_database s.store n s.scans }
  serve phase (Turn.finishes n file duration send) s = finish_scan n file duration send s
  serve phase turn s = s

  unfoldable pub step : Turn → Session → Session
  unfolding receive finish_scan load_database
  step turn s = serve s.phase turn s

  unfoldable pub run : List Turn → Session → Session
  unfolding step
  run [] s = s
  run (turn ∷ turns) s = run turns (step turn s)

-- The session once NewStore has loaded the signatures.
abbrev pub new_session : Store → Session
new_session store = record { store = store; scans = []; sent = []; phase = Phase.serving }
