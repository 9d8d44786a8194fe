-- ===== src/Worker/Answered.antt =====
-- The scans that a session of pkg/worker/worker.go takes, and their results.
use mini_av.Prelude.{
  ℕ, zero, suc, ◌+◌, ◌≡◌, inl, inr, refl, String, Option, none, some, List, [], ◌∷◌, ◌++◌, Bool,
  false, arith, Result, ok, err, All, nat_beq, if◌then◌else◌, Option-cases, option_cases,
}
use mini_av.Protocol.{MessageType, Message, new_message}
use mini_av.Signatures.Match.{Store}
use mini_av.Signatures.Load.{FileAnswer, LoadError, reload}
use mini_av.Worker.{Settings}
use mini_av.Worker.Scan.{Matched, ScanFile, scan_file, scan_response, handle_scan, respond}
use mini_av.Worker.Session.{
  Session, Phase, Final, Received, Turn, InFlight, WorkerTexts, hello_ack, health_result, write,
  pick, load_database, database_of, reload_result, receive, finish, finish_scan, waited, serve,
  step, run, new_session,
}

abbrev once : Bool → ℕ
once b = if b then 1 else 0

-- How many SCAN_RESULTs of the messages have the ID, and how many scans in flight.
abbrev is_result : ℕ → Message → Bool
is_result id m = elim m.type [ MessageType.scan_result ↦ nat_beq m.request_id id | _ ↦ false ]

unfoldable pub results : ℕ → List Message → ℕ
results id [] = 0
results id (m ∷ ms) = once (is_result id m) + results id ms

unfoldable pub flying : ℕ → List InFlight → ℕ
flying id [] = 0
flying id (x ∷ xs) = once (nat_beq x.request.request_id id) + flying id xs

results-append :
    (id : ℕ) (ms : List Message) (m : Message)
    → results id (ms ++ m ∷ []) ≡ results id ms + once (is_result id m)
unfolding results
results-append id [] m = omega arith
results-append id (x ∷ ms) m = omega (arith, results-append id ms m)

flying-append :
    (id : ℕ) (xs : List InFlight) (x : InFlight)
    → flying id (xs ++ x ∷ []) ≡ flying id xs + once (nat_beq x.request.request_id id)
unfolding flying
flying-append id [] x = omega arith
flying-append id (y ∷ xs) x = omega (arith, flying-append id xs x)

flying-pick :
    (id n : ℕ) (xs : List InFlight) (y : InFlight) (rest : List InFlight)
    → pick n xs ≡ some (y, rest)
    → flying id xs ≡ once (nat_beq y.request.request_id id) + flying id rest
unfolding pick flying
flying-pick id n [] y rest h = absurd (ground arith)
flying-pick id zero (x ∷ xs) y rest h =
    let e : x ≡ y = ground arith in let f : xs ≡ rest = ground arith in rw (← e, ← f) refl
flying-pick id (suc n) (x ∷ xs) y rest h = elim (Option-cases (pick n xs)) [
  | inl e ↦ absurd (ground arith)
  | inr ((z, others), e) ↦
      (let same : z ≡ y = ground arith in
        let left : x ∷ others ≡ rest = ground arith in
        rw (← same, ← left) (omega (arith, flying-pick id n xs z others e)))
]

flying-load_database :
    (id : ℕ) (store : Store) (n : ℕ) (xs : List InFlight)
    → flying id (load_database store n xs) ≡ flying id xs
unfolding load_database flying
flying-load_database id store n [] = refl
flying-load_database id store zero (x ∷ xs) = ground arith
flying-load_database id store (suc n) (x ∷ xs) = omega (arith, flying-load_database id store n xs)

-- A SCAN that the turn brings to a session that takes it.
abbrev takes : Settings → ℕ → Phase → Turn → ℕ
takes config id Phase.serving (Turn.receives (Received.message m) file send) = elim m.type [
  | MessageType.scan ↦ if config.crash_on_scan then 0 else once (nat_beq m.request_id id)
  | _ ↦ 0
]
takes config id (Phase.waiting final) turn = 0
takes config id (Phase.returned e) turn = 0
takes config id Phase.crashed turn = 0
takes config id phase turn = 0

-- No send of a scan's result fails.
abbrev pub IsDelivered : Turn → Type 0
IsDelivered (Turn.finishes n file duration send) = send ≡ none
IsDelivered _ = Unit

module _ (config : Settings) (texts : WorkerTexts) where
  -- How many SCANs with the ID a session takes in the turns.
  unfoldable pub taken : ℕ → List Turn → Session → ℕ
  unfolding step
  taken id [] s = 0
  taken id (turn ∷ turns) s =
      takes config id s.phase turn + taken id turns (step config texts turn s)

  -- As many more results and scans in flight.
  abbrev Gains : ℕ → ℕ → Session → Session → Type 0
  Gains id n s t =
      results id t.sent + flying id t.scans ≡ n + (results id s.sent + flying id s.scans)

  write-Gains :
      (id : ℕ) (m : Message) (send : Option String) (s : Session)
      → is_result id m ≡ false
      → Gains id 0 s (write m send s)
  unfolding write
  write-Gains id m none s e = ground (arith, results-append id s.sent m)
  write-Gains id m (some x) s e = omega arith

  reload_result_none :
      (id : ℕ) (r : Result LoadError ℕ) → is_result id (reload_result config texts r) ≡ false
  reload_result_none id (ok count) = refl
  reload_result_none id (err e) = refl

  receive-Gains :
      (id : ℕ) (t : MessageType) (m : Message) (file : FileAnswer) (send : Option String)
      (s : Session)
      → m.type ≡ t
      → Gains id
          (takes config id Phase.serving (Turn.receives (Received.message m) file send))
          s
          (receive config texts t m file send s)
  unfolding receive
  receive-Gains id MessageType.hello m file send s t =
      rw t (write-Gains id (hello_ack config) send s refl)
  receive-Gains id MessageType.health_check m file send s t =
      rw t (write-Gains id (health_result config) send s refl)
  receive-Gains id MessageType.scan m file send s t =
      ground (arith, flying-append id s.scans (record { request = m; loaded = none }))
  receive-Gains id MessageType.reload m file send s t =
      let (result, store) = reload texts.utf8_valid s.store file in
      rw t (
        write-Gains id (reload_result config texts result) send (record s { store = store })
          (reload_result_none id result))
  receive-Gains id MessageType.shutdown m file send s t = rw t (omega arith)
  receive-Gains id _ m file send s t = rw t (omega arith)

  scan_response_result :
      (id n duration : ℕ) (m : Matched)
      → is_result id (scan_response texts.scans n duration m) ≡ nat_beq n id
  unfolding scan_response
  scan_response_result id n duration (ok none) = refl
  scan_response_result id n duration (ok (some p)) = refl
  scan_response_result id n duration (err e) = refl

  finish-Gains :
      (id : ℕ) (x : InFlight) (m : Option Matched) (duration : ℕ) (rest : List InFlight)
      (send : Option String) (s : Session)
      → send ≡ none
      → flying id s.scans ≡ once (nat_beq x.request.request_id id) + flying id rest
      → Gains id 0 s
          (finish config texts (respond texts.scans x.request.request_id duration m) rest send s)
  finish-Gains id x none duration rest send s d h = omega arith
  finish-Gains id x (some m) duration rest (some e) s d h = absurd (ground arith)
  finish-Gains id x (some m) duration rest none s d h =
      let n = x.request.request_id in
      rw
        (
          results-append id s.sent (scan_response texts.scans n duration m),
          scan_response_result id n duration m,
        )
        (omega arith)

  finish_scan-Gains :
      (id n : ℕ) (file : ScanFile) (duration : ℕ) (send : Option String) (s : Session)
      → send ≡ none
      → Gains id 0 s (finish_scan config texts n file duration send s)
  unfolding finish_scan handle_scan
  finish_scan-Gains id n file duration send s d =
      option_cases (Gains id 0 s) (pick n s.scans) _ _ (λ _. omega arith)
        λ (x, rest) e.
          finish-Gains id x (scan_file (database_of s.store x.loaded) x.request.file_path file)
            duration rest send s d (flying-pick id n s.scans x rest e)

  waited-Gains :
      (id : ℕ) (xs : List InFlight) (final : Final) (send : Option String) (s : Session)
      → Gains id 0 s (waited config texts xs final send s)
  waited-Gains id (x ∷ xs) final send s = omega arith
  waited-Gains id [] (Final.give_back r) send s = omega arith
  waited-Gains id [] Final.acknowledge (some e) s = omega arith
  waited-Gains id [] Final.acknowledge none s =
      rw (results-append id s.sent (new_message MessageType.shutdown_ack)) (omega arith)

  serve-Gains :
      (id : ℕ) (phase : Phase) (turn : Turn) (s : Session)
      → IsDelivered turn
      → Gains id (takes config id phase turn) s (serve config texts phase turn s)
  serve-Gains id Phase.crashed turn s d = omega arith
  serve-Gains id (Phase.returned e) turn s d = omega arith
  serve-Gains id Phase.serving (Turn.receives (Received.message m) file send) s d =
      receive-Gains id m.type m file send s refl
  serve-Gains id Phase.serving (Turn.receives Received.end_of_input file send) s d = omega arith
  serve-Gains id Phase.serving (Turn.receives (Received.failed e) file send) s d = omega arith
  serve-Gains id Phase.serving (Turn.cancels e) s d = omega arith
  serve-Gains id Phase.serving (Turn.ends send) s d = omega arith
  serve-Gains id Phase.serving (Turn.loads n) s d =
      omega (arith, flying-load_database id s.store n s.scans)
  serve-Gains id Phase.serving (Turn.finishes n file duration send) s d =
      finish_scan-Gains id n file duration send s d
  serve-Gains id (Phase.waiting final) (Turn.ends send) s d = waited-Gains id s.scans final send s
  serve-Gains id (Phase.waiting final) (Turn.receives r file send) s d = omega arith
  serve-Gains id (Phase.waiting final) (Turn.cancels e) s d = omega arith
  serve-Gains id (Phase.waiting final) (Turn.loads n) s d =
      omega (arith, flying-load_database id s.store n s.scans)
  serve-Gains id (Phase.waiting final) (Turn.finishes n file duration send) s d =
      finish_scan-Gains id n file duration send s d

  run-Gains :
      (id : ℕ) (turns : List Turn) (s : Session)
      → All IsDelivered turns
      → Gains id (taken id turns s) s (run config texts turns s)
  unfolding run taken
  run-Gains id [] s d = omega arith
  run-Gains id (turn ∷ turns) s d =
      omega (
        arith,
        serve-Gains id s.phase turn s d.0,
        run-Gains id turns (step config texts turn s) d.1,
      )

  -- Where no send of a scan's result fails, a session has sent, for every request ID, exactly as
  -- many SCAN_RESULTs as it took SCANs with that ID, less those that are still in flight.
  pub run-results :
      (id : ℕ) (turns : List Turn) (store : Store)
      → All IsDelivered turns
      → results id (run config texts turns (new_session store)).sent
          + flying id (run config texts turns (new_session store)).scans
        ≡ taken id turns (new_session store)
  unfolding results flying
  run-results id turns store d = omega (arith, run-Gains id turns (new_session store) d)
