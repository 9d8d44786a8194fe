-- ===== src/Worker/Keeps.antt =====
-- What is true of each message that a session of pkg/worker/worker.go sends before it ends, from what
-- is true of its answers.
use mini_av.Prelude.{
  All-snoc, is_some, if_cases, ℕ, zero, suc, ◌≡◌, ◌≢◌, refl, subst, String, Option, none, some,
  List, [], ◌∷◌, arith, Result, All, Option-cases, inl, inr, option_cases,
}
use mini_av.Prelude.Equality.{string_eq}
use mini_av.Protocol.{MessageType, Message}
use mini_av.Protocol.Validate.{validate, check_required}
use mini_av.Signatures.Match.{Store}
use mini_av.Signatures.Load.{FileAnswer, LoadError, reload}
use mini_av.Worker.{Settings}
use mini_av.Worker.Scan.{ScanFile, Matched, scan_file, scan_response, handle_scan, respond}
use mini_av.Worker.Session.{
  Session, Phase, Final, Received, Turn, InFlight, WorkerTexts, hello_ack, health_result, write,
  pick, load_database, database_of, reload_result, receive, finish, finish_scan, waited, serve,
}

-- A scan in flight has an ID.
abbrev HasId : InFlight → Type 0
HasId x = x.request.request_id ≢ 0

-- Every message that is sent is `Ok`.
abbrev pub Speaks : (Message → Type 0) → Session → Type 0
Speaks Ok s = All HasId s.scans × All Ok s.sent

pick-All {κ} :
    (P : InFlight → Type κ) (n : ℕ) (xs : List InFlight) (y : InFlight) (rest : List InFlight)
    → pick n xs ≡ some (y, rest)
    → All P xs
    → P y × All P rest
unfolding pick
pick-All P n [] y rest h a = absurd (ground arith)
pick-All P zero (x ∷ xs) y rest h a =
    let e : x ≡ y = ground arith in
    let f : xs ≡ rest = ground arith in (subst P e a.0, subst (All P) f a.1)
pick-All P (suc n) (x ∷ xs) y rest h a = elim (Option-cases (pick n xs)) [
  | inl e ↦ absurd (ground arith)
  | inr ((z, others), e) ↦
      (let (p, q) = pick-All P n xs z others e a.1 in
        let same : z ≡ y = ground arith in
        let left : x ∷ others ≡ rest = ground arith in
        (subst P same p, subst (All P) left (a.0, q)))
]

load_database-HasId :
    (store : Store) (n : ℕ) (xs : List InFlight)
    → All HasId xs
    → All HasId (load_database store n xs)
unfolding load_database
load_database-HasId store n [] a = tt
load_database-HasId store zero (x ∷ xs) a = (
  if_cases HasId (is_some x.loaded) x (record x { loaded = some store }) (λ _. a.0) (λ _. a.0),
  a.1,
)
load_database-HasId store (suc n) (x ∷ xs) a = (a.0, load_database-HasId store n xs a.1)

-- A SCAN that Validate accepts has an ID.
scan_id : (m : Message) → m.type ≡ MessageType.scan → validate m ≡ none → m.request_id ≢ 0
unfolding validate check_required
scan_id m t v = λ e. ground arith

-- What Validate accepts is all that a session is given: Decode and FromProto return nothing else.
abbrev pub IsFine : Turn → Type 0
IsFine (Turn.receives (Received.message m) file send) = validate m ≡ none
IsFine _ = Unit

module _ (config : Settings) (texts : WorkerTexts) (Ok : Message → Type 0) where
  pub record IsAnswer : Type 0 where
    pub hello : Ok (hello_ack config)
    pub health : Ok (health_result config)
    pub reload : (r : Result LoadError ℕ) → Ok (reload_result config texts r)
    pub scan :
        (id duration : ℕ) (m : Matched) → id ≢ 0 → Ok (scan_response texts.scans id duration m)

  write-Speaks :
      (m : Message) (send : Option String) (s : Session)
      → Ok m
      → Speaks Ok s
      → Speaks Ok (write m send s)
  unfolding write
  write-Speaks m none s v (a, b) = (a, All-snoc Ok s.sent m b v)
  write-Speaks m (some e) s v h = h

  receive-Speaks :
      (t : MessageType) (m : Message) (file : FileAnswer) (send : Option String) (s : Session)
      → IsAnswer
      → m.type ≡ t
      → validate m ≡ none
      → Speaks Ok s
      → Speaks Ok (receive config texts t m file send s)
  unfolding receive
  receive-Speaks MessageType.hello m file send s c t v h = write-Speaks _ send s c.hello h
  receive-Speaks MessageType.health_check m file send s c t v h = write-Speaks _ send s c.health h
  receive-Speaks MessageType.scan m file send s c t v h =
      if_cases (Speaks Ok) config.crash_on_scan _ _ (λ _. h)
        (λ _.
          (All-snoc HasId s.scans (record { request = m; loaded = none }) h.0 (scan_id m t v), h.1))
  receive-Speaks MessageType.reload m file send s c t v h =
      let (result, store) = reload texts.utf8_valid s.store file in
      write-Speaks (reload_result config texts result) send (record s { store = store })
        (c.reload result) h
  receive-Speaks MessageType.shutdown m file send s c t v h = h
  receive-Speaks _ m file send s c t v h = h

  finish-Speaks :
      (request : Message) (m : Option Matched) (duration : ℕ) (rest : List InFlight)
      (send : Option String) (s : Session)
      → IsAnswer
      → request.request_id ≢ 0
      → All HasId rest
      → Speaks Ok s
      → Speaks Ok
          (finish config texts (respond texts.scans request.request_id duration m) rest send s)
  finish-Speaks request none duration rest send s c n r h = h
  finish-Speaks request (some m) duration rest (some e) s c n r h = (r, h.1)
  finish-Speaks request (some m) duration rest none s c n r h =
      (r, All-snoc Ok s.sent _ h.1 (c.scan request.request_id duration m n))

  finish_scan-Speaks :
      (n : ℕ) (file : ScanFile) (duration : ℕ) (send : Option String) (s : Session)
      → IsAnswer
      → Speaks Ok s
      → Speaks Ok (finish_scan config texts n file duration send s)
  unfolding finish_scan handle_scan
  finish_scan-Speaks n file duration send s c h =
      option_cases (Speaks Ok) (pick n s.scans) _ _ (λ _. h)
        λ (x, rest) e.
          (let (id, others) = pick-All HasId n s.scans x rest e h.0 in
            finish-Speaks x.request
              (scan_file (database_of s.store x.loaded) x.request.file_path file) duration rest send
              s c id others h)

  -- A turn, but for what follows the wait, of which `P` is given.
  pub serve-Speaks :
      (P : Session → Type 0) (phase : Phase) (turn : Turn) (s : Session)
      → ((t : Session) → Speaks Ok t → P t)
      → ((final : Final) (send : Option String) → P (waited config texts s.scans final send s))
      → IsAnswer
      → IsFine turn
      → Speaks Ok s
      → P (serve config texts phase turn s)
  serve-Speaks P Phase.crashed turn s keep waits c f h = keep s h
  serve-Speaks P (Phase.returned e) turn s keep waits c f h = keep s h
  serve-Speaks P Phase.serving (Turn.receives (Received.message m) file send) s keep waits c f h =
      keep _ (receive-Speaks m.type m file send s c refl f h)
  serve-Speaks P Phase.serving (Turn.receives Received.end_of_input file send) s keep waits c f h =
      keep _ h
  serve-Speaks P Phase.serving (Turn.receives (Received.failed e) file send) s keep waits c f h =
      keep _ h
  serve-Speaks P Phase.serving (Turn.cancels e) s keep waits c f h = keep _ h
  serve-Speaks P Phase.serving (Turn.ends send) s keep waits c f h = keep s h
  serve-Speaks P Phase.serving (Turn.loads n) s keep waits c f h =
      keep _ (load_database-HasId s.store n s.scans h.0, h.1)
  serve-Speaks P Phase.serving (Turn.finishes n file duration send) s keep waits c f h =
      keep _ (finish_scan-Speaks n file duration send s c h)
  serve-Speaks P (Phase.waiting final) (Turn.ends send) s keep waits c f h = waits final send
  serve-Speaks P (Phase.waiting final) (Turn.receives r file send) s keep waits c f h = keep s h
  serve-Speaks P (Phase.waiting final) (Turn.cancels e) s keep waits c f h = keep s h
  serve-Speaks P (Phase.waiting final) (Turn.loads n) s keep waits c f h =
      keep _ (load_database-HasId s.store n s.scans h.0, h.1)
  serve-Speaks P (Phase.waiting final) (Turn.finishes n file duration send) s keep waits c f h =
      keep _ (finish_scan-Speaks n file duration send s c h)
