-- ===== src/Worker/Drained.antt =====
-- How a session of pkg/worker/worker.go that is asked to stop comes to its end.
use mini_av.Prelude.{
  ℕ, ◌≡◌, refl, sym, ap, ◌∙◌, subst, String, Option, none, some, List, [], ◌∷◌, ◌++◌, true, arith,
  is_some, option_cases,
}
use mini_av.Protocol.{MessageType, Message, new_message}
use mini_av.Signatures.Match.{Store}
use mini_av.Signatures.Load.{FileAnswer}
use mini_av.Worker.{Settings}
use mini_av.Worker.Scan.{ScanFile, handle_scan}
use mini_av.Worker.Session.{
  Session, Phase, Final, Received, wait_for, receive, Turn, InFlight, WorkerTexts, pick,
  database_of, finish, finish_scan, load_database, waited, serve, step, run,
}

-- A turn that a session that waits passes over: what is received, and the end of the context.
pub data IsIdle : Turn → Type 0 where
  receives :
      (r : Received) (file : FileAnswer) (send : Option String) → IsIdle (Turn.receives r file send)
  cancels : (e : String) → IsIdle (Turn.cancels e)

module _ (config : Settings) (texts : WorkerTexts) where
  -- Turns in which the scans in flight end, in any order, each with the file that it finds, and then
  -- the wait. Between them scans load the database, and turns come that the wait passes over. A
  -- result whose send fails is only logged.
  pub data Drains (store : Store) : List InFlight → List Turn → Type 0 where
    over : Drains store [] (Turn.ends none ∷ [])
    finishes :
        {scans rest : List InFlight} {turns : List Turn} (n : ℕ) (x : InFlight) (file : ScanFile)
        (duration : ℕ) (send : Option String)
        → pick n scans ≡ some (x, rest)
        → is_some (handle_scan texts.scans (database_of store x.loaded) x.request file duration)
          ≡ true
        → Drains store rest turns
        → Drains store scans (Turn.finishes n file duration send ∷ turns)
    loads :
        {scans : List InFlight} {turns : List Turn} (n : ℕ)
        → Drains store (load_database store n scans) turns
        → Drains store scans (Turn.loads n ∷ turns)
    idle :
        {scans : List InFlight} {turns : List Turn} {turn : Turn}
        → IsIdle turn
        → Drains store scans turns
        → Drains store scans (turn ∷ turns)
    early :
        {x : InFlight} {scans : List InFlight} {turns : List Turn} (send : Option String)
        → Drains store (x ∷ scans) turns
        → Drains store (x ∷ scans) (Turn.ends send ∷ turns)

  abbrev pub HasReturned : Session → Type 0
  HasReturned s =
      (s.phase ≡ Phase.returned none)
      × (s.scans ≡ [])
      × (earlier : List Message) × (s.sent ≡ earlier ++ new_message MessageType.shutdown_ack ∷ [])

  waited_last :
      (xs : List InFlight) (s : Session)
      → xs ≡ []
      → s.scans ≡ []
      → HasReturned (waited config texts xs Final.acknowledge none s)
  waited_last [] s f e = (refl, e, s.sent, refl)
  waited_last (x ∷ xs) s f e = absurd (ground arith)

  serve_last :
      (phase : Phase) (s : Session)
      → phase ≡ Phase.waiting Final.acknowledge
      → s.scans ≡ []
      → HasReturned (serve config texts phase (Turn.ends none) s)
  serve_last phase s w e = rw w (waited_last s.scans s e e)

  -- What a scan that ends leaves.
  abbrev Shrinks : List InFlight → Session → Session → Type 0
  Shrinks xs s t = (t.scans ≡ xs) × (t.phase ≡ s.phase) × (t.store ≡ s.store)

  finish-Shrinks :
      (m : Option Message) (xs : List InFlight) (send : Option String) (s : Session)
      → is_some m ≡ true
      → Shrinks xs s (finish config texts m xs send s)
  finish-Shrinks none xs send s h = absurd (ground arith)
  finish-Shrinks (some m) xs none s h = (refl, refl, refl)
  finish-Shrinks (some m) xs (some e) s h = (refl, refl, refl)

  finish_scan-Shrinks :
      (n : ℕ) (x : InFlight) (rest : List InFlight) (file : ScanFile) (duration : ℕ)
      (send : Option String) (s : Session)
      → pick n s.scans ≡ some (x, rest)
      → is_some (handle_scan texts.scans (database_of s.store x.loaded) x.request file duration)
        ≡ true
      → Shrinks rest s (finish_scan config texts n file duration send s)
  unfolding finish_scan pick
  finish_scan-Shrinks n x rest file duration send s e h =
      option_cases (Shrinks rest s) (pick n s.scans) _ _ (λ f. absurd (ground (arith, e)))
        λ (y, left) f.
          (let same : x ≡ y = ground (arith, e) in
            let others : rest ≡ left = ground (arith, e) in
            subst
              (λ l. Shrinks l s (
                finish config texts
                  (handle_scan texts.scans (database_of s.store y.loaded) y.request file duration)
                  left send s))
              (sym others)
              (finish-Shrinks _ left send s (
                subst
                  (λ (z : InFlight).
                    is_some (
                      handle_scan texts.scans (database_of s.store z.loaded) z.request file
                        duration)
                    ≡ true)
                  same h)))

  -- What a turn leaves of a session that waits to acknowledge.
  abbrev IsWaiting : Store → List InFlight → Session → Type 0
  IsWaiting store scans s =
      (s.phase ≡ Phase.waiting Final.acknowledge) × (s.store ≡ store) × (s.scans ≡ scans)

  serve_finish :
      (phase : Phase) (n : ℕ) (file : ScanFile) (duration : ℕ) (send : Option String) (s : Session)
      → phase ≡ Phase.waiting Final.acknowledge
      → serve config texts phase (Turn.finishes n file duration send) s
        ≡ finish_scan config texts n file duration send s
  serve_finish phase n file duration send s w = rw w refl

  serve_load :
      (phase : Phase) (n : ℕ) (s : Session)
      → phase ≡ Phase.waiting Final.acknowledge
      → serve config texts phase (Turn.loads n) s
        ≡ (record s { scans = load_database s.store n s.scans })
  serve_load phase n s w = rw w refl

  serve_end :
      (phase : Phase) (send : Option String) (s : Session)
      → phase ≡ Phase.waiting Final.acknowledge
      → serve config texts phase (Turn.ends send) s
        ≡ waited config texts s.scans Final.acknowledge send s
  serve_end phase send s w = rw w refl

  serve_idle :
      (turn : Turn) (phase : Phase) (s : Session)
      → IsIdle turn
      → phase ≡ Phase.waiting Final.acknowledge
      → serve config texts phase turn s ≡ s
  serve_idle turn phase s (receives r file send) w = rw w refl
  serve_idle turn phase s (cancels e) w = rw w refl

  waited_early :
      (current : List InFlight) (x : InFlight) (xs : List InFlight) (send : Option String)
      (s : Session)
      → current ≡ x ∷ xs
      → waited config texts current Final.acknowledge send s ≡ s
  waited_early current x xs send s e = rw e refl

  turn_finishes :
      (store : Store) (n : ℕ) (x : InFlight) (scans rest : List InFlight) (file : ScanFile)
      (duration : ℕ) (send : Option String) (s : Session)
      → IsWaiting store scans s
      → pick n scans ≡ some (x, rest)
      → is_some (handle_scan texts.scans (database_of store x.loaded) x.request file duration)
        ≡ true
      → IsWaiting store rest (finish_scan config texts n file duration send s)
  turn_finishes store n x scans rest file duration send s (w, d, f) e h =
      let (l, p, same) = finish_scan-Shrinks n x rest file duration send s (ap (pick n) f ∙ e) (
        subst
          (λ db.
            is_some (handle_scan texts.scans (database_of db x.loaded) x.request file duration)
            ≡ true)
          (sym d) h) in
      (p ∙ w, same ∙ d, l)

  drained :
      (store : Store) (scans : List InFlight) (turns : List Turn) (s : Session)
      → Drains store scans turns
      → IsWaiting store scans s
      → HasReturned (run config texts turns s)
  unfolding run step
  drained store scans turns s over (w, d, f) = serve_last s.phase s w f
  drained store scans turns s
        (finishes {rest = left} {turns = later} n x file duration send e h rest) (w, d, f) =
      subst (λ (u : Session). HasReturned (run config texts later u))
        (sym (serve_finish s.phase n file duration send s w))
        (drained store left later _ rest
          (turn_finishes store n x scans left file duration send s (w, d, f) e h))
  drained store scans turns s (loads {turns = later} n rest) (w, d, f) =
      subst (λ (u : Session). HasReturned (run config texts later u))
        (sym (serve_load s.phase n s w))
        (drained store (load_database store n scans) later _ rest (w, d, rw (d, f) refl))
  drained store scans turns s (idle {turns = later} {turn = turn} i rest) (w, d, f) =
      subst (λ (u : Session). HasReturned (run config texts later u))
        (sym (serve_idle turn s.phase s i w)) (drained store scans later s rest (w, d, f))
  drained store scans turns s (early {x = x} {scans = xs} {turns = later} send rest) (w, d, f) =
      subst (λ (u : Session). HasReturned (run config texts later u))
        (sym (serve_end s.phase send s w ∙ waited_early s.scans x xs send s f))
        (drained store (x ∷ xs) later s rest (w, d, f))

  serve_shutdown :
      (phase : Phase) (m : Message) (answer : FileAnswer) (send : Option String) (s : Session)
      → phase ≡ Phase.serving
      → m.type ≡ MessageType.shutdown
      → serve config texts phase (Turn.receives (Received.message m) answer send) s
        ≡ wait_for Final.acknowledge s
  unfolding receive
  serve_shutdown phase m answer send s p e = rw (p, e) refl

  -- A session that is sent a SHUTDOWN comes to its end: once its scans have ended, in any order, each
  -- with the file that it finds, and then the wait is over, it has sent SHUTDOWN_ACK last and returned
  -- without an error. Between the ends of the scans databases may be loaded, messages may come and the
  -- context may be cancelled, and the SCAN_RESULTs may fail to be sent. The search of each file ends,
  -- and the SHUTDOWN_ACK is sent.
  pub run-HasReturned :
      (m : Message) (answer : FileAnswer) (send : Option String) (s : Session) (turns : List Turn)
      → m.type ≡ MessageType.shutdown
      → s.phase ≡ Phase.serving
      → Drains s.store s.scans turns
      → HasReturned (run config texts (Turn.receives (Received.message m) answer send ∷ turns) s)
  unfolding run step
  run-HasReturned m answer send s turns e p drains =
      subst (λ (u : Session). HasReturned (run config texts turns u))
        (sym (serve_shutdown s.phase m answer send s p e))
        (drained s.store s.scans turns (wait_for Final.acknowledge s) drains (refl, refl, refl))
