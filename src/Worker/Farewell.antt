-- ===== src/Worker/Farewell.antt =====
-- The end of a session of pkg/worker/worker.go that is asked to stop.
use mini_av.Prelude.{
  ℕ, ◌≡◌, ◌≢◌, ◌⊎◌, inl, inr, refl, subst, sym, String, Option, none, some, List, [], ◌∷◌, ◌++◌,
  Bool, true, false, arith, Result, ok, err, All, any,
}
use mini_av.Protocol.{MessageType, Message, new_message}
use mini_av.Signatures.Match.{Store}
use mini_av.Signatures.Load.{LoadError}
use mini_av.Worker.{Settings}
use mini_av.Worker.Scan.{Matched, ScanTexts, scan_response}
use mini_av.Worker.Session.{
  Session, Phase, Final, Turn, InFlight, WorkerTexts, reload_result, waited, serve, run,
  new_session,
}
use mini_av.Worker.Keeps.{Speaks, IsAnswer, IsFine, serve-Speaks}

abbrev pub is_ack : Message → Bool
is_ack m = elim m.type [ MessageType.shutdown_ack ↦ true | _ ↦ false ]

abbrev IsOther : Message → Type 0
IsOther m = is_ack m ≡ false

-- The session has returned after a SHUTDOWN_ACK, its last message and the only one of its type.
abbrev pub HasLeft : Session → Type 0
HasLeft s =
    (s.phase ≡ Phase.returned none)
    × (s.scans ≡ [])
    × (earlier : List Message) × (s.sent ≡ earlier ++ new_message MessageType.shutdown_ack ∷ [])
    × All (λ m. is_ack m ≡ false) earlier

module _ (config : Settings) (texts : WorkerTexts) where
  reload-IsOther : (r : Result LoadError ℕ) → IsOther (reload_result config texts r)
  reload-IsOther (ok count) = refl
  reload-IsOther (err e) = refl

  scan-IsOther :
      (t : ScanTexts) (id duration : ℕ) (m : Matched)
      → id ≢ 0
      → IsOther (scan_response t id duration m)
  unfolding scan_response
  scan-IsOther t id duration (ok none) n = refl
  scan-IsOther t id duration (ok (some p)) n = refl
  scan-IsOther t id duration (err e) n = refl

  answers-IsOther : IsAnswer config texts IsOther
  answers-IsOther = record {
    hello = refl;
    health = refl;
    reload = reload-IsOther;
    scan = scan-IsOther texts.scans;
  }

  Ends : Session → Type 0
  Ends s = Speaks IsOther s ⊎ HasLeft s

  waited-Ends :
      (xs : List InFlight) (final : Final) (send : Option String) (s : Session)
      → s.scans ≡ xs
      → Speaks IsOther s
      → Ends (waited config texts xs final send s)
  unfolding Ends
  waited-Ends (x ∷ xs) final send s e h = inl h
  waited-Ends [] (Final.give_back r) send s e h = inl h
  waited-Ends [] Final.acknowledge (some r) s e h = inl h
  waited-Ends [] Final.acknowledge none s e h = inr (refl, e, s.sent, refl, h.1)

  left_stays :
      (phase : Phase) (turn : Turn) (s : Session)
      → phase ≡ Phase.returned none
      → serve config texts phase turn s ≡ s
  left_stays phase turn s e = rw e refl

  run-Ends :
      (turns : List Turn) (s : Session)
      → All IsFine turns
      → Ends s
      → Ends (run config texts turns s)
  unfolding run Ends
  run-Ends [] s f h = h
  run-Ends (turn ∷ turns) s f (inl h) = run-Ends turns _ f.1 (
      serve-Speaks config texts IsOther Ends s.phase turn s (λ t x. inl x)
        (λ final send. waited-Ends s.scans final send s refl h) answers-IsOther f.0 h)
  run-Ends (turn ∷ turns) s f (inr h) =
      run-Ends turns _ f.1 (subst Ends (sym (left_stays s.phase turn s h.0)) (inr h))

  none_among : (ms : List Message) → All IsOther ms → any is_ack ms ≡ false
  unfolding any
  none_among [] a = refl
  none_among (m ∷ ms) (e, a) = rw (e, none_among ms a) refl

  -- If a session that is given only what Validate accepts has sent a SHUTDOWN_ACK, then it has
  -- returned without an error, no scan is in flight, and the SHUTDOWN_ACK is the last message that
  -- it sent, and the only one: every SCAN_RESULT came before.
  pub run-HasLeft :
      (turns : List Turn) (store : Store)
      → All IsFine turns
      → any is_ack (run config texts turns (new_session store)).sent ≡ true
      → HasLeft (run config texts turns (new_session store))
  unfolding Ends
  run-HasLeft turns store f acked = elim (run-Ends turns (new_session store) f (inl (tt, tt))) [
    | inl h ↦ absurd (ground (arith, none_among _ h.1))
    | inr h ↦ h
  ]
