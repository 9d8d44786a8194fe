-- ===== src/Coordinator/Safety.antt =====
-- The invariant of the actor of pkg/coordinator/coordinator.go, over one command and over all.
use mini_av.Prelude.{
  ◌≡◌, refl, sym, subst, inl, inr, Option, some, List, [], ◌∷◌, Bool, true, false, arith, not,
  if_cases, option_cases,
}
use mini_av.Prelude.Equality.{string_eq, nat_eq}
use mini_av.Prelude.Table.{lookup}
use mini_av.Coordinator.State.{
  is_healthy, is_active, WorkerKey, key_eq, State, Error, Command, initial,
}
use mini_av.Coordinator.Handlers.{activate_worker, Outcome, step, run}
use mini_av.Coordinator.Tables.{Owed-insert}
use mini_av.Coordinator.Requests.{Owed-settled, Owed-track, Owed-answer}
use mini_av.Coordinator.Moves.{
  Move, register, become_healthy, fail, activate, swap, retire, track, answer, exit_retired,
  exit_fails,
}
use mini_av.Coordinator.Steps.{step-Goes}
use mini_av.Coordinator.Invariant.{
  Inv, write-Inv, was_other, register-Inv, fail-Inv, exit-Inv, activate-Inv, swap-Inv,
}

Move-Inv : {s t : State} → Move s t → Inv s → Inv t
Move-Inv {s} (register k c fresh alone) v = register-Inv s k _ fresh alone refl refl v
Move-Inv {s} (become_healthy k w e st) v =
    write-Inv s k _ (v.keyed k w e) (was_other s k w e (ground arith)) (ground arith)
      (λ _. (w, e, ground arith))
      (Owed-insert k _ s.workers s.requests (λ u g on. absurd (ground arith)) v.owed) v
Move-Inv {s} (fail k w c reason e cand) v = fail-Inv s k w _ e (ground arith) refl refl v
Move-Inv {s} (activate k w e st free) v = activate-Inv s k w _ e st free refl refl v
Move-Inv {s} (swap k old w a e st route f up) v =
    swap-Inv s k old w _ a _ e st route f up refl refl refl refl v
Move-Inv {s} (retire k w e st settled) v =
    write-Inv s k _ (v.keyed k w e) (was_other s k w e (ground arith)) (ground arith)
      (λ c. absurd (ground arith)) (Owed-settled k _ s.workers s.requests settled v.owed) v
Move-Inv {s} (track id keys results n f g a) v = record {
  keyed = v.keyed;
  routed = v.routed;
  sole = v.sole;
  one_candidate = v.one_candidate;
  owed = Owed-track s.workers s.requests id keys results a v.owed;
}
Move-Inv {s} (answer id k verdict r e o valid) v = record {
  keyed = v.keyed;
  routed = v.routed;
  sole = v.sole;
  one_candidate = v.one_candidate;
  owed = Owed-answer s.workers s.requests id k verdict r e valid v.owed;
}
Move-Inv {s} (exit_retired k w exit e st) v =
    write-Inv s k _ (v.keyed k w e) (was_other s k w e (ground arith)) (ground arith)
      (λ c. absurd (ground arith))
      (Owed-insert k _ s.workers s.requests (λ u g on. absurd (ground arith)) v.owed) v
Move-Inv {s} (exit_fails k w exit e p st) v = exit-Inv s k w _ e refl refl v

-- Every command keeps the invariant, whatever it returns.
pub step-Inv : (s : State) (c : Command) → Inv s → Inv (step s c).1
step-Inv s c v = elim (step-Goes s c) [
  | inl same ↦ subst Inv (sym same) v
  | inr move ↦ Move-Inv move v
]

pub run_from-Inv : (s : State) (cs : List Command) → Inv s → Inv (run s cs)
unfolding run
run_from-Inv s [] v = v
run_from-Inv s (c ∷ cs) v = run_from-Inv (step s c).1 cs (step-Inv s c v)

initial-Inv : Inv initial
unfolding lookup
initial-Inv = record {
  keyed = λ k w h. absurd (ground arith);
  routed = λ id k h. absurd (ground arith);
  sole = λ k w h f. absurd (ground arith);
  one_candidate = λ j k v w g h p q e. absurd (ground arith);
  owed = λ id r k h o. absurd (ground arith);
}

-- After any commands: each worker is stored under its key; a route leads to an active worker of
-- its scanner, and every active worker has its scanner's route; a scanner has one candidate at
-- most; and only active and draining workers owe results.
pub run-Inv : (cs : List Command) → Inv (run initial cs)
run-Inv cs = run_from-Inv initial cs initial-Inv

abbrev pub is_invalid_route : Option Error → Bool
is_invalid_route (some (Error.invalid_route id k)) = true
is_invalid_route _ = false

-- After any commands, an activation is never refused for an invalid active route: the check of
-- activateWorker on the active worker cannot fail.
pub activate_worker-route_valid :
    (cs : List Command) (k : WorkerKey)
    → is_invalid_route (activate_worker (run initial cs) k).0 ≡ false
unfolding activate_worker
activate_worker-route_valid cs k =
    let s = run initial cs in
    let Fine = λ (o : Outcome). is_invalid_route o.0 ≡ false in
    option_cases Fine (lookup k s.workers) _ _ (λ _. refl)
      λ w e.
        if_cases Fine (not (is_healthy w.state)) _ _ (λ _. refl)
          λ t.
            option_cases Fine (lookup k.scanner_id s.active) _ _ (λ _. refl)
              λ old route.
                (let (_, a, f, up) = (run-Inv cs).routed k.scanner_id old route in
                  option_cases Fine (lookup old s.workers) _ _ (λ lost. absurd (ground arith))
                    λ b g.
                      if_cases Fine (not (is_active b.state)) _ _ (λ u. absurd (ground arith))
                        (λ _. refl))
