-- ===== src/Coordinator/Steps.antt =====
-- Each handler of pkg/coordinator/coordinator.go leaves the state as it is or makes one move.
use mini_av.Prelude.{
  is_some, Result, ℕ, String, ◌≡◌, ◌≢◌, refl, inl, inr, Option, none, List, [], ◌∷◌, false, arith,
  not, nat_beq, if_cases, option_cases, ok, err,
}
use mini_av.Prelude.Equality.{string_eq, nat_eq}
use mini_av.Prelude.Table.{Table, lookup, find_entry}
use mini_av.Prelude.Text.{is_blank}
use mini_av.Process.{Child, Exit, terminate}
use mini_av.Protocol.{Verdict, valid_verdict}
use mini_av.Coordinator.State.{
  is_starting, is_healthy, is_active, is_draining, is_retired, is_candidate, WorkerKey, key_eq,
  State, Command, Error,
}
use mini_av.Coordinator.Handlers.{
  is_empty, track_assigned, Outcome, is_rival, validate_worker_key, register_worker, mark_healthy,
  fail_worker, activate_worker, retire_worker, track_request, record_result, record_worker_exit,
  is_unset, owes, assign, step,
}
use mini_av.Coordinator.Moves.{
  Move, register, become_healthy, fail, activate, swap, retire, track, answer, exit_retired,
  exit_fails, Goes,
}

abbrev Ends : State → Outcome → Type 0
Ends s o = Goes s o.1

-- A refusal stays.
stays : {s : State} → Goes s s
stays = inl refl

mark_healthy-Goes : (s : State) (k : WorkerKey) → Ends s (mark_healthy s k)
unfolding mark_healthy
mark_healthy-Goes s k =
    option_cases (Ends s) (lookup k s.workers) _ _ (λ _. stays)
      λ w e.
        if_cases (Ends s) (not (is_starting w.state)) _ _ (λ _. stays)
          λ t. inr (become_healthy k w e (ground arith))

register_worker-Goes :
    (s : State) (k : WorkerKey) (c : Option Child) → Ends s (register_worker s k c)
unfolding register_worker
register_worker-Goes s k c =
    option_cases (Ends s) (validate_worker_key k) _ _
      (λ _.
        option_cases (Ends s) c _ _ (λ _. stays)
          λ child _.
            option_cases (Ends s) (lookup k s.workers) _ _
              (λ new.
                option_cases (Ends s) (find_entry (is_rival k.scanner_id) s.workers) _ _
                  (λ alone. inr (register k child new alone)) (λ _ _. stays))
              (λ _ _. stays))
      (λ _ _. stays)

fail_worker-Goes : (s : State) (k : WorkerKey) (reason : String) → Ends s (fail_worker s k reason)
unfolding fail_worker
fail_worker-Goes s k reason =
    option_cases (Ends s) (lookup k s.workers) _ _ (λ _. stays)
      λ w e.
        if_cases (Ends s) (not (is_candidate w.state)) _ _ (λ _. stays)
          λ t.
            if_cases (Ends s) (is_blank reason) _ _ (λ _. stays)
              λ _.
                (let moved : Move s _ = fail k w (terminate w.child).0 reason e (ground arith) in
                  option_cases (Ends s) (terminate w.child).1 _ _ (λ _. inr moved)
                    (λ _ _. inr moved))

activate_worker-Goes : (s : State) (k : WorkerKey) → Ends s (activate_worker s k)
unfolding activate_worker
activate_worker-Goes s k =
    option_cases (Ends s) (lookup k s.workers) _ _ (λ _. stays)
      λ w e.
        if_cases (Ends s) (not (is_healthy w.state)) _ _ (λ _. stays)
          λ t.
            option_cases (Ends s) (lookup k.scanner_id s.active) _ _
              (λ free. inr (activate k w e (ground arith) free))
              λ old routed.
                option_cases (Ends s) (lookup old s.workers) _ _ (λ _. stays)
                  λ a f.
                    if_cases (Ends s) (not (is_active a.state)) _ _ (λ _. stays)
                      λ u. inr (swap k old w a e (ground arith) routed f (ground arith))

retire_worker-Goes : (s : State) (k : WorkerKey) → Ends s (retire_worker s k)
unfolding retire_worker
retire_worker-Goes s k =
    option_cases (Ends s) (lookup k s.workers) _ _ (λ _. stays)
      λ w e.
        if_cases (Ends s) (not (is_draining w.state)) _ _ (λ _. stays)
          λ t.
            option_cases (Ends s) (find_entry (λ id r. owes k r) s.requests) _ _
              (λ settled. inr (retire k w e (ground arith) settled)) (λ _ _. stays)

is_some-none {ℓ} : {A : Type ℓ} (o : Option A) → is_some o ≡ false → o ≡ none
is_some-none o h = ground arith

is_empty-ne {ℓ} : {A : Type ℓ} (xs : List A) → is_empty xs ≡ false → xs ≢ []
is_empty-ne [] h = cc
is_empty-ne (x ∷ xs) h = λ e. cc

Ends-assigned :
    (s : State) (id : ℕ) (keys : List WorkerKey) (r : Result Error (Table WorkerKey Verdict))
    → id ≢ 0
    → lookup id s.requests ≡ none
    → keys ≢ []
    → assign s.workers id [] keys ≡ r
    → Ends s (track_assigned s id r)
unfolding track_assigned
Ends-assigned s id keys (err e) n f g h = stays
Ends-assigned s id keys (ok results) n f g h = inr (track id keys results n f g h)

track_request-Goes : (s : State) (id : ℕ) (keys : List WorkerKey) → Ends s (track_request s id keys)
unfolding track_request
track_request-Goes s id keys =
    if_cases (Ends s) (nat_beq id 0) _ _ (λ _. stays)
      λ n.
        if_cases (Ends s) (is_some (lookup id s.requests)) _ _ (λ _. stays)
          λ f.
            if_cases (Ends s) (is_empty keys) _ _ (λ _. stays)
              λ g.
                Ends-assigned s id keys _ (ground arith) (is_some-none _ f) (is_empty-ne keys g)
                  refl

record_result-Goes :
    (s : State) (id : ℕ) (k : WorkerKey) (v : Verdict) → Ends s (record_result s id k v)
unfolding record_result owes
record_result-Goes s id k v =
    option_cases (Ends s) (lookup id s.requests) _ _ (λ _. stays)
      λ r e.
        option_cases (Ends s) (lookup k r.results) _ _ (λ _. stays)
          λ old f.
            if_cases (Ends s) (not (is_unset old)) _ _ (λ _. stays)
              λ t.
                if_cases (Ends s) (not (valid_verdict v)) _ _ (λ _. stays)
                  λ u. inr (answer id k v r e (rw (f, owes) (ground arith)) (ground arith))

record_worker_exit-Goes :
    (s : State) (k : WorkerKey) (exit : Exit) → Goes s (record_worker_exit s k exit)
unfolding record_worker_exit
record_worker_exit-Goes s k exit =
    option_cases (Goes s) (lookup k s.workers) _ _ (λ _. stays)
      λ w e.
        if_cases (Goes s) (not (nat_beq w.pid exit.pid)) _ _ (λ _. stays)
          λ p.
            if_cases (Goes s) (is_retired w.state) _ _
              (λ t. inr (exit_retired k w exit e (ground arith)))
              (λ t. inr (exit_fails k w exit e (ground arith) (ground arith)))

-- Every command leaves the state as it is, or makes one of the moves above.
pub step-Goes : (s : State) (c : Command) → Goes s (step s c).1
unfolding step
step-Goes s (Command.register_worker k c) = register_worker-Goes s k c
step-Goes s (Command.mark_healthy k) = mark_healthy-Goes s k
step-Goes s (Command.fail_worker k reason) = fail_worker-Goes s k reason
step-Goes s (Command.activate_worker k) = activate_worker-Goes s k
step-Goes s (Command.retire_worker k) = retire_worker-Goes s k
step-Goes s (Command.track_request id keys) = track_request-Goes s id keys
step-Goes s (Command.record_result id k v) = record_result-Goes s id k v
step-Goes s Command.snapshot = stays
step-Goes s (Command.worker_exited k exit) = record_worker_exit-Goes s k exit
