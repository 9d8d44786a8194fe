-- ===== src/Coordinator/Routes.antt =====
-- The routes of pkg/coordinator/coordinator.go: which worker of a scanner is the active one.
use mini_av.Prelude.{
  ℕ, String, ◌≡◌, ◌≢◌, refl, ap, ◌∙◌, inl, inr, Option, none, some, List, Bool, true, false, not,
  ◌&&◌, if◌then◌else◌, arith, nat_beq, Bool-cases, if_cases, option_cases,
}
use mini_av.Prelude.Equality.{◌==◌, string_eq, nat_eq}
use mini_av.Prelude.Table.{Table, lookup, lookup-insert, lookup-delete}
use mini_av.Process.{Child, Exit}
use mini_av.Protocol.{Verdict}
use mini_av.Coordinator.State.{
  is_healthy, is_active, is_retired, WorkerKey, key_eq, key_beq_iff, Worker, State, Command, Reply,
  initial,
}
use mini_av.Coordinator.Tables.{Routed}
use mini_av.Coordinator.Handlers.{
  Outcome, register_worker, mark_healthy, fail_worker, activate_worker, retire_worker,
  track_request, track_assigned, record_result, record_worker_exit, drop_route, step, run,
}
use mini_av.Coordinator.Safety.{run-Inv}

-- Whether the process of the worker is the one that has exited.
abbrev is_process : Exit → Option Worker → Bool
is_process exit none = false
is_process exit (some w) = nat_beq w.pid exit.pid

abbrev is_route : WorkerKey → Option WorkerKey → Bool
is_route k none = false
is_route k (some j) = j == k

-- The route of a scanner after a command that was answered, from its route before.
abbrev pub route_after : State → Command → Reply → String → Option WorkerKey → Option WorkerKey
route_after s (Command.activate_worker k) (Reply.error none) id before =
    if k.scanner_id == id then some k else before
route_after s (Command.worker_exited k exit) reply id before =
    if is_route k before && is_process exit (lookup k s.workers) then none else before
route_after s command reply id before = before

-- A handler that leaves the routes.
abbrev Stays : State → Outcome → Type 0
Stays s o = o.1.active ≡ s.active

register_worker-Stays :
    (s : State) (k : WorkerKey) (c : Option Child) → Stays s (register_worker s k c)
unfolding register_worker
register_worker-Stays s k c = ground arith

mark_healthy-Stays : (s : State) (k : WorkerKey) → Stays s (mark_healthy s k)
unfolding mark_healthy
mark_healthy-Stays s k = ground arith

fail_worker-Stays : (s : State) (k : WorkerKey) (reason : String) → Stays s (fail_worker s k reason)
unfolding fail_worker
fail_worker-Stays s k reason = ground arith

retire_worker-Stays : (s : State) (k : WorkerKey) → Stays s (retire_worker s k)
unfolding retire_worker
retire_worker-Stays s k = ground arith

track_request-Stays :
    (s : State) (id : ℕ) (keys : List WorkerKey) → Stays s (track_request s id keys)
unfolding track_request track_assigned
track_request-Stays s id keys = ground arith

record_result-Stays :
    (s : State) (id : ℕ) (k : WorkerKey) (v : Verdict) → Stays s (record_result s id k v)
unfolding record_result
record_result-Stays s id k v = ground arith

-- The route after an activation that was answered.
abbrev Leads : State → WorkerKey → String → Outcome → Type 0
Leads s k id o =
    lookup id o.1.active
    ≡ route_after s (Command.activate_worker k) (Reply.error o.0) id (lookup id s.active)

activate_worker-Leads :
    (s : State) (k : WorkerKey) (id : String) → Leads s k id (activate_worker s k)
unfolding activate_worker
activate_worker-Leads s k id =
    let Fine = Leads s k id in
    option_cases Fine (lookup k s.workers) _ _ (λ _. refl)
      λ w e.
        if_cases Fine (not (is_healthy w.state)) _ _ (λ _. refl)
          λ t.
            option_cases Fine (lookup k.scanner_id s.active) _ _
              (λ free. lookup-insert k.scanner_id id k s.active)
              λ old routed.
                option_cases Fine (lookup old s.workers) _ _ (λ _. refl)
                  λ a f.
                    if_cases Fine (not (is_active a.state)) _ _ (λ _. refl)
                      λ u. lookup-insert k.scanner_id id k s.active

is_route-other :
    (k : WorkerKey) (route : Option WorkerKey) → route ≢ some k → is_route k route ≡ false
is_route-other k none n = refl
is_route-other k (some j) n = elim (Bool-cases (j == k)) [
  | inl same ↦ absurd (n (ap some (ground (arith, key_beq_iff j k))))
  | inr other ↦ other
]

is_route_self :
    (k : WorkerKey) (route : Option WorkerKey) → route ≡ some k → is_route k route ≡ true
is_route_self k route e = rw e (ground (arith, key_beq_iff k k))

-- A key is the route of its own scanner only.
drop_route-ends :
    (k : WorkerKey) (id : String) (active : Table String WorkerKey)
    → (lookup id active ≡ some k → k.scanner_id ≡ id)
    → lookup id (drop_route k active)
      ≡ (if is_route k (lookup id active) then none else lookup id active)
unfolding drop_route
drop_route-ends k id active own =
    let M = λ (t : Table String WorkerKey).
      lookup id t ≡ (if is_route k (lookup id active) then none else lookup id active) in
    let kept : lookup id active ≢ some k → M active =
      λ n. rw (is_route-other k (lookup id active) n) refl in
    let at = λ (e : lookup id active ≡ some k). ap (λ i. lookup i active) (own e) ∙ e in
    option_cases M (lookup k.scanner_id active) _ _
      (λ f. kept λ e. absurd (ground (arith, f, at e)))
      λ j f.
        if_cases M (j == k) _ _
          (λ same. elim (Bool-cases (k.scanner_id == id)) [
            | inl its ↦
                (let routed : lookup id active ≡ some k =
                    ground (arith, f, string_eq.decides k.scanner_id id, key_beq_iff j k) in
                  rw (is_route_self k (lookup id active) routed)
                    (ground (arith, lookup-delete k.scanner_id id active)))
            | inr away ↦
                rw
                  (is_route-other k (lookup id active)
                    λ e. absurd (ground (arith, own e, string_eq.decides k.scanner_id id)))
                  (ground (arith, lookup-delete k.scanner_id id active))
          ])
          λ differs. kept λ e. absurd (ground (arith, f, at e, key_beq_iff j k))

is_route-some :
    (k : WorkerKey) (route : Option WorkerKey) → is_route k route ≡ true → route ≡ some k
is_route-some k none h = absurd (ground arith)
is_route-some k (some j) h = ap some (ground (arith, key_beq_iff j k))

-- The route after an exit.
abbrev Loses : State → WorkerKey → Exit → String → State → Type 0
Loses s k exit id t = lookup id t.active ≡ (
    if is_route k (lookup id s.active) && is_process exit (lookup k s.workers)
    then none
    else lookup id s.active)

record_worker_exit-Loses :
    (s : State) (k : WorkerKey) (exit : Exit) (id : String)
    → Routed s.workers s.active
    → Loses s k exit id (record_worker_exit s k exit)
unfolding record_worker_exit
record_worker_exit-Loses s k exit id led =
    let Fine = Loses s k exit id in
    option_cases Fine (lookup k s.workers) _ _ (λ e. rw e (ground arith))
      λ w e.
        if_cases Fine (not (nat_beq w.pid exit.pid)) _ _ (λ p. rw e (ground (arith, p)))
          λ p.
            if_cases Fine (is_retired w.state) _ _
              (λ gone. elim (Bool-cases (is_route k (lookup id s.active))) [
                | inl routed ↦
                    (let (_, v, f, up) = led id k (is_route-some k (lookup id s.active) routed) in
                      let same : v ≡ w = ground (arith, e, f) in
                      absurd (ground (arith, up, ap (λ (x : Worker). x.state) same, gone)))
                | inr other ↦ rw other refl
              ])
              λ up. rw e (ground (arith, p, drop_route-ends k id s.active (λ f. (led id k f).0)))

-- After any commands, one more leaves the route of every scanner as it is, but for two: an activation
-- that is answered with nil makes the worker the route of its scanner, and of no other, and the exit
-- of the process of the worker that is a route leaves the scanner without one.
pub step-route_after :
    (cs : List Command) (c : Command) (id : String)
    → lookup id (step (run initial cs) c).1.active
      ≡ route_after
          (run initial cs)
          c
          (step (run initial cs) c).0
          id
          (lookup id (run initial cs).active)
unfolding step
step-route_after cs (Command.register_worker k c) id =
    ap (lookup id) (register_worker-Stays (run initial cs) k c)
step-route_after cs (Command.mark_healthy k) id =
    ap (lookup id) (mark_healthy-Stays (run initial cs) k)
step-route_after cs (Command.fail_worker k reason) id =
    ap (lookup id) (fail_worker-Stays (run initial cs) k reason)
step-route_after cs (Command.activate_worker k) id = activate_worker-Leads (run initial cs) k id
step-route_after cs (Command.retire_worker k) id =
    ap (lookup id) (retire_worker-Stays (run initial cs) k)
step-route_after cs (Command.track_request n keys) id =
    ap (lookup id) (track_request-Stays (run initial cs) n keys)
step-route_after cs (Command.record_result n k v) id =
    ap (lookup id) (record_result-Stays (run initial cs) n k v)
step-route_after cs Command.snapshot id = refl
step-route_after cs (Command.worker_exited k exit) id =
    record_worker_exit-Loses (run initial cs) k exit id (run-Inv cs).routed
