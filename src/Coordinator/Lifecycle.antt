-- ===== src/Coordinator/Lifecycle.antt =====
-- The life of a worker in pkg/coordinator/coordinator.go, against the states that README.md and
-- docs/architecture.md give: STARTING, HEALTHY, ACTIVE, DRAINING, RETIRED, with FAILED on the side.
use mini_av.Prelude.{
  ◌≡◌, ◌≢◌, refl, sym, subst, ◌⊎◌, inl, inr, some, List, [], ◌∷◌, arith, Bool-cases,
}
use mini_av.Prelude.Equality.{◌==◌}
use mini_av.Prelude.Table.{lookup, insert, lookup-insert}
use mini_av.Coordinator.State.{WorkerState, WorkerKey, key_eq, key_beq_iff, Worker, State, Command}
use mini_av.Coordinator.Handlers.{step, run}
use mini_av.Coordinator.Tables.{Workers}
use mini_av.Coordinator.Moves.{
  Move, register, become_healthy, fail, activate, swap, retire, track, answer, exit_retired,
  exit_fails,
}
use mini_av.Coordinator.Steps.{step-Goes}

-- The documented lifecycle; `crash` is the exit or the failure of a worker that is not retired.
pub data Lives : WorkerState → WorkerState → Type 0 where
  stay : (x : WorkerState) → Lives x x
  pass_checks : Lives WorkerState.starting WorkerState.healthy
  take_traffic : Lives WorkerState.healthy WorkerState.active
  be_replaced : Lives WorkerState.active WorkerState.draining
  drain : Lives WorkerState.draining WorkerState.retired
  crash : (x : WorkerState) → x ≢ WorkerState.retired → Lives x WorkerState.failed

-- The worker under a key is still there, one step on in its life at most, and keeps its process.
abbrev pub Continues : Workers → Workers → Type 0
Continues ws ws' =
    (k : WorkerKey) (w : Worker)
    → lookup k ws ≡ some w
    → (w' : Worker) × (lookup k ws' ≡ some w') × Lives w.state w'.state × (w'.pid ≡ w.pid)

Continues-refl : (ws : Workers) → Continues ws ws
Continues-refl ws k w h = (w, h, stay w.state, refl)

Continues-insert :
    (k : WorkerKey) (w' : Worker) (ws mid : Workers)
    → ((w : Worker) → lookup k ws ≡ some w → Lives w.state w'.state × (w'.pid ≡ w.pid))
    → Continues ws mid
    → Continues ws (insert k w' mid)
Continues-insert k w' ws mid on others j w h = elim (Bool-cases (k == j)) [
  | inl same ↦
      (let here = on w (subst (λ x. lookup x ws ≡ some w) (sym ((key_beq_iff k j).0 same)) h) in
        (w', ground (arith, lookup-insert k j w' mid), here.0, here.1))
  | inr other ↦
      (let (v, g, l, p) = others j w h in (v, ground (arith, lookup-insert k j w' mid), l, p))
]

-- The step of the worker that was found under the key.
module _ (ws : Workers) (k : WorkerKey) (w w' : Worker) (e : lookup k ws ≡ some w) where
  life :
      (x y : WorkerState)
      → w.state ≡ x
      → w'.state ≡ y
      → Lives x y
      → w'.pid ≡ w.pid
      → (v : Worker) → lookup k ws ≡ some v
      → Lives v.state w'.state × (w'.pid ≡ v.pid)
  life x y p q l pid v f =
      let same : w ≡ v = ground arith in
      subst (λ (u : Worker). Lives u.state w'.state × (w'.pid ≡ u.pid)) same
        (subst (λ z. Lives z w'.state) (sym p) (subst (λ z. Lives x z) (sym q) l), pid)

-- Nothing follows the end of a life.
ended_stays :
    (x y : WorkerState) → (x ≡ WorkerState.retired) ⊎ (x ≡ WorkerState.failed) → Lives x y → y ≡ x
ended_stays x y ended (stay _) = refl
ended_stays x y ended pass_checks = absurd (ground arith)
ended_stays x y ended take_traffic = absurd (ground arith)
ended_stays x y ended be_replaced = absurd (ground arith)
ended_stays x y ended drain = absurd (ground arith)
ended_stays x y ended (crash _ n) = ground arith

-- A write of the worker that was found, in its next state.
advance :
    (ws mid : Workers) (k : WorkerKey) (w w' : Worker) (x : WorkerState)
    → lookup k ws ≡ some w
    → w.state ≡ x
    → Lives x w'.state
    → w'.pid ≡ w.pid
    → Continues ws mid
    → Continues ws (insert k w' mid)
advance ws mid k w w' x e st l p others =
    Continues-insert k w' ws mid (life ws k w w' e x w'.state st refl l p) others

Move-Continues : {s t : State} → Move s t → Continues s.workers t.workers
Move-Continues {s} (register k c fresh alone) =
    Continues-insert k _ s.workers s.workers (λ w f. absurd (ground arith))
      (Continues-refl s.workers)
Move-Continues {s} (become_healthy k w e st) =
    advance s.workers s.workers k w _ _ e st pass_checks refl (Continues-refl s.workers)
Move-Continues {s} (fail k w c reason e cand) =
    advance s.workers s.workers k w _ _ e refl (crash w.state (ground arith)) refl
      (Continues-refl s.workers)
Move-Continues {s} (activate k w e st free) =
    advance s.workers s.workers k w _ _ e st take_traffic refl (Continues-refl s.workers)
Move-Continues {s} (swap k old w a e st route f up) =
    advance s.workers _ k w _ _ e st take_traffic refl
      (advance s.workers s.workers old a _ _ f up be_replaced refl (Continues-refl s.workers))
Move-Continues {s} (retire k w e st settled) =
    advance s.workers s.workers k w _ _ e st drain refl (Continues-refl s.workers)
Move-Continues {s} (track id keys results n f g a) = Continues-refl s.workers
Move-Continues {s} (answer id k verdict r e o valid) = Continues-refl s.workers
Move-Continues {s} (exit_retired k w exit e st) =
    advance s.workers s.workers k w _ _ e refl (stay w.state) refl (Continues-refl s.workers)
Move-Continues {s} (exit_fails k w exit e p st) =
    advance s.workers s.workers k w _ _ e refl (crash w.state st) refl (Continues-refl s.workers)

-- No command removes a worker, and each moves it by one documented transition at most, with its
-- process ID as it was.
pub step-Continues : (s : State) (c : Command) → Continues s.workers (step s c).1.workers
step-Continues s c = elim (step-Goes s c) [
  | inl same ↦ subst (λ t. Continues s.workers t.workers) (sym same) (Continues-refl s.workers)
  | inr move ↦ Move-Continues move
]

-- A worker that has ended, retired or failed, has ended for good: no commands make a retired
-- worker anything else, or a failed one.
run_ended :
    (s : State) (cs : List Command) (k : WorkerKey) (w : Worker) (x : WorkerState)
    → (x ≡ WorkerState.retired) ⊎ (x ≡ WorkerState.failed)
    → lookup k s.workers ≡ some w
    → w.state ≡ x
    → (w' : Worker) × (lookup k (run s cs).workers ≡ some w') × (w'.state ≡ x)
unfolding run
run_ended s [] k w x ended e st = (w, e, st)
run_ended s (c ∷ cs) k w x ended e st =
    let (w', e', l, _) = step-Continues s c k w e in
    run_ended (step s c).1 cs k w' x ended e'
      (ended_stays x w'.state ended (subst (λ y. Lives y w'.state) st l))
