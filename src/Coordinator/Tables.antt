-- ===== src/Coordinator/Tables.antt =====
-- Facts about the tables of the actor of pkg/coordinator/coordinator.go, and how a write of one
-- entry keeps them.
use mini_av.Prelude.{
  ℕ, String, ◌≡◌, ◌≢◌, sym, subst, ◌⊎◌, inl, inr, some, Bool, true, false, arith, Bool-cases,
}
use mini_av.Prelude.Equality.{◌==◌, string_eq, nat_eq}
use text.Mathlib.TextEquality.{eq_iff}
use mini_av.Prelude.Table.{Table, lookup, insert, lookup-insert}
use mini_av.Coordinator.State.{
  WorkerState, is_candidate, WorkerKey, key_eq, key_beq_iff, Worker, Request,
}
use mini_av.Coordinator.Handlers.{owes}

abbrev pub Workers : Type 0
Workers = Table WorkerKey Worker

-- An active or draining worker may still answer.
abbrev pub is_serving : WorkerState → Bool
is_serving WorkerState.active = true
is_serving WorkerState.draining = true
is_serving _ = false

-- A worker is stored under its own key.
abbrev pub Keyed : Workers → Type 0
Keyed ws = (k : WorkerKey) (w : Worker) → lookup k ws ≡ some w → w.key ≡ k

-- A route leads to an active worker of its scanner.
abbrev pub Routed : Workers → Table String WorkerKey → Type 0
Routed ws active =
    (id : String) (k : WorkerKey)
    → lookup id active ≡ some k
    → (k.scanner_id ≡ id) × (w : Worker) × (lookup k ws ≡ some w) × (w.state ≡ WorkerState.active)

-- An active worker is the one that its scanner's route leads to.
abbrev pub Sole : Workers → Table String WorkerKey → Type 0
Sole ws active =
    (k : WorkerKey) (w : Worker)
    → lookup k ws ≡ some w
    → w.state ≡ WorkerState.active
    → lookup k.scanner_id active ≡ some k

-- A scanner has one candidate at most.
abbrev pub OneCandidate : Workers → Type 0
OneCandidate ws =
    (j k : WorkerKey) (v w : Worker)
    → lookup j ws ≡ some v
    → lookup k ws ≡ some w
    → is_candidate v.state ≡ true
    → is_candidate w.state ≡ true
    → j.scanner_id ≡ k.scanner_id
    → j ≡ k

-- A result is owed only by a worker that may still answer.
abbrev pub Owed : Workers → Table ℕ Request → Type 0
Owed ws requests =
    (id : ℕ) (r : Request) (k : WorkerKey)
    → lookup id requests ≡ some r
    → owes k r ≡ true
    → (w : Worker) × (lookup k ws ≡ some w) × (is_serving w.state ≡ true)

module _ (k : WorkerKey) (w' : Worker) (ws : Workers) where
  -- What a lookup finds after the write.
  pub found_after :
      (j : WorkerKey) (w : Worker)
      → lookup j (insert k w' ws) ≡ some w
      → ((k ≡ j) × (w ≡ w')) ⊎ ((k ≢ j) × (lookup j ws ≡ some w))
  found_after j w h = ground (arith, lookup-insert k j w' ws, key_beq_iff k j)

  pub found_self : lookup k (insert k w' ws) ≡ some w'
  found_self = ground (arith, lookup-insert k k w' ws, key_beq_iff k k)

  pub found_other :
      (j : WorkerKey) (w : Worker)
      → k ≢ j
      → lookup j ws ≡ some w
      → lookup j (insert k w' ws) ≡ some w
  found_other j w n h = ground (arith, lookup-insert k j w' ws, key_beq_iff k j)

  pub Keyed-insert : w'.key ≡ k → Keyed ws → Keyed (insert k w' ws)
  Keyed-insert e keyed j w h = elim (found_after j w h) [
    | inl (same, f) ↦ ground arith
    | inr (other, f) ↦ keyed j w f
  ]

  -- A worker that was not active has no route.
  pub Routed-insert :
      (active : Table String WorkerKey)
      → ((w : Worker) → lookup k ws ≡ some w → w.state ≢ WorkerState.active)
      → Routed ws active
      → Routed (insert k w' ws) active
  Routed-insert active quiet routed id j h =
      let (p, w, e, f) = routed id j h in
      (
        p,
        w,
        found_other j w (λ same. quiet w (subst (λ x. lookup x ws ≡ some w) (sym same) e) f) e,
        f,
      )

  pub Sole-insert :
      (active : Table String WorkerKey)
      → w'.state ≢ WorkerState.active
      → Sole ws active
      → Sole (insert k w' ws) active
  Sole-insert active quiet sole j w h f = elim (found_after j w h) [
    | inl (same, e) ↦ absurd (quiet (subst (λ (x : Worker). x.state ≡ WorkerState.active) e f))
    | inr (other, e) ↦ sole j w e f
  ]

  module _
      (was : is_candidate w'.state ≡ true
        → (v : Worker) × (lookup k ws ≡ some v) × (is_candidate v.state ≡ true)) where
    was_candidate :
        (j : WorkerKey) (w : Worker)
        → lookup j (insert k w' ws) ≡ some w
        → is_candidate w.state ≡ true
        → (v : Worker) × (lookup j ws ≡ some v) × (is_candidate v.state ≡ true)
    was_candidate j w h p = elim (found_after j w h) [
      | inl (same, e) ↦
          subst (λ x. (v : Worker) × (lookup x ws ≡ some v) × (is_candidate v.state ≡ true)) same
            (was (subst (λ (x : Worker). is_candidate x.state ≡ true) e p))
      | inr (other, e) ↦ (w, e, p)
    ]

    -- A write that makes no new candidate.
    pub OneCandidate-insert : OneCandidate ws → OneCandidate (insert k w' ws)
    OneCandidate-insert one i j v w g h p q e =
        let (v', g', p') = was_candidate i v g p in
        let (w', h', q') = was_candidate j w h q in one i j v' w' g' h' p' q' e

  -- The first candidate of its scanner.
  pub OneCandidate-first :
      ((j : WorkerKey) (w : Worker)
        → lookup j ws ≡ some w
        → is_candidate w.state ≡ true
        → j.scanner_id ≢ k.scanner_id)
      → OneCandidate ws
      → OneCandidate (insert k w' ws)
  OneCandidate-first alone one i j v w g h p q e = elim (found_after i v g) [
    | inl (ik, _) ↦ elim (found_after j w h) [
      | inl (jk, _) ↦ cc
      | inr (_, h') ↦ absurd (alone j w h' q (cc))
    ]
    | inr (_, g') ↦ elim (found_after j w h) [
      | inl (jk, _) ↦ absurd (alone i v g' p (cc))
      | inr (_, h') ↦ one i j v w g' h' p q e
    ]
  ]

  -- A worker that may answer goes on to be one that may.
  pub Owed-insert :
      (requests : Table ℕ Request)
      → ((w : Worker)
          → lookup k ws ≡ some w
          → is_serving w.state ≡ true
          → is_serving w'.state ≡ true)
      → Owed ws requests
      → Owed (insert k w' ws) requests
  Owed-insert requests goes_on owed id r j h o =
      let (w, e, f) = owed id r j h o in
      elim (Bool-cases (k == j)) [
        | inl same ↦ (
          w',
          ground (arith, lookup-insert k j w' ws, key_beq_iff k j),
          goes_on w (ground (arith, key_beq_iff k j)) f,
        )
        | inr other ↦ (w, ground (arith, lookup-insert k j w' ws, key_beq_iff k j), f)
      ]

  -- A new route, over workers that have none for its scanner.
  module _ (active : Table String WorkerKey) (up : w'.state ≡ WorkerState.active) where
    pub Routed-route :
        ((id : String) (j : WorkerKey)
          → lookup id active ≡ some j
          → k.scanner_id ≢ id
          → (j.scanner_id ≡ id)
            × (w : Worker) × (lookup j ws ≡ some w)
            × (w.state ≡ WorkerState.active))
        → Routed (insert k w' ws) (insert k.scanner_id k active)
    Routed-route rest id j h = elim (Bool-cases (k.scanner_id == id)) [
      | inl here ↦ (
        ground (arith, lookup-insert k.scanner_id id k active, eq_iff k.scanner_id id),
        w',
        subst (λ x. lookup x (insert k w' ws) ≡ some w')
            (ground (arith, lookup-insert k.scanner_id id k active)) found_self,
        up,
      )
      | inr there ↦
          (let (p, w, e, f) =
              rest id j (ground (arith, lookup-insert k.scanner_id id k active))
                (ground (arith, eq_iff k.scanner_id id)) in
            (p, w, found_other j w (ground (arith, eq_iff k.scanner_id id)) e, f))
    ]

    pub Sole-route :
        ((j : WorkerKey) (w : Worker)
          → lookup j ws ≡ some w
          → w.state ≡ WorkerState.active
          → (k.scanner_id ≢ j.scanner_id) × (lookup j.scanner_id active ≡ some j))
        → Sole (insert k w' ws) (insert k.scanner_id k active)
    Sole-route rest j w h f = elim (found_after j w h) [
      | inl (same, _) ↦ ground (
        arith,
        lookup-insert k.scanner_id j.scanner_id k active,
        eq_iff k.scanner_id j.scanner_id,
      )
      | inr (_, e) ↦
          (let (n, r) = rest j w e f in
            ground (
              arith,
              lookup-insert k.scanner_id j.scanner_id k active,
              eq_iff k.scanner_id j.scanner_id,
            ))
    ]
