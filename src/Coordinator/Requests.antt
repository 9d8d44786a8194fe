-- ===== src/Coordinator/Requests.antt =====
-- The results that are owed in the requests of pkg/coordinator/coordinator.go: what
-- markPendingUnavailable, trackRequest and recordResult do to them.
use mini_av.Prelude.{
  ℕ, String, ◌≡◌, ◌≢◌, sym, subst, inl, inr, none, some, List, [], ◌∷◌, true, false, arith,
  Bool-cases, Option-cases, if◌then◌else◌, ok, nat_beq,
}
use mini_av.Prelude.Equality.{◌==◌, string_eq, nat_eq}
use text.Mathlib.TextEquality.{eq_iff}
use mini_av.Prelude.Table.{
  Table, lookup, insert, lookup-insert, lookup-delete, lookup-map_values, find_entry,
  find_entry-none,
}
use mini_av.Protocol.{Verdict, valid_verdict}
use mini_av.Coordinator.State.{WorkerState, WorkerKey, key_eq, key_beq_iff, Worker, Request}
use mini_av.Coordinator.Handlers.{
  initial_verdict, owes, settle, mark_pending_unavailable, assign, drop_route,
}
use mini_av.Coordinator.Tables.{Workers, Owed, found_other}

pub owes-settle :
    (k j : WorkerKey) (r : Request) → owes j (settle k r) ≡ (if k == j then false else owes j r)
unfolding settle owes
owes-settle k j r = ground (arith, key_beq_iff k j, lookup-insert k j Verdict.unavailable r.results)

-- A request of the marked table is one of the table, settled.
pub marked :
    (k : WorkerKey) (requests : Table ℕ Request) (id : ℕ) (r : Request)
    → lookup id (mark_pending_unavailable k requests) ≡ some r
    → (old : Request) × (lookup id requests ≡ some old) × (r ≡ settle k old)
unfolding mark_pending_unavailable
marked k requests id r h = elim (Option-cases (lookup id requests)) [
  | inl e ↦ absurd (ground (arith, lookup-map_values (λ i x. settle k x) id requests))
  | inr (old, e) ↦
      (old, e, ground (arith, lookup-map_values (λ (i : ℕ) (x : Request). settle k x) id requests))
]

-- A worker that fails owes nothing any more.
pub Owed-mark :
    (k : WorkerKey) (w' : Worker) (ws : Workers) (requests : Table ℕ Request)
    → Owed ws requests
    → Owed (insert k w' ws) (mark_pending_unavailable k requests)
Owed-mark k w' ws requests owed id r j h o =
    let (old, e, f) = marked k requests id r h in
    let still : owes j (settle k old) ≡ true = ground arith in
    let (w, g, s) = owed id old j e (ground (arith, owes-settle k j old)) in
    (w, found_other k w' ws j w (ground (arith, owes-settle k j old, key_beq_iff k j)) g, s)

-- What the loop of trackRequest leaves owed, it leaves to active workers.
OwedByActive : Workers → Table WorkerKey Verdict → Type 0
OwedByActive ws results =
    (j : WorkerKey)
    → lookup j results ≡ some Verdict.unset
    → (w : Worker) × (lookup j ws ≡ some w) × (w.state ≡ WorkerState.active)

OwedByActive-insert :
    (ws : Workers) (k : WorkerKey) (w : Worker) (v : Verdict) (results : Table WorkerKey Verdict)
    → lookup k ws ≡ some w
    → ((v ≡ Verdict.unset) → w.state ≡ WorkerState.active)
    → OwedByActive ws results
    → OwedByActive ws (insert k v results)
unfolding OwedByActive
OwedByActive-insert ws k w v results e a owed j h = elim (Bool-cases (k == j)) [
  | inl same ↦ (w, ground (arith, key_beq_iff k j), a (ground (arith, lookup-insert k j v results)))
  | inr other ↦ owed j (ground (arith, lookup-insert k j v results))
]

-- A key that the loop passes is of a worker that it gives a verdict.
assign_inv :
    (ws : Workers) (id : ℕ) (acc : Table WorkerKey Verdict) (k : WorkerKey) (keys : List WorkerKey)
    (results : Table WorkerKey Verdict)
    → assign ws id acc (k ∷ keys) ≡ ok results
    → (w : Worker) × (v : Verdict) × (lookup k ws ≡ some w)
      × (initial_verdict w.state ≡ some v)
      × (assign ws id (insert k v acc) keys ≡ ok results)
unfolding assign
assign_inv ws id acc k keys results h = elim (Option-cases (lookup k ws)) [
  | inl missing ↦ absurd (ground arith)
  | inr (w, e) ↦ elim (Option-cases (initial_verdict w.state)) [
    | inl unusable ↦ absurd (ground arith)
    | inr (v, f) ↦ (w, v, e, f, ground arith)
  ]
]

assign_owes :
    (ws : Workers) (id : ℕ) (acc : Table WorkerKey Verdict) (keys : List WorkerKey)
    (results : Table WorkerKey Verdict)
    → assign ws id acc keys ≡ ok results
    → OwedByActive ws acc
    → OwedByActive ws results
unfolding assign
assign_owes ws id acc [] results h owed = subst (OwedByActive ws) (ground arith) owed
assign_owes ws id acc (k ∷ keys) results h owed =
    let (w, v, e, f, g) = assign_inv ws id acc k keys results h in
    assign_owes ws id (insert k v acc) keys results g
      (OwedByActive-insert ws k w v acc e (λ u. ground arith) owed)

owes-lookup :
    (j : WorkerKey) (r : Request) → owes j r ≡ true → lookup j r.results ≡ some Verdict.unset
unfolding owes
owes-lookup j r o = ground arith

pub Owed-track :
    (ws : Workers) (requests : Table ℕ Request) (id : ℕ) (keys : List WorkerKey)
    (results : Table WorkerKey Verdict)
    → assign ws id [] keys ≡ ok results
    → Owed ws requests
    → Owed ws (insert id (record { id = id; results = results }) requests)
unfolding OwedByActive lookup
Owed-track ws requests id keys results a owed i r j h o = elim (Bool-cases (nat_beq id i)) [
  | inl same ↦
      (let here : owes j (record { id = id; results = results }) ≡ true =
          ground (arith, lookup-insert id i (record { id = id; results = results }) requests) in
        let (w, e, f) =
          assign_owes ws id [] keys results a (λ j h. absurd (ground arith)) j
            (owes-lookup j _ here) in
        (w, e, ground arith))
  | inr other ↦
      owed i r j
        (ground (arith, lookup-insert id i (record { id = id; results = results }) requests)) o
]

owes-answer :
    (k j : WorkerKey) (v : Verdict) (r : Request)
    → valid_verdict v ≡ true
    → owes j (record r { results = insert k v r.results }) ≡ true
    → owes j r ≡ true
unfolding owes valid_verdict
owes-answer k j v r valid o = ground (arith, lookup-insert k j v r.results)

pub Owed-answer :
    (ws : Workers) (requests : Table ℕ Request) (id : ℕ) (k : WorkerKey) (v : Verdict) (r : Request)
    → lookup id requests ≡ some r
    → valid_verdict v ≡ true
    → Owed ws requests
    → Owed ws (insert id (record r { results = insert k v r.results }) requests)
Owed-answer ws requests id k v r e valid owed i x j h o =
    let answered : Request = record r { results = insert k v r.results } in
    elim (Bool-cases (nat_beq id i)) [
      | inl same ↦
          (let is : answered ≡ x = ground (arith, lookup-insert id i answered requests) in
            owed id r j e (owes-answer k j v r valid (subst (λ y. owes j y ≡ true) (sym is) o)))
      | inr other ↦ owed i x j (ground (arith, lookup-insert id i answered requests)) o
    ]

-- A route that is left after an exit is not of the worker that ended.
pub kept_route :
    (k j : WorkerKey) (id : String) (active : Table String WorkerKey)
    → lookup id (drop_route k active) ≡ some j
    → lookup id active ≡ some j
unfolding drop_route
kept_route k j id active h = ground (arith, lookup-delete k.scanner_id id active)

pub dropped_route :
    (k j : WorkerKey) (id : String) (active : Table String WorkerKey)
    → j.scanner_id ≡ id
    → lookup id (drop_route k active) ≡ some j
    → k ≢ j
unfolding drop_route
dropped_route k j id active e h =
    ground (arith, lookup-delete k.scanner_id id active, key_beq_iff j k, eq_iff k.scanner_id id)

-- A route to another worker stays.
pub other_route :
    (k j : WorkerKey) (id : String) (active : Table String WorkerKey)
    → k ≢ j
    → lookup id active ≡ some j
    → lookup id (drop_route k active) ≡ some j
unfolding drop_route
other_route k j id active n h =
    ground (arith, lookup-delete k.scanner_id id active, key_beq_iff j k, eq_iff k.scanner_id id)

-- A worker to which no request looks may end.
pub Owed-settled :
    (k : WorkerKey) (w' : Worker) (ws : Workers) (requests : Table ℕ Request)
    → find_entry (λ id r. owes k r) requests ≡ none
    → Owed ws requests
    → Owed (insert k w' ws) requests
Owed-settled k w' ws requests settled owed id r j h o =
    let (w, e, f) = owed id r j h o in
    let apart : k ≢ j = λ same. absurd (
      ground
        (arith, find_entry-none (λ (i : ℕ) (x : Request). owes k x) requests id r settled h)) in
    (w, found_other k w' ws j w apart e, f)
