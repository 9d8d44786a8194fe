-- ===== src/Coordinator/Results.antt =====
-- The results of the requests in pkg/coordinator/coordinator.go: a verdict is written once.
use mini_av.Prelude.{
  ℕ, ◌≡◌, refl, sym, ap, ◌∙◌, subst, ◌⊎◌, inl, inr, Option, none, some, List, [], ◌∷◌, true, arith,
  Bool-cases, nat_beq, nat_beq_iff,
}
use mini_av.Prelude.Equality.{nat_eq}
use mini_av.Prelude.Table.{Table, lookup, insert, lookup-insert, lookup-map_values}
use mini_av.Protocol.{Verdict}
use mini_av.Coordinator.State.{WorkerKey, key_eq, key_beq, key_beq_iff, Request, State, Command}
use mini_av.Coordinator.Handlers.{owes, settle, mark_pending_unavailable, step, run}
use mini_av.Coordinator.Moves.{
  Move, register, become_healthy, fail, activate, swap, retire, track, answer, exit_retired,
  exit_fails,
}
use mini_av.Coordinator.Steps.{step-Goes}

-- What is written of a worker: whether the request waits for it, and its verdict once it is set.
abbrev pub Written : Option Verdict → Option Verdict → Type 0
Written none after = after ≡ none
Written (some v) after = (v' : Verdict) × (after ≡ some v') × ((v ≡ Verdict.unset) ⊎ (v' ≡ v))

-- A request that is tracked stays tracked, with the same workers, and a verdict that is set stays
-- what it is.
abbrev pub Kept : Option Request → Option Request → Type 0
Kept none after = Unit
Kept (some r) after =
    (r' : Request) × (after ≡ some r')
    × ((k : WorkerKey) → Written (lookup k r.results) (lookup k r'.results))

abbrev pub KeepsVerdicts : Table ℕ Request → Table ℕ Request → Type 0
KeepsVerdicts requests requests' = (id : ℕ) → Kept (lookup id requests) (lookup id requests')

Written-refl : (o : Option Verdict) → Written o o
Written-refl none = refl
Written-refl (some v) = (v, refl, inr refl)

Written-trans : (o p q : Option Verdict) → Written o p → Written p q → Written o q
Written-trans none p q a b = subst (λ x. Written x q) a b
Written-trans (some v) p q (v', e, kept) b =
    let (w, f, again) = subst (λ x. Written x q) e b in
    (
      w,
      f,
      elim kept [
        | inl pending ↦ inl pending
        | inr same ↦ elim again [
          | inl unset ↦ inl (sym same ∙ unset)
          | inr still ↦ inr (still ∙ same)
        ]
      ],
    )

Kept-refl : (o : Option Request) → Kept o o
Kept-refl none = tt
Kept-refl (some r) = (r, refl, λ k. Written-refl (lookup k r.results))

Kept-trans : (o p q : Option Request) → Kept o p → Kept p q → Kept o q
Kept-trans none p q a b = tt
Kept-trans (some r) p q (r', e, kept) b =
    let (t, f, again) = subst (λ x. Kept x q) e b in
    (
      t,
      f,
      λ k.
          Written-trans (lookup k r.results) (lookup k r'.results) (lookup k t.results) (kept k)
            (again k),
    )

KeepsVerdicts-refl : (requests : Table ℕ Request) → KeepsVerdicts requests requests
KeepsVerdicts-refl requests id = Kept-refl (lookup id requests)

-- A write at a worker that a request waits for.
insert-Written :
    (j k : WorkerKey) (u : Verdict) (results : Table WorkerKey Verdict)
    → lookup j results ≡ some Verdict.unset
    → Written (lookup k results) (lookup k (insert j u results))
insert-Written j k u results waits = elim (Bool-cases (key_beq j k)) [
  | inl same ↦
      (let is : j ≡ k = ground (arith, key_beq_iff j k) in
        subst (λ o. Written o (lookup k (insert j u results)))
          (sym (ap (λ i. lookup i results) (sym is) ∙ waits))
          (u, ground (arith, lookup-insert j k u results), inl refl))
  | inr other ↦
      subst (Written (lookup k results)) (sym (ground (arith, lookup-insert j k u results)))
        (Written-refl (lookup k results))
]

owes-unset :
    (j : WorkerKey) (r : Request) → owes j r ≡ true → lookup j r.results ≡ some Verdict.unset
unfolding owes
owes-unset j r o = ground (arith, o)

settle-Written :
    (j k : WorkerKey) (r : Request) → Written (lookup k r.results) (lookup k (settle j r).results)
unfolding settle
settle-Written j k r = elim (Bool-cases (owes j r)) [
  | inl o ↦ rw o (insert-Written j k Verdict.unavailable r.results (owes-unset j r o))
  | inr o ↦ rw o (Written-refl (lookup k r.results))
]

settled-Kept :
    (j : WorkerKey) (o : Option Request)
    → Kept o (elim o [ none ↦ none | some r ↦ some (settle j r) ])
settled-Kept j none = tt
settled-Kept j (some r) = (settle j r, refl, λ k. settle-Written j k r)

mark_keeps :
    (j : WorkerKey) (requests : Table ℕ Request)
    → KeepsVerdicts requests (mark_pending_unavailable j requests)
unfolding mark_pending_unavailable
mark_keeps j requests id =
    subst (Kept (lookup id requests))
      (sym (lookup-map_values (λ (i : ℕ) (x : Request). settle j x) id requests))
      (settled-Kept j (lookup id requests))

-- A write of a request at its ID, where what was there is kept.
insert_keeps :
    (id : ℕ) (r : Request) (requests : Table ℕ Request)
    → Kept (lookup id requests) (some r)
    → KeepsVerdicts requests (insert id r requests)
insert_keeps id r requests kept i = elim (Bool-cases (nat_beq id i)) [
  | inl same ↦
      (let is : id ≡ i = ground (arith, nat_beq_iff id i) in
        subst (Kept (lookup i requests)) (sym (ground (arith, lookup-insert id i r requests)))
          (subst (λ n. Kept (lookup n requests) (some r)) is kept))
  | inr other ↦
      subst (Kept (lookup i requests)) (sym (ground (arith, lookup-insert id i r requests)))
        (Kept-refl (lookup i requests))
]

track_keeps :
    (id : ℕ) (r : Request) (requests : Table ℕ Request)
    → lookup id requests ≡ none
    → KeepsVerdicts requests (insert id r requests)
track_keeps id r requests new =
    insert_keeps id r requests (subst (λ o. Kept o (some r)) (sym new) tt)

answer_keeps :
    (id : ℕ) (j : WorkerKey) (u : Verdict) (r : Request) (requests : Table ℕ Request)
    → lookup id requests ≡ some r
    → owes j r ≡ true
    → KeepsVerdicts requests (insert id (record r { results = insert j u r.results }) requests)
answer_keeps id j u r requests e o =
    let answered : Request = record r { results = insert j u r.results } in
    insert_keeps id answered requests (
      subst (λ x. Kept x (some answered)) (sym e)
        (answered, refl, λ k. insert-Written j k u r.results (owes-unset j r o)))

Move-KeepsVerdicts : {s t : State} → Move s t → KeepsVerdicts s.requests t.requests
Move-KeepsVerdicts {s} (register k c fresh alone) = KeepsVerdicts-refl s.requests
Move-KeepsVerdicts {s} (become_healthy k w e st) = KeepsVerdicts-refl s.requests
Move-KeepsVerdicts {s} (fail k w c reason e cand) = mark_keeps k s.requests
Move-KeepsVerdicts {s} (activate k w e st free) = KeepsVerdicts-refl s.requests
Move-KeepsVerdicts {s} (swap k old w a e st route f up) = KeepsVerdicts-refl s.requests
Move-KeepsVerdicts {s} (retire k w e st settled) = KeepsVerdicts-refl s.requests
Move-KeepsVerdicts {s} (track id keys results n f g a) = track_keeps id _ s.requests f
Move-KeepsVerdicts {s} (answer id k v r e o valid) = answer_keeps id k v r s.requests e o
Move-KeepsVerdicts {s} (exit_retired k w exit e st) = KeepsVerdicts-refl s.requests
Move-KeepsVerdicts {s} (exit_fails k w exit e p st) = mark_keeps k s.requests

step-KeepsVerdicts : (s : State) (c : Command) → KeepsVerdicts s.requests (step s c).1.requests
step-KeepsVerdicts s c = elim (step-Goes s c) [
  | inl same ↦
      subst (λ t. KeepsVerdicts s.requests t.requests) (sym same) (KeepsVerdicts-refl s.requests)
  | inr move ↦ Move-KeepsVerdicts move
]

-- Over any commands a request that is tracked stays tracked, with the same workers, and a verdict
-- that it has for a worker is never written again: not by a late result, a crash, or a second request
-- of that ID.
pub run-KeepsVerdicts :
    (s : State) (cs : List Command) → KeepsVerdicts s.requests (run s cs).requests
unfolding run
run-KeepsVerdicts s [] id = Kept-refl (lookup id s.requests)
run-KeepsVerdicts s (c ∷ cs) id =
    Kept-trans (lookup id s.requests) (lookup id (step s c).1.requests) _
      (step-KeepsVerdicts s c id) (run-KeepsVerdicts (step s c).1 cs id)
