-- ===== src/Coordinator/Invariant.antt =====
-- What holds of the actor of pkg/coordinator/coordinator.go between two commands.
use mini_av.Prelude.{String, ◌≡◌, ◌≢◌, subst, inl, inr, none, some, true, false, arith}
use mini_av.Prelude.Equality.{string_eq, nat_eq}
use text.Mathlib.TextEquality.{eq_iff}
use mini_av.Prelude.Table.{lookup, insert, find_entry, find_entry-none}
use mini_av.Coordinator.State.{WorkerState, is_candidate, WorkerKey, key_eq, Worker, State}
use mini_av.Coordinator.Handlers.{put_worker, is_rival, mark_pending_unavailable, drop_route}
use mini_av.Coordinator.Tables.{
  Keyed, Routed, Sole, OneCandidate, Owed, is_serving, found_after, found_other, Keyed-insert,
  Routed-insert, Sole-insert, OneCandidate-insert, OneCandidate-first, Owed-insert, Routed-route,
  Sole-route,
}
use mini_av.Coordinator.Requests.{Owed-mark, kept_route, dropped_route, other_route}

pub record Inv (s : State) : Type 0 where
  pub keyed : Keyed s.workers
  pub routed : Routed s.workers s.active
  pub sole : Sole s.workers s.active
  pub one_candidate : OneCandidate s.workers
  pub owed : Owed s.workers s.requests

-- A write of one worker that neither makes nor ends an active worker, makes no candidate, and ends
-- no worker that owes a result.
pub write-Inv :
    (s : State) (k : WorkerKey) (w' : Worker)
    → w'.key ≡ k
    → ((w : Worker) → lookup k s.workers ≡ some w → w.state ≢ WorkerState.active)
    → w'.state ≢ WorkerState.active
    → (is_candidate w'.state ≡ true
        → (v : Worker) × (lookup k s.workers ≡ some v) × (is_candidate v.state ≡ true))
    → Owed (insert k w' s.workers) s.requests
    → Inv s
    → Inv (put_worker s k w')
write-Inv s k w' e quiet stays_quiet was o v = record {
  keyed = Keyed-insert k w' s.workers e v.keyed;
  routed = Routed-insert k w' s.workers s.active quiet v.routed;
  sole = Sole-insert k w' s.workers s.active stays_quiet v.sole;
  one_candidate = OneCandidate-insert k w' s.workers was v.one_candidate;
  owed = o;
}

-- The worker under a key is the one that was found there.
module _ (s : State) (k : WorkerKey) (w : Worker) (e : lookup k s.workers ≡ some w) where
  pub was_other :
      w.state ≢ WorkerState.active
      → (v : Worker) → lookup k s.workers ≡ some v
      → v.state ≢ WorkerState.active
  was_other n v f =
      let same : w ≡ v = ground arith in subst (λ (x : Worker). x.state ≢ WorkerState.active) same n

  pub not_serving :
      is_serving w.state ≡ false
      → (w' : Worker) → (v : Worker) → lookup k s.workers ≡ some v
      → is_serving v.state ≡ true
      → is_serving w'.state ≡ true
  not_serving n w' v f g = absurd (ground arith)

pub register-Inv :
    (s : State) (k : WorkerKey) (w' : Worker)
    → lookup k s.workers ≡ none
    → find_entry (is_rival k.scanner_id) s.workers ≡ none
    → w'.key ≡ k
    → w'.state ≡ WorkerState.starting
    → Inv s
    → Inv (put_worker s k w')
register-Inv s k w' fresh alone e st v = record {
  keyed = Keyed-insert k w' s.workers e v.keyed;
  routed = Routed-insert k w' s.workers s.active (λ w f. absurd (ground arith)) v.routed;
  sole = Sole-insert k w' s.workers s.active (ground arith) v.sole;
  one_candidate =
      OneCandidate-first k w' s.workers
        (λ j w f c same. absurd (
          ground (
            arith,
            find_entry-none (is_rival k.scanner_id) s.workers j w alone f,
            v.keyed j w f,
            eq_iff w.key.scanner_id k.scanner_id,
          )))
        v.one_candidate;
  owed = Owed-insert k w' s.workers s.requests (λ w f. absurd (ground arith)) v.owed;
}

pub fail-Inv :
    (s : State) (k : WorkerKey) (w w' : Worker)
    → lookup k s.workers ≡ some w
    → w.state ≢ WorkerState.active
    → w'.key ≡ w.key
    → w'.state ≡ WorkerState.failed
    → Inv s
    → Inv (record s {
      workers = insert k w' s.workers;
      requests = mark_pending_unavailable k s.requests;
    })
fail-Inv s k w w' e n same st v = record {
  keyed = Keyed-insert k w' s.workers (ground (arith, v.keyed k w e)) v.keyed;
  routed = Routed-insert k w' s.workers s.active (was_other s k w e n) v.routed;
  sole = Sole-insert k w' s.workers s.active (ground arith) v.sole;
  one_candidate = OneCandidate-insert k w' s.workers (λ c. absurd (ground arith)) v.one_candidate;
  owed = Owed-mark k w' s.workers s.requests v.owed;
}

pub exit-Inv :
    (s : State) (k : WorkerKey) (w w' : Worker)
    → lookup k s.workers ≡ some w
    → w'.key ≡ w.key
    → w'.state ≡ WorkerState.failed
    → Inv s
    → Inv (record s {
      workers = insert k w' s.workers;
      active = drop_route k s.active;
      requests = mark_pending_unavailable k s.requests;
    })
exit-Inv s k w w' e same st v = record {
  keyed = Keyed-insert k w' s.workers (ground (arith, v.keyed k w e)) v.keyed;
  routed = λ id j h.
      let (p, u, f, a) = v.routed id j (kept_route k j id s.active h) in
      (p, u, found_other k w' s.workers j u (dropped_route k j id s.active p h) f, a);
  sole = λ j u f a. elim (found_after k w' s.workers j u f) [
    | inl (_, is) ↦ absurd (ground arith)
    | inr (other, g) ↦ other_route k j j.scanner_id s.active other (v.sole j u g a)
  ];
  one_candidate = OneCandidate-insert k w' s.workers (λ c. absurd (ground arith)) v.one_candidate;
  owed = Owed-mark k w' s.workers s.requests v.owed;
}

pub activate-Inv :
    (s : State) (k : WorkerKey) (w w' : Worker)
    → lookup k s.workers ≡ some w
    → w.state ≡ WorkerState.healthy
    → lookup k.scanner_id s.active ≡ none
    → w'.key ≡ w.key
    → w'.state ≡ WorkerState.active
    → Inv s
    → Inv (record s { workers = insert k w' s.workers; active = insert k.scanner_id k s.active })
activate-Inv s k w w' e healthy free same st v = record {
  keyed = Keyed-insert k w' s.workers (ground (arith, v.keyed k w e)) v.keyed;
  routed = Routed-route k w' s.workers s.active st (λ id j h _. v.routed id j h);
  sole =
      Sole-route k w' s.workers s.active st
        λ j u f a. (ground (arith, v.sole j u f a), v.sole j u f a);
  one_candidate = OneCandidate-insert k w' s.workers (λ c. absurd (ground arith)) v.one_candidate;
  owed = Owed-insert k w' s.workers s.requests (not_serving s k w e (ground arith) w') v.owed;
}

drained_routed :
    (s : State) (k old : WorkerKey) (a' : Worker)
    → lookup k.scanner_id s.active ≡ some old
    → Inv s
    → (id : String) (j : WorkerKey) → lookup id s.active ≡ some j
    → k.scanner_id ≢ id
    → (j.scanner_id ≡ id)
      × (w : Worker) × (lookup j (insert old a' s.workers) ≡ some w)
      × (w.state ≡ WorkerState.active)
drained_routed s k old a' route v id j h other =
    let (p, w, e, f) = v.routed id j h in
    let (q, _, _, _) = v.routed k.scanner_id old route in
    (p, w, found_other old a' s.workers j w (ground arith) e, f)

drained_sole :
    (s : State) (k old : WorkerKey) (a' : Worker)
    → lookup k.scanner_id s.active ≡ some old
    → a'.state ≡ WorkerState.draining
    → Inv s
    → (j : WorkerKey) (w : Worker) → lookup j (insert old a' s.workers) ≡ some w
    → w.state ≡ WorkerState.active
    → (k.scanner_id ≢ j.scanner_id) × (lookup j.scanner_id s.active ≡ some j)
drained_sole s k old a' route st v j w h f = elim (found_after old a' s.workers j w h) [
  | inl (_, is) ↦ absurd (ground arith)
  | inr (other, e) ↦ (ground (arith, v.sole j w e f), v.sole j w e f)
]

pub swap-Inv :
    (s : State) (k old : WorkerKey) (w w' a a' : Worker)
    → lookup k s.workers ≡ some w
    → w.state ≡ WorkerState.healthy
    → lookup k.scanner_id s.active ≡ some old
    → lookup old s.workers ≡ some a
    → a.state ≡ WorkerState.active
    → w'.key ≡ w.key
    → w'.state ≡ WorkerState.active
    → a'.key ≡ a.key
    → a'.state ≡ WorkerState.draining
    → Inv s
    → Inv (record s {
      workers = insert k w' (insert old a' s.workers);
      active = insert k.scanner_id k s.active;
    })
swap-Inv s k old w w' a a' e healthy route f up same st same' st' v =
    let mid = insert old a' s.workers in
    let found : lookup k mid ≡ some w = found_other old a' s.workers k w (ground arith) e in
    record {
      keyed =
          Keyed-insert k w' mid (ground (arith, v.keyed k w e))
            (Keyed-insert old a' s.workers (ground (arith, v.keyed old a f)) v.keyed);
      routed = Routed-route k w' mid s.active st (drained_routed s k old a' route v);
      sole = Sole-route k w' mid s.active st (drained_sole s k old a' route st' v);
      one_candidate =
          OneCandidate-insert k w' mid (λ c. absurd (ground arith))
            (OneCandidate-insert old a' s.workers (λ c. absurd (ground arith)) v.one_candidate);
      owed =
          Owed-insert k w' mid s.requests (λ u g. ground arith)
            (Owed-insert old a' s.workers s.requests (λ u g. ground arith) v.owed);
    }
