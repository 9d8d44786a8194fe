-- ===== src/Runtime/Clients/Settled.antt =====
-- How StartWorker of pkg/coordinator/runtime.go ends, on each of its paths.
use mini_av.Prelude.{String, ◌≡◌, refl, ap, ◌∙◌, subst, ◌∷◌, true, false, Result, ok, err, arith}
use mini_av.Prelude.Equality.{string_eq}
use mini_av.Config.{Worker}
use mini_av.Process.{Child}
use mini_av.Coordinator.State.{WorkerKey}
use mini_av.Prelude.Actions
use mini_av.Runtime.Clients.{next, or_client, Call, History, ClientError, Env}
use mini_av.Runtime.Clients.Starting.{
  Shown, or_clean, same_error, close_and_terminate, terminate, worker_key, worker_args,
  connect_worker, hello, health, activate, fail_candidate, register, introduce, start_worker,
}
use mini_av.Runtime.Clients.Owned.{
  Owned, nothing, owned, Left, Took, connect_worker-owned, register-owned, hello-owned,
  health-owned, activate-owned, fail_candidate-owned,
}

-- The client has nothing left to end, and a worker that the loop took but that did not come up is
-- one that the loop was told of.
abbrev pub IsSettled : Env → WorkerKey → Left → Type 0
IsSettled env key (ok u, h) =
    owned env key h
    ≡ record nothing { registered = true; greeted = true; healthy = true; active = true }
IsSettled env key (err e, h) =
    ((owned env key h).child ≡ false)
    × ((owned env key h).connection ≡ false)
    × ((owned env key h).registered ≡ true → (owned env key h).told_to_fail ≡ true)

module _ (env : Env) (shown : Shown) (key : WorkerKey) where
  -- A step whose error is followed by a clean-up, and the steps after it.
  settle_step :
      (wrap : ClientError → ClientError) (clean : ClientError → History → History)
      (f : Unit {0} → Actions.Action Call ClientError (Unit {0})) (r : Left)
      → ((h : History) → r ≡ (ok tt, h) → IsSettled env key (f tt h))
      → ((e : ClientError) (h : History)
          → r ≡ (err e, h)
          → IsSettled env key (err (wrap e), clean e h))
      → IsSettled env key (next f (or_clean wrap clean r))
  settle_step wrap clean f (ok tt, h) goes fails = goes h refl
  settle_step wrap clean f (err e, h) goes fails = fails e h refl

  settle_last :
      (wrap : ClientError → ClientError) (clean : ClientError → History → History) (r : Left)
      → ((h : History) → r ≡ (ok tt, h) → IsSettled env key (ok tt, h))
      → ((e : ClientError) (h : History)
          → r ≡ (err e, h)
          → IsSettled env key (err (wrap e), clean e h))
      → IsSettled env key (or_clean wrap clean r)
  settle_last wrap clean (ok tt, h) goes fails = goes h refl
  settle_last wrap clean (err e, h) goes fails = fails e h refl

  start_step :
      (f : Child → Actions.Action Call ClientError (Unit {0})) (r : Result String Child)
      (h : History)
      → ((c : Child) → r ≡ ok c → IsSettled env key (f c h))
      → ((e : String) → r ≡ err e → IsSettled env key (err (ClientError.start_failed e), h))
      → IsSettled env key (next f (or_client ClientError.start_failed r, h))
  start_step f (ok c) h goes fails = goes c refl
  start_step f (err e) h goes fails = fails e refl

  Took-ok :
      (f : Owned → Owned) (before o : Owned) (r : Left) (h : History)
      → Took env key f before r
      → before ≡ o
      → r ≡ (ok tt, h)
      → owned env key h ≡ f o
  unfolding Took
  Took-ok f before o r h t is e = subst (Took env key f before) e t ∙ ap f is

  Took-err :
      (f : Owned → Owned) (before o : Owned) (r : Left) (e : ClientError) (h : History)
      → Took env key f before r
      → before ≡ o
      → r ≡ (err e, h)
      → owned env key h ≡ o
  unfolding Took
  Took-err f before o r e h t is same = subst (Took env key f before) same t ∙ is

  told :
      (wrap : ClientError → ClientError) (e : ClientError) (h : History) (o : Owned)
      → owned env key h ≡ o
      → o.child ≡ false
      → o.connection ≡ false
      → IsSettled env key (err (wrap e), fail_candidate env shown key e h)
  told wrap e h o is child connection =
      let all : owned env key (fail_candidate env shown key e h)
          ≡ record o { told_to_fail = true } =
        fail_candidate-owned env key shown e h
        ∙ ap {A = Owned} {B = Owned} (λ x. record x { told_to_fail = true }) is in
      (
        ap (λ x. x.child) all ∙ child,
        ap (λ x. x.connection) all ∙ connection,
        λ r. ap (λ x. x.told_to_fail) all,
      )

  activated :
      (h : History)
      → owned env key h ≡ record nothing { registered = true; greeted = true; healthy = true }
      → IsSettled env key
          (or_clean same_error (fail_candidate env shown key) (activate env shown key h))
  activated h is =
      settle_last same_error (fail_candidate env shown key) (activate env shown key h)
        (λ h1 e1.
          Took-ok _ _ _ (activate env shown key h) h1 (activate-owned env key shown h) is e1)
        λ e h1 e1.
          told same_error e h1 _
            (Took-err _ _ _ (activate env shown key h) e h1 (activate-owned env key shown h) is e1)
            refl refl

  -- The client owns nothing while the loop checks the worker.
  introduce-IsSettled :
      (h : History)
      → owned env key h ≡ record nothing { registered = true }
      → IsSettled env key (introduce env shown key h)
  unfolding introduce
  introduce-IsSettled h is =
      settle_step (ClientError.handshake key) (fail_candidate env shown key) _
        (hello env shown key h)
        (λ h1 e1.
          let is1 = Took-ok _ _ _ (hello env shown key h) h1 (hello-owned env key shown h) is e1 in
          settle_step (ClientError.health_check key) (fail_candidate env shown key) _
            (health env shown key h1)
            (λ h2 e2.
              let is2 =
                Took-ok _ _ _ (health env shown key h1) h2 (health-owned env key shown h1) is1 e2 in
              activated h2 is2)
            λ e h2 e2.
              told (ClientError.health_check key) e h2 _
                (Took-err _ _ _ (health env shown key h1) e h2 (health-owned env key shown h1) is1
                  e2)
                refl refl)
        λ e h1 e1.
          told (ClientError.handshake key) e h1 _
            (Took-err _ _ _ (hello env shown key h) e h1 (hello-owned env key shown h) is e1) refl
            refl

module _ (env : Env) (shown : Shown) where
  -- StartWorker, called where the calls before leave the client nothing to end, and on any answers
  -- of the operating system, the worker and the loop, either returns nil, and the loop has
  -- registered the worker and answered its handshake, health check and activation with nil; or it
  -- returns an error, and Terminate was called on the child that it started and Close on the
  -- connection that it made, but when the loop has answered the registration with nil: then it has taken both, and
  -- StartWorker has offered it the command to fail the worker.
  pub start_worker-IsSettled :
      (w : Worker) (h : History)
      → owned env (worker_key w) h ≡ nothing
      → IsSettled env (worker_key w) (start_worker env shown w h)
  unfolding start_worker owned
  start_worker-IsSettled w h is =
      let answer = env.start h w.executable (worker_args shown w) in
      let h0 : History = Call.start w.executable (worker_args shown w) ∷ h in
      start_step env shown (worker_key w) _ answer h0
        (λ c started.
          let is0 : owned env (worker_key w) h0 ≡ record nothing { child = true } =
            simp (started, is) in
          settle_step env shown (worker_key w) same_error terminate _
            (connect_worker env shown w.transport h0)
            (λ h1 e1.
              let is1 =
                Took-ok env shown (worker_key w) _ _ _ (connect_worker env shown w.transport h0) h1
                  (connect_worker-owned env (worker_key w) shown w.transport h0) is0 e1 in
              settle_step env shown (worker_key w) same_error close_and_terminate _
                (register env shown w c h1)
                (λ h2 e2. introduce-IsSettled env shown (worker_key w) h2 (
                  Took-ok env shown (worker_key w) _ _ _ (register env shown w c h1) h2
                    (register-owned env (worker_key w) shown w c h1 refl) is1 e2))
                λ e h2 e2.
                  let is2 =
                    Took-err env shown (worker_key w) _ _ _ (register env shown w c h1) e h2
                      (register-owned env (worker_key w) shown w c h1 refl) is1 e2 in
                  (refl, refl, λ r. absurd (ground (arith, is2, r))))
            λ e h1 e1.
              let is1 =
                Took-err env shown (worker_key w) _ _ _ (connect_worker env shown w.transport h0) e
                  h1 (connect_worker-owned env (worker_key w) shown w.transport h0) is0 e1 in
              (refl, ap (λ x. x.connection) is1, λ r. absurd (ground (arith, is1, r))))
        λ e failed.
          let is0 : owned env (worker_key w) h0 ≡ nothing = simp (failed, is) in
          (ap (λ x. x.child) is0, ap (λ x. x.connection) is0, λ r. absurd (ground (arith, is0, r)))
