-- ===== src/Update/Leftover.antt =====
-- The temporary directories of stageArtifact in pkg/update/update.go.
use mini_av.Prelude.{
  ℕ, ◌≡◌, refl, ◌∙◌, ap, String, Option, none, some, List, [], ◌∷◌, ◌++◌, Bool, true, false, ◌||◌,
  if◌then◌else◌, arith, if_cases, Result, ok, err,
}
use mini_av.Prelude.Equality.{Eq, ◌==◌, ==_refl, string_eq, contains}
use mini_av.Signatures.Bytes.{Bytes, bytes_eq}
use mini_av.Update.{Release, Host}
use mini_av.Update.Calls.{
  Call, History, StatError, Info, Stream, Env, UpdateError, Action, next, ◌>>=◌, refuse_when,
  call_value, call_done, or_system,
}
use mini_av.Update.Staging.{
  Copied, hash_stream, check_context, copy_stream, copied, copy_to, found, hash_file,
  reusable_staged_artifact, copy_and_verify, scanner_root, version_root, removed, settle, publish,
  in_temporary, finish_copy, stage_new, stage, stage_artifact,
}

module _ {ℓ} {A : Type ℓ} ⦃e : Eq A⦄ where
  unfoldable pub without : A → List A → List A
  without t [] = []
  without t (x ∷ xs) = let rest = without t xs in if x == t then rest else x ∷ rest

  pub contains-without :
      (t x : A) (ts : List A)
      → contains (without t ts) x ≡ (if t == x then false else contains ts x)
  unfolding contains without
  contains-without t x [] = ground arith
  contains-without t x (y ∷ ts) =
      ground (arith, contains-without t x ts, e.decides t x, e.decides y t, e.decides x y)

module _ (env : Env) where
  abbrev pub made : Result String String → List String → List String
  made (ok t) ts = t ∷ ts
  made (err e) ts = ts

  abbrev pub moved : String → Option String → List String → List String
  moved t none ts = without t ts
  moved t (some e) ts = ts

  -- The temporary directories that were made, and neither renamed nor given to RemoveAll.
  unfoldable pub leftover : History → List String
  unfolding without
  leftover [] = []
  leftover (Call.mkdir_temp root version ∷ h) = made (env.mkdir_temp h root version) (leftover h)
  leftover (Call.rename from to ∷ h) = moved from (env.rename h from to) (leftover h)
  leftover (Call.remove_all t ∷ h) = without t (leftover h)
  leftover (call ∷ h) = leftover h

  unfoldable pub Keeps {ℓ} : {A : Type ℓ} → Action A → Type 0
  Keeps m = (h : History) → leftover (m h).1 ≡ leftover h

  next-leftover {ℓ κ} :
      {A : Type ℓ} {B : Type κ} (f : A → Action B) (r : Result UpdateError A × History)
      → ((a : A) → Keeps (f a))
      → leftover (next f r).1 ≡ leftover r.1
  unfolding Keeps
  next-leftover f (ok a, h) k = k a h
  next-leftover f (err e, h) k = refl

  pub bind-Keeps {ℓ κ} :
      {A : Type ℓ} {B : Type κ} (m : Action A) (f : A → Action B)
      → Keeps m
      → ((a : A) → Keeps (f a))
      → Keeps (m >>= f)
  unfolding Keeps
  bind-Keeps m f k l h = next-leftover f (m h) l ∙ k h

  found-Keeps : (path : String) (r : Result StatError Info) → Keeps (found env path r)
  unfolding Keeps
  found-Keeps path (ok info) h = refl
  found-Keeps path (err StatError.not_exist) h = refl
  found-Keeps path (err (StatError.failed e)) h = refl

  pub copied-Keeps : (r : Copied) → Keeps (copied env r)
  unfolding Keeps
  copied-Keeps (ok s) h = refl
  copied-Keeps (err e) h = refl

  pub refuse_when-Keeps : (b : Bool) (e : UpdateError) → Keeps (refuse_when b e)
  unfolding Keeps
  refuse_when-Keeps true e h = refl
  refuse_when-Keeps false e h = refl

  pub copy_stream-leftover :
      (path : String) (stream : Stream) (hashed : Bytes) (h : History)
      → leftover (copy_stream env path stream hashed h).1 ≡ leftover h
  unfolding copy_stream leftover
  copy_stream-leftover path (Stream.more (some e) s rest) hashed h = refl
  copy_stream-leftover path (Stream.last (some e) s error) hashed h = refl
  copy_stream-leftover path (Stream.last none [] error) hashed h = refl
  copy_stream-leftover path (Stream.last none (b ∷ s) error) hashed h = ground arith
  copy_stream-leftover path (Stream.more none [] rest) hashed h =
      copy_stream-leftover path rest (hashed ++ []) h
  copy_stream-leftover path (Stream.more none (b ∷ s) rest) hashed h =
      ground (arith, copy_stream-leftover path rest (hashed ++ b ∷ s) (Call.write path (b ∷ s) ∷ h))

  module _ (host : Host) where
    pub hash_file-Keeps : (path : String) → Keeps (hash_file env host path)
    unfolding Keeps hash_file leftover
    hash_file-Keeps path =
        bind-Keeps (call_value (λ h. env.open_file h path) (Call.open_file path)) _ (λ h. refl)
          λ stream.
            bind-Keeps (copied env (hash_stream stream [])) _ (copied-Keeps (hash_stream stream []))
              λ s h. refl

    reusable-Keeps :
        (path : String) (mode : ℕ) (expected : Bytes)
        → Keeps (reusable_staged_artifact env host path mode expected)
    unfolding Keeps reusable_staged_artifact hash_file leftover
    reusable-Keeps path mode expected h = ground arith

    finish_copy-Keeps :
        (path : String) (mode : ℕ) (expected : Bytes) (result : Copied)
        → Keeps (finish_copy env host path mode expected result)
    unfolding Keeps leftover
    finish_copy-Keeps path mode expected result h = ground arith

    copy_and_verify-Keeps :
        (source : String) (mode : ℕ) (expected : Bytes) (path : String)
        → Keeps (copy_and_verify env host source mode expected path)
    unfolding Keeps copy_and_verify leftover
    copy_and_verify-Keeps source mode expected path =
        bind-Keeps (call_value (λ h. env.open_file h source) (Call.open_file source)) _ (λ h. refl)
          λ stream.
            bind-Keeps (call_done (λ h. env.create h path mode) (Call.create path mode)) _
              (λ h. refl)
              λ u.
                bind-Keeps (copy_to env path stream) (finish_copy env host path mode expected)
                  (λ h. copy_stream-leftover path stream [] h)
                  λ result. finish_copy-Keeps path mode expected result

    without_self : (t : String) → without t (t ∷ []) ≡ []
    unfolding without
    without_self t = rw (==_refl t, without) refl

    -- The temporary directory is the only one that is left, or has got its name.
    abbrev Settled : String → Result UpdateError (String × Bool) × History → Type 0
    Settled t (ok (path, true), h) = leftover h ≡ []
    Settled t (ok (path, false), h) = leftover h ≡ t ∷ []
    Settled t (err e, h) = leftover h ≡ t ∷ []

    removed-leftover :
        (t : String) (r : Result UpdateError (String × Bool) × History)
        → Settled t r
        → leftover (removed env host t r).1 ≡ []
    unfolding leftover
    removed-leftover t (ok (path, true), h) s = s
    removed-leftover t (ok (path, false), h) s = ap (without t) s ∙ without_self t
    removed-leftover t (err e, h) s = ap (without t) s ∙ without_self t

    next-Settled {ℓ} :
        {A : Type ℓ} (t : String) (f : A → Action (String × Bool))
        (r : Result UpdateError A × History)
        → leftover r.1 ≡ t ∷ []
        → ((a : A) (h : History) → leftover h ≡ t ∷ [] → Settled t (f a h))
        → Settled t (next f r)
    next-Settled t f (ok a, h) one k = k a h one
    next-Settled t f (err e, h) one k = one

    settle-Settled :
        (t staged : String) (mode : ℕ) (expected : Bytes) (call : Call) (answer : Option String)
        (h : History)
        → (answer ≡ none → leftover h ≡ [])
        → ((e : String) → answer ≡ some e → leftover h ≡ t ∷ [])
        → Settled t (settle env host staged mode expected call answer h)
    unfolding Keeps
    settle-Settled t staged mode expected call none h moves stays = moves refl
    settle-Settled t staged mode expected call (some e) h moves stays =
        next-Settled t _ (reusable_staged_artifact env host staged mode expected h)
          (reusable-Keeps staged mode expected h ∙ stays e refl)
          λ existing k one.
            if_cases (λ (m : Action (String × Bool)). Settled t (m k)) existing _ _ (λ _. one)
              (λ _. one)

    publish-Settled :
        (fill : String → Action (Unit {0})) (root name : String) (mode : ℕ) (expected : Bytes)
        (t : String) (h : History)
        → ((path : String) → Keeps (fill path))
        → leftover h ≡ t ∷ []
        → Settled t (publish env host fill root name mode expected t h)
    unfolding publish Keeps leftover
    publish-Settled fill root name mode expected t h keeps one =
        next-Settled t _ (fill (host.join t name) h) (keeps (host.join t name) h ∙ one) λ a k left.
          next-Settled t _ (check_context env k) left λ b l last.
            settle-Settled t (host.join root name) mode expected (Call.rename t root)
              (env.rename l t root) (Call.rename t root ∷ l)
              (λ e. rw e (ap (without t) last ∙ without_self t)) (λ x e. rw e last)

    pub clean_next {ℓ κ} :
        {A : Type ℓ} {B : Type κ} (f : A → Action B) (r : Result UpdateError A × History)
        → leftover r.1 ≡ []
        → ((a : A) (h : History) → leftover h ≡ [] → leftover (f a h).1 ≡ [])
        → leftover (next f r).1 ≡ []
    clean_next f (ok a, h) e k = k a h e
    clean_next f (err x, h) e k = e

    in_temporary-leftover :
        (fill : String → Action (Unit {0})) (root name : String) (mode : ℕ) (expected : Bytes)
        (answer : Result String String) (call : Call) (h : History)
        → ((path : String) → Keeps (fill path))
        → leftover h ≡ made answer []
        → leftover
            (next (in_temporary env host fill root name mode expected) (or_system call answer, h)).1
          ≡ []
    in_temporary-leftover fill root name mode expected (err e) call h keeps one = one
    in_temporary-leftover fill root name mode expected (ok t) call h keeps one =
        removed-leftover t (publish env host fill root name mode expected t h)
          (publish-Settled fill root name mode expected t h keeps one)

    stage_new-leftover :
        (fill : String → Action (Unit {0})) (base : String) (m : Release) (name : String) (mode : ℕ)
        (expected : Bytes) (h : History)
        → ((path : String) → Keeps (fill path))
        → leftover h ≡ []
        → leftover (stage_new env host fill base m name mode expected h).1 ≡ []
    unfolding leftover
    stage_new-leftover fill base m name mode expected h keeps clean =
        let root = scanner_root env host base m in
        clean_next _ (call_done (λ k. env.mkdir_all k root) (Call.mkdir_all root) h) clean λ u k e.
          in_temporary-leftover fill (version_root env host base m) name mode expected
            (env.mkdir_temp k root m.worker_version) (Call.mkdir_temp root m.worker_version)
            (Call.mkdir_temp root m.worker_version ∷ k) keeps
            (ap (made (env.mkdir_temp k root m.worker_version)) e)

    pub stage-leftover :
        (fill : String → Action (Unit {0})) (base : String) (m : Release) (name : String) (mode : ℕ)
        (expected : Bytes) (h : History)
        → ((path : String) → Keeps (fill path))
        → leftover h ≡ []
        → leftover (stage env host fill base m name mode expected h).1 ≡ []
    unfolding stage leftover Keeps
    stage-leftover fill base m name mode expected h keeps clean =
        let path = host.join (version_root env host base m) name in
        clean_next _ (reusable_staged_artifact env host path mode expected h)
          (reusable-Keeps path mode expected h ∙ clean)
          λ existing k e.
            if_cases (λ (a : Action String). leftover (a k).1 ≡ []) existing _ _ (λ _. e)
              (λ _. stage_new-leftover fill base m name mode expected k keeps e)

    -- Whatever the file system answers, and whatever stageArtifact returns, the temporary directory
    -- that it makes has become the release's, or is given to RemoveAll.
    pub stage_artifact-leftover :
        (base : String) (m : Release) (source_path : String) (mode : ℕ) (expected : Bytes)
        (h : History)
        → leftover h ≡ []
        → leftover (stage_artifact env host base m source_path mode expected h).1 ≡ []
    unfolding stage_artifact Keeps
    stage_artifact-leftover base m source_path mode expected h clean =
        clean_next _
          (refuse_when (host.base source_path == "." || host.base source_path == "/")
            (UpdateError.no_file_name source_path) h)
          (refuse_when-Keeps _ _ h ∙ clean)
          λ u k e.
            stage-leftover (copy_and_verify env host source_path mode expected) base m
              (host.base source_path) mode expected k
              (copy_and_verify-Keeps source_path mode expected) e
