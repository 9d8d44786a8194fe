-- ===== src/Update/Published.antt =====
-- What stageArtifact of pkg/update/update.go has checked when it returns a path.
use mini_av.Prelude.{
  ℕ, ◌≡◌, ◌⊎◌, inl, inr, refl, sym, subst, ◌∙◌, ap, String, Option, none, some, ◌∷◌, Bool, true,
  false, ◌||◌, arith, Result, ok, err, Bool-cases,
}
use mini_av.Prelude.Equality.{◌==◌, string_eq}
use mini_av.Signatures.Bytes.{Bytes, bytes_eq}
use mini_av.Update.{Release, Host}
use mini_av.Update.Calls.{
  Call, History, Env, UpdateError, Action, refuse_when, call_value, call_done,
}
use mini_av.Update.Digest.{equal_digest}
use mini_av.Update.Staging.{
  check_context, reusable_staged_artifact, copy_and_verify, stage_new, scanner_root, version_root,
  removed, settle, publish, stage, stage_artifact,
}
use mini_av.Prelude.Actions.{next-ok}
use mini_av.Update.Written.{written, Matches, copy_and_verify-Matches}
use mini_av.Update.Reused.{IsReused, reusable-IsReused}

module _ (env : Env) (host : Host) where
  -- A release that is new: the last call has given the temporary directory its name, and the bytes
  -- that the calls before wrote to the artifact in it have the digest.
  abbrev pub IsPublished : String → String → Bytes → History → Type 0
  IsPublished root name expected after =
      (t : String) × (h : History) × (after ≡ Call.rename t root ∷ h)
      × (env.rename h t root ≡ none)
      × Matches env host expected (host.join t name) h

  abbrev pub IsStaged : String → String → ℕ → Bytes → String → History → Type 0
  IsStaged root name mode expected path after =
      (path ≡ host.join root name)
      × (IsPublished root name expected after
          ⊎ IsReused env host (host.join root name) mode expected)

  abbrev pub Fills : Bytes → (String → Action (Unit {0})) → Type 0
  Fills expected fill =
      (path : String) (h after : History) (u : Unit {0})
      → fill path h ≡ (ok u, after)
      → Matches env host expected path after

  settle-IsStaged :
      (t root name : String) (mode : ℕ) (expected : Bytes) (h : History) (answer : Option String)
      {path : String} {kept : Bool} {after : History}
      → env.rename h t root ≡ answer
      → Matches env host expected (host.join t name) h
      → settle env host
          (host.join root name)
          mode
          expected
          (Call.rename t root)
          answer
          (Call.rename t root ∷ h)
        ≡ (ok (path, kept), after)
      → (path ≡ host.join root name)
        × (((kept ≡ true) × IsPublished root name expected after)
            ⊎ IsReused env host (host.join root name) mode expected)
  settle-IsStaged t root name mode expected h none {path} {kept} {after} r m e =
      let is : host.join root name ≡ path = ground arith in
      let k : kept ≡ true = ground arith in
      let a : Call.rename t root ∷ h ≡ after = ground arith in
      (sym is, inl (k, (t, h, sym a, r, m)))
  settle-IsStaged t root name mode expected h (some x) {path} {kept} {after} r m e =
      let (existing, k, f, e1) =
        next-ok _
          (reusable_staged_artifact env host (host.join root name) mode expected
            (Call.rename t root ∷ h))
          e in
      elim (Bool-cases existing) [
        | inl again ↦
            (let is : host.join root name ≡ path = ground arith in
              (
                sym is,
                inr (
                    reusable-IsReused env host (host.join root name) mode expected
                      (Call.rename t root ∷ h) k (f ∙ ap (λ b. (ok b, k)) again)),
              ))
        | inr other ↦ absurd (ground arith)
      ]

  publish-IsStaged :
      (fill : String → Action (Unit {0})) (root name : String) (mode : ℕ) (expected : Bytes)
      (t : String) (h : History) {path : String} {kept : Bool} {after : History}
      → Fills expected fill
      → publish env host fill root name mode expected t h ≡ (ok (path, kept), after)
      → (path ≡ host.join root name)
        × (((kept ≡ true) × IsPublished root name expected after)
            ⊎ IsReused env host (host.join root name) mode expected)
  unfolding publish written
  publish-IsStaged fill root name mode expected t h fills e =
      let (u, h1, a, e1) = next-ok _ (fill (host.join t name) h) e in
      let (_, h2, b, e2) = next-ok _ (check_context env h1) e1 in
      let same : Call.check_context ∷ h1 ≡ h2 =
        ap (λ (r : Result UpdateError (Unit {0}) × History). r.1) b in
      settle-IsStaged t root name mode expected h2 (env.rename h2 t root) refl
        (ap (λ k. equal_digest (host.sha256 (written (host.join t name) k)) expected) (sym same)
          ∙ fills (host.join t name) h h1 u a)
        e2

  in_temporary-IsStaged :
      (root name : String) (mode : ℕ) (expected : Bytes) (t : String)
      (r : Result UpdateError (String × Bool) × History) {path : String} {after : History}
      → ((p : String) (kept : Bool) (k : History)
          → r ≡ (ok (p, kept), k)
          → (p ≡ host.join root name)
            × (((kept ≡ true) × IsPublished root name expected k)
                ⊎ IsReused env host (host.join root name) mode expected))
      → removed env host t r ≡ (ok path, after)
      → IsStaged root name mode expected path after
  in_temporary-IsStaged root name mode expected t (err x, h) s e = absurd (ground arith)
  in_temporary-IsStaged root name mode expected t (ok (p, true), h) {path} {after} s e =
      let (is, how) = s p true h refl in
      let same : p ≡ path = ground arith in
      let end : h ≡ after = ground arith in
      (
        sym same ∙ is,
        elim how [
          | inl (k, new) ↦ inl (subst (IsPublished root name expected) end new)
          | inr old ↦ inr old
        ],
      )
  in_temporary-IsStaged root name mode expected t (ok (p, false), h) {path} {after} s e =
      let (is, how) = s p false h refl in
      let same : p ≡ path = ground arith in
      (sym same ∙ is, elim how [ inl (k, new) ↦ absurd (ground arith) | inr old ↦ inr old ])

  pub stage-IsStaged :
      (fill : String → Action (Unit {0})) (base : String) (m : Release) (name : String) (mode : ℕ)
      (expected : Bytes) (h : History) {path : String} {after : History}
      → Fills expected fill
      → stage env host fill base m name mode expected h ≡ (ok path, after)
      → IsStaged (version_root env host base m) name mode expected path after
  unfolding stage
  stage-IsStaged fill base m name mode expected h {path} {after} fills e =
      let parent = scanner_root env host base m in
      let root = version_root env host base m in
      let (existing, k, f, e1) =
        next-ok _ (reusable_staged_artifact env host (host.join root name) mode expected h) e in
      elim (Bool-cases existing) [
        | inl again ↦
            (let is : host.join root name ≡ path = ground arith in
              (
                sym is,
                inr (
                    reusable-IsReused env host (host.join root name) mode expected h k
                      (f ∙ ap (λ b. (ok b, k)) again)),
              ))
        | inr other ↦
            (let new : stage_new env host fill base m name mode expected k ≡ (ok path, after) =
                ground arith in
              let (_, h1, a, e2) =
                next-ok _ (call_done (λ l. env.mkdir_all l parent) (Call.mkdir_all parent) k) new in
              let (t, h2, b, e3) =
                next-ok _
                  (call_value (λ l. env.mkdir_temp l parent m.worker_version)
                    (Call.mkdir_temp parent m.worker_version) h1)
                  e2 in
              in_temporary-IsStaged root name mode expected t
                (publish env host fill root name mode expected t h2)
                (λ p kept l is. publish-IsStaged fill root name mode expected t h2 fills is) e3)
      ]

  -- If stageArtifact returns a path, then it is that of the artifact in the directory of its version.
  -- Either its last call has given the temporary directory that name, and the bytes that it wrote to the
  -- artifact there have the digest that is expected; or a regular file with the mode had the path
  -- already, and the bytes that were read of it have the digest. Other processes may do what they
  -- like in between.
  pub stage_artifact-IsStaged :
      (base : String) (m : Release) (source_path : String) (mode : ℕ) (expected : Bytes)
      (h : History) (path : String) (after : History)
      → stage_artifact env host base m source_path mode expected h ≡ (ok path, after)
      → IsStaged (version_root env host base m) (host.base source_path) mode expected path after
  unfolding stage_artifact
  stage_artifact-IsStaged base m source_path mode expected h path after e =
      let (_, k, a, e1) =
        next-ok _
          (refuse_when (host.base source_path == "." || host.base source_path == "/")
            (UpdateError.no_file_name source_path) h)
          e in
      stage-IsStaged (copy_and_verify env host source_path mode expected) base m
        (host.base source_path) mode expected k
        (λ p l last u f. copy_and_verify-Matches env host source_path mode expected p l last f) e1
