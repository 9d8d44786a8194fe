-- ===== src/Update/Reused.antt =====
-- What reusableStagedArtifact of pkg/update/update.go has checked when it returns true.
use mini_av.Prelude.{
  ℕ, ◌≡◌, refl, ◌∙◌, ap, String, Option, none, some, [], ◌∷◌, true, not, arith, nat_beq, Result, ok,
  err,
}
use mini_av.Prelude.Equality.{◌==◌, ==→≡, string_eq}
use mini_av.Signatures.Bytes.{Bytes, bytes_eq}
use mini_av.Update.{Host}
use mini_av.Update.Calls.{
  Call, History, StatError, Info, Stream, Env, UpdateError, refuse_when, call_value,
}
use mini_av.Update.Staging.{
  hash_stream, copied, found, check_staged, hash_file, reusable_staged_artifact,
}
use mini_av.Prelude.Actions.{next-ok}

module _ (env : Env) (host : Host) where
  -- A release that was staged before: the file that has its path is regular, has the mode, and what
  -- was read of it has the digest.
  abbrev pub IsReused : String → ℕ → Bytes → Type 0
  IsReused path mode expected =
      (h : History) × (info : Info) × (env.stat h path ≡ ok info)
      × (info.is_regular ≡ true)
      × (info.perm ≡ mode)
      × (k : History) × (stream : Stream) × (env.open_file k path ≡ ok stream)
      × (read : Bytes) × (hash_stream stream [] ≡ ok read)
      × (host.sha256 read ≡ expected)

  hash_file-ok :
      (path : String) (h after : History) {digest : Bytes}
      → hash_file env host path h ≡ (ok digest, after)
      → (k : History) × (stream : Stream) × (env.open_file k path ≡ ok stream)
        × (read : Bytes) × (hash_stream stream [] ≡ ok read)
        × (host.sha256 read ≡ digest)
  unfolding hash_file
  hash_file-ok path h after {digest} e =
      let (stream, h1, opened, e1) =
        next-ok _ (call_value (λ k. env.open_file k path) (Call.open_file path) h) e in
      let (read, h2, hashed, e2) = next-ok _ (copied env (hash_stream stream []) h1) e1 in
      let a : env.open_file h path ≡ ok stream = ground arith in
      let b : hash_stream stream [] ≡ ok read = ground arith in
      let c : host.sha256 read ≡ digest = ground arith in (h, stream, a, read, b, c)

  check_staged-IsReused :
      (path : String) (mode : ℕ) (expected : Bytes) (answer : Option Info) (first h after : History)
      → ((info : Info) → answer ≡ some info → env.stat first path ≡ ok info)
      → check_staged env host path mode expected answer h ≡ (ok true, after)
      → IsReused path mode expected
  check_staged-IsReused path mode expected none first h after s e = absurd (ground arith)
  check_staged-IsReused path mode expected (some info) first h after s e =
      let (_, h1, a, e1) =
        next-ok _ (refuse_when (not info.is_regular) (UpdateError.irregular path) h) e in
      let (_, h2, b, e2) =
        next-ok _
          (refuse_when (not (nat_beq info.perm mode)) (UpdateError.conflicting_permissions path) h1)
          e1 in
      let (digest, h3, c, e3) = next-ok _ (hash_file env host path h2) e2 in
      let (_, h4, d, e4) =
        next-ok _ (refuse_when (not (digest == expected)) (UpdateError.conflicting_digest path) h3)
          e3 in
      let (k, stream, o, read, r, same) = hash_file-ok path h2 h3 c in
      let regular : info.is_regular ≡ true = ground arith in
      let perm : info.perm ≡ mode = ground arith in
      let matches : digest ≡ expected = ==→≡ digest expected (ground arith) in
      (first, info, s info refl, regular, perm, k, stream, o, read, r, same ∙ matches)

  found_stat :
      (path : String) (answer : Result StatError Info) (h after : History) (info : Info)
      → found env path answer h ≡ (ok (some info), after)
      → answer ≡ ok info
  found_stat path (ok x) h after info e = ground arith
  found_stat path (err StatError.not_exist) h after info e = absurd (ground arith)
  found_stat path (err (StatError.failed x)) h after info e = absurd (ground arith)

  pub reusable-IsReused :
      (path : String) (mode : ℕ) (expected : Bytes) (h after : History)
      → reusable_staged_artifact env host path mode expected h ≡ (ok true, after)
      → IsReused path mode expected
  unfolding reusable_staged_artifact
  reusable-IsReused path mode expected h after e =
      let (o, k, found_it, e1) =
        next-ok (check_staged env host path mode expected)
          (found env path (env.stat h path) (Call.stat path ∷ h)) e in
      check_staged-IsReused path mode expected o h k after
        (λ info is.
          found_stat path (env.stat h path) (Call.stat path ∷ h) k info
            (found_it ∙ ap (λ x. (ok x, k)) is))
        e1
