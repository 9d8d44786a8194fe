-- ===== src/Update/Staging.antt =====
-- hashFile, reusableStagedArtifact, copyAndVerify and stageArtifact of pkg/update/update.go.
use mini_av.Prelude.{
  ℕ, String, Option, none, some, [], ◌∷◌, ◌++◌, Bool, true, false, not, ◌||◌, if◌then◌else◌,
  nat_beq, Result, ok, err,
}
use mini_av.Prelude.Equality.{◌==◌, string_eq}
use mini_av.Signatures.Bytes.{Bytes, bytes_eq}
use mini_av.Update.{Release, Host}
use mini_av.Update.Calls.{
  Call, History, StatError, Info, Stream, Env, UpdateError, Action, ◌>>=◌, ◌>>◌, done, refuse,
  refuse_when, ask, call_value, call_done, none_or, returned,
}
use mini_av.Update.Digest.{equal_digest}

-- The bytes that are hashed.
abbrev pub Copied : Type 0
Copied = Result String Bytes

abbrev pub after_last : Option String → Bytes → Copied
after_last (some e) s = err e
after_last none s = ok s

-- io.Copy(hash, contextReader), and io.ReadAll. What the context returns before a Read goes first.
unfoldable pub hash_stream : Stream → Bytes → Copied
hash_stream (Stream.more (some e) s rest) hashed = err e
hash_stream (Stream.more none s rest) hashed = hash_stream rest (hashed ++ s)
hash_stream (Stream.last (some e) s error) hashed = err e
hash_stream (Stream.last none s error) hashed = after_last error (hashed ++ s)

module _ (env : Env) where
  -- ctx.Err()
  abbrev pub check_context : Action (Unit {0})
  check_context = call_done env.context Call.check_context

  -- A Write of the destination; no call is made for no bytes.
  abbrev pub write_chunk : String → Bytes → History → Option String × History
  write_chunk path [] h = (none, h)
  write_chunk path (b ∷ s) h = (env.write h path (b ∷ s), Call.write path (b ∷ s) ∷ h)

  abbrev pub after_chunk : Option String × History → (History → Copied × History) → Copied × History
  after_chunk (some e, h) rest = (err e, h)
  after_chunk (none, h) rest = rest h

  -- io.Copy(io.MultiWriter(destination, hash), contextReader)
  unfoldable pub copy_stream : String → Stream → Bytes → History → Copied × History
  copy_stream path (Stream.more (some e) s rest) hashed h = (err e, h)
  copy_stream path (Stream.more none s rest) hashed h =
      after_chunk (write_chunk path s h) λ after. copy_stream path rest (hashed ++ s) after
  copy_stream path (Stream.last (some e) s error) hashed h = (err e, h)
  copy_stream path (Stream.last none s error) hashed h =
      after_chunk (write_chunk path s h) λ after. (after_last error (hashed ++ s), after)

  abbrev pub copied : Copied → Action Bytes
  copied (err e) h = (err (UpdateError.copy_failed e), h)
  copied (ok s) h = (ok s, h)

  abbrev pub copy_to : String → Stream → Action Copied
  copy_to path stream h = let (result, after) = copy_stream path stream [] h in (ok result, after)

  -- `found` is what os.Stat answers, `none` for a file that does not exist.
  abbrev pub found : String → Result StatError Info → Action (Option Info)
  found path (ok info) = done (some info)
  found path (err StatError.not_exist) = done none
  found path (err (StatError.failed e)) = refuse (UpdateError.system (Call.stat path) e)

  module _ (host : Host) where
    unfoldable pub hash_file : String → Action Bytes
    unfolding hash_stream
    hash_file path = do
      stream ← call_value (λ h. env.open_file h path) (Call.open_file path)
      read ← copied (hash_stream stream [])
      done (host.sha256 read)

    abbrev pub check_staged : String → ℕ → Bytes → Option Info → Action Bool
    check_staged path mode expected none = done false
    check_staged path mode expected (some info) = do
      refuse_when (not info.is_regular) (UpdateError.irregular path)
      refuse_when (not (nat_beq info.perm mode)) (UpdateError.conflicting_permissions path)
      digest ← hash_file path
      refuse_when (not (digest == expected)) (UpdateError.conflicting_digest path)
      done true

    unfoldable pub reusable_staged_artifact : String → ℕ → Bytes → Action Bool
    unfolding hash_file
    reusable_staged_artifact path mode expected = do
      answer ← ask (λ h. env.stat h path) (Call.stat path)
      info ← found path answer
      check_staged path mode expected info

    -- What follows io.Copy.
    abbrev pub finish_copy : String → ℕ → Bytes → Copied → Action (Unit {0})
    finish_copy destination mode expected result = do
      close_error ← ask (λ h. env.close h destination) (Call.close destination)
      written ← copied result
      returned (none_or (Call.close destination) close_error)
      call_done (λ h. env.chmod h destination mode) (Call.chmod destination mode)
      refuse_when (not (equal_digest (host.sha256 written) expected)) UpdateError.changed

    unfoldable pub copy_and_verify : String → ℕ → Bytes → String → Action (Unit {0})
    unfolding copy_stream
    copy_and_verify source_path mode expected destination = do
      source ← call_value (λ h. env.open_file h source_path) (Call.open_file source_path)
      call_done (λ h. env.create h destination mode) (Call.create destination mode)
      result ← copy_to destination source
      finish_copy destination mode expected result

    -- The paths of a release: the scanner's directory, the version's, and the artifact in it.
    abbrev pub scanner_root : String → Release → String
    scanner_root base m = host.join (host.join base "staging") m.scanner_id

    abbrev pub version_root : String → Release → String
    version_root base m = host.join (scanner_root base m) m.worker_version

    -- The deferred RemoveAll, unless the directory has got its name.
    abbrev pub removed :
        String → Result UpdateError (String × Bool) × History → Result UpdateError String × History
    removed temporary (ok (path, true), h) = (ok path, h)
    removed temporary (ok (path, false), h) = (ok path, Call.remove_all temporary ∷ h)
    removed temporary (err e, h) = (err e, Call.remove_all temporary ∷ h)

    -- What os.Rename answered, with whether it gave the directory its name.
    abbrev pub settle : String → ℕ → Bytes → Call → Option String → Action (String × Bool)
    settle staged mode expected call none = done (staged, true)
    settle staged mode expected call (some e) = do
      existing ← reusable_staged_artifact staged mode expected
      if existing then done (staged, false) else refuse (UpdateError.system call e)

    -- `fill` makes the artifact in the temporary directory.
    unfoldable pub publish :
        (String → Action (Unit {0})) → String → String → ℕ → Bytes → String → Action (String × Bool)
    unfolding reusable_staged_artifact
    publish fill root name mode expected temporary = do
      fill (host.join temporary name)
      check_context
      answer ← ask (λ h. env.rename h temporary root) (Call.rename temporary root)
      settle (host.join root name) mode expected (Call.rename temporary root) answer

    abbrev pub in_temporary :
        (String → Action (Unit {0})) → String → String → ℕ → Bytes → String → Action String
    in_temporary fill root name mode expected temporary h =
        removed temporary (publish fill root name mode expected temporary h)

    -- The part of stageArtifact and stageRemoteArtifact that is the same in both, from MkdirAll on.
    abbrev pub stage_new :
        (String → Action (Unit {0})) → String → Release → String → ℕ → Bytes → Action String
    stage_new fill base m name mode expected = do
      call_done (λ h. env.mkdir_all h (scanner_root base m)) (Call.mkdir_all (scanner_root base m))
      temporary ←
          call_value (λ h. env.mkdir_temp h (scanner_root base m) m.worker_version)
            (Call.mkdir_temp (scanner_root base m) m.worker_version)
      in_temporary fill (version_root base m) name mode expected temporary

    -- All of that part.
    unfoldable pub stage :
        (String → Action (Unit {0})) → String → Release → String → ℕ → Bytes → Action String
    unfolding reusable_staged_artifact publish
    stage fill base m name mode expected = do
      existing ← reusable_staged_artifact (host.join (version_root base m) name) mode expected
      if existing
          then done (host.join (version_root base m) name)
          else stage_new fill base m name mode expected

    unfoldable pub stage_artifact : String → Release → String → ℕ → Bytes → Action String
    unfolding stage copy_and_verify
    stage_artifact base m source_path mode expected = do
      refuse_when (host.base source_path == "." || host.base source_path == "/")
          (UpdateError.no_file_name source_path)
      stage (copy_and_verify source_path mode expected) base m (host.base source_path) mode expected
