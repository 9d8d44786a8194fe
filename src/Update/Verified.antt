-- ===== src/Update/Verified.antt =====
-- What Prepare of pkg/update/update.go has checked when it returns a release.
use mini_av.Prelude.{
  ℕ, ◌+◌, ◌≡◌, ◌⊎◌, inl, inr, refl, sym, subst, ◌∙◌, ap, String, Option, none, some, true, not,
  ◌||◌, arith, Result, ok, err, Bool-cases,
}
use mini_av.Prelude.Equality.{◌==◌, string_eq}
use mini_av.Signatures.Bytes.{Bytes}
use mini_av.Update.{Release, PreparedRelease, Host}
use mini_av.Update.Manifest.{
  decode_manifest, validate_manifest, is_remote_source, safe_path_component, hex_decode,
}
use mini_av.Update.Calls.{
  Call, History, Env, UpdateError, RemoteError, done, refuse_when, call_done, returned,
}
use mini_av.Update.Digest.{equal_digest}
use mini_av.Update.Staging.{Copied, check_context, copy_to, hash_file, stage_artifact, version_root}
use mini_av.Update.Remote.{
  Url, Urls, max_manifest_size, max_artifact_size, remote_mode, is_too_long, limited, url_or,
  get_remote, download_bytes, download_artifact, finish_download, stage_remote_artifact,
  validate_remote_url,
}
use mini_av.Update.Prepare.{
  Json, or_manifest, digest_or, fixed, stat, absolute_directory, resolve_path, read_manifest,
  lowered, prepare_local, prepare_remote, prepare,
}
use mini_av.Prelude.Actions.{next-ok, on_next}
use mini_av.Update.Written.{written, copy_to-written, created, Matches}
use mini_av.Update.Published.{Fills, IsStaged, stage-IsStaged, stage_artifact-IsStaged}

module _ (env : Env) (host : Host) where
  finish_download-Matches :
      (path : String) (mode : ℕ) (expected : Bytes) (result : Copied) (h after : History)
      (u : Unit {0})
      → finish_download env host path mode expected result h ≡ (ok u, after)
      → ((read : Bytes) → result ≡ ok read → written path h ≡ read)
      → Matches env host expected path after
  unfolding written
  finish_download-Matches path mode expected (err x) h after u e w = absurd (ground arith)
  finish_download-Matches path mode expected (ok read) h after u e w = ground (arith, w read refl)

  download_artifact-Matches :
      (source : Url) (mode : ℕ) (expected : Bytes)
      → Fills env host expected (download_artifact env host source mode expected)
  unfolding download_artifact written
  download_artifact-Matches source mode expected path h after u e =
      let (response, h1, _, e1) = next-ok _ (get_remote env host source h) e in
      let (_, h2, _, e2) =
        next-ok _
          (refuse_when (is_too_long max_artifact_size response.content_length)
            (UpdateError.remote RemoteError.too_large) h1)
          e1 in
      let (_, h3, made, e3) =
        next-ok _ (call_done (λ k. env.create k path mode) (Call.create path mode) h2) e2 in
      let (result, h4, copies, e4) =
        next-ok (finish_download env host path mode expected)
          (copy_to env path (limited (max_artifact_size + 1) response.body) h3) e3 in
      finish_download-Matches path mode expected result h4 after u e4 λ read is.
        copy_to-written env path (limited (max_artifact_size + 1) response.body) h3
          (copies ∙ ap (λ x. (ok x, h4)) is)
          (ap (λ (x : Result UpdateError (Unit {0}) × History). written path x.1) (sym made)
            ∙ created env path mode h2)

  module _ (urls : Urls) (json : Json) where
    -- The digest of the manifest is that of the artifact that is staged.
    pub IsVerified : PreparedRelease → History → Type 0
    IsVerified r after =
        (expected : Bytes) × (hex_decode r.manifest.sha256 ≡ some expected)
        × (base : String) × (name : String) × (mode : ℕ) × (digest : Bytes) × ((digest
              ≡ fixed expected)
            ⊎ (equal_digest digest expected ≡ true))
        × IsStaged env host (version_root env host base r.manifest) name mode digest r.staged_path
            after

    decoded_digest :
        (o : Option Bytes) (h after : History) (s : Bytes)
        → returned (digest_or o) h ≡ (ok s, after)
        → o ≡ some s
    decoded_digest none h after s e = absurd (ground arith)
    decoded_digest (some x) h after s e = ground arith

    accepted :
        (actual expected : Bytes) (source : String) (h after : History) {u : Unit {0}}
        → refuse_when (not (equal_digest actual expected)) (UpdateError.digest_mismatch source) h
          ≡ (ok u, after)
        → equal_digest actual expected ≡ true
    accepted actual expected source h after e = ground arith

    verified :
        (base name manifest_path source_path staged : String) (mode : ℕ) (digest : Bytes)
        (m : Release) (expected : Bytes) (h : History) (r : PreparedRelease) (after : History)
        → hex_decode (host.to_lower m.sha256) ≡ some expected
        → ((digest ≡ fixed expected) ⊎ (equal_digest digest expected ≡ true))
        → IsStaged env host
            (version_root env host base (lowered env host urls json m))
            name
            mode
            digest
            staged
            h
        → done {C = Call} {E = UpdateError}
            (record {
              manifest = lowered env host urls json m;
              manifest_path = manifest_path;
              source_path = source_path;
              staged_path = staged;
            })
            h
          ≡ (ok r, after)
        → IsVerified r after
    unfolding IsVerified
    verified base name manifest_path source_path staged mode digest m expected h r after d same s
          e =
        let release : PreparedRelease = record {
          manifest = lowered env host urls json m;
          manifest_path = manifest_path;
          source_path = source_path;
          staged_path = staged;
        } in
        let is : release ≡ r = ground arith in
        let end : h ≡ after = ground arith in
        subst (λ x. IsVerified x after) is
          (subst (λ k. IsVerified release k) end (expected, d, base, name, mode, digest, same, s))

    prepare_local-IsVerified :
        (base manifest_path : String) (h : History) (r : PreparedRelease) (after : History)
        → prepare_local env host urls json base manifest_path h ≡ (ok r, after)
        → IsVerified r after
    unfolding prepare_local
    prepare_local-IsVerified base manifest_path h r after e =
        on_next _ (resolve_path env host urls json base manifest_path h) e λ resolved h1 v e1.
          on_next _ (read_manifest env host urls json resolved h1) e1 λ m h2 v e2.
            on_next _ (returned (or_manifest (validate_manifest host m)) h2) e2 λ u h3 v e3.
              on_next _ (resolve_path env host urls json base m.artifact_path h3) e3
                λ source h4 v e4. on_next _ (stat env host urls json source h4) e4 λ info h5 v e5.
                  on_next _ (refuse_when (not info.is_regular) (UpdateError.irregular source) h5) e5
                    λ u h6 v e6.
                      on_next _ (returned (digest_or (hex_decode (host.to_lower m.sha256))) h6) e6
                        λ expected h7 d e7.
                          on_next _ (hash_file env host source h7) e7 λ actual h8 v e8.
                            on_next _
                              (refuse_when (not (equal_digest actual expected))
                                (UpdateError.digest_mismatch source) h8)
                              e8
                              λ u h9 same e9.
                                on_next _
                                  (stage_artifact env host base (lowered env host urls json m)
                                    source info.perm actual h9)
                                  e9
                                  λ staged h10 s e10.
                                    verified base (host.base source) resolved source staged
                                      info.perm actual m expected h10 r after
                                      (decoded_digest (hex_decode (host.to_lower m.sha256)) h6 h7
                                        expected d)
                                      (inr (accepted actual expected source h8 h9 same))
                                      (stage_artifact-IsStaged env host base
                                        (lowered env host urls json m) source info.perm actual h9
                                        staged h10 s)
                                      e10

    prepare_remote-IsVerified :
        (base manifest_source : String) (h : History) (r : PreparedRelease) (after : History)
        → prepare_remote env host urls json base manifest_source h ≡ (ok r, after)
        → IsVerified r after
    unfolding prepare_remote stage_remote_artifact
    prepare_remote-IsVerified base manifest_source h r after e =
        on_next _ (returned (validate_remote_url env host urls manifest_source) h) e λ at h1 v e1.
          on_next _ (download_bytes env host at max_manifest_size h1) e1 λ bytes h2 v e2.
            on_next _ (returned (or_manifest (decode_manifest (json.of_bytes bytes))) h2) e2
              λ m h3 v e3.
                on_next _ (returned (or_manifest (validate_manifest host m)) h3) e3 λ u h4 v e4.
                  on_next _
                    (returned (url_or RemoteError.bad_reference (urls.parse m.artifact_path)) h4) e4
                    λ to h5 v e5.
                      on_next _
                        (refuse_when (to.is_abs || not (to.host == ""))
                          (UpdateError.remote RemoteError.not_relative) h5)
                        e5
                        λ u h6 v e6.
                          let source = urls.resolve at to in
                          on_next _
                            (refuse_when
                              (not (source.scheme == at.scheme) || not (source.host == at.host))
                              (UpdateError.remote RemoteError.other_origin) h6)
                            e6
                            λ u h7 v e7.
                              on_next _
                                (returned (validate_remote_url env host urls source.text) h7) e7
                                λ u h8 v e8.
                                  on_next _
                                    (returned (digest_or (hex_decode (host.to_lower m.sha256))) h8)
                                    e8
                                    λ expected h9 d e9.
                                      on_next _
                                        (stage_remote_artifact env host base
                                          (lowered env host urls json m) source (fixed expected) h9)
                                        e9
                                        λ staged h10 s e10.
                                          let name = host.url_base source.path in
                                          on_next _
                                            (refuse_when (not (safe_path_component host name))
                                              (UpdateError.remote RemoteError.no_safe_name) h9)
                                            s
                                            λ u h11 v s1.
                                              verified base name at.text source.text staged
                                                remote_mode (fixed expected) m expected h10 r after
                                                (decoded_digest
                                                  (hex_decode (host.to_lower m.sha256)) h8 h9
                                                  expected d)
                                                (inl refl)
                                                (stage-IsStaged env host
                                                  (download_artifact env host source remote_mode
                                                    (fixed expected))
                                                  base (lowered env host urls json m) name
                                                  remote_mode (fixed expected) h11
                                                  (download_artifact-Matches source remote_mode
                                                    (fixed expected))
                                                  s1)
                                                e10

    -- If Prepare returns a release, of a local or of a remote manifest, then the digest of its
    -- manifest is hexadecimal, and its path is that of an artifact with this digest, or with a digest
    -- that was compared with it: either the bytes written there, in a directory that the last call
    -- named, or those read of a regular file that was there already. Other processes may do what
    -- they like in between.
    pub prepare-IsVerified :
        (config_dir manifest_path : String) (h : History) (r : PreparedRelease) (after : History)
        → prepare env host urls json config_dir manifest_path h ≡ (ok r, after)
        → IsVerified r after
    unfolding prepare
    prepare-IsVerified config_dir manifest_path h r after e =
        on_next _ (check_context env h) e λ u h1 v e1.
          on_next _ (absolute_directory env host urls json config_dir h1) e1 λ base h2 v e2.
            elim (Bool-cases (is_remote_source host manifest_path)) [
              | inl far ↦ prepare_remote-IsVerified base manifest_path h2 r after (ground arith)
              | inr near ↦ prepare_local-IsVerified base manifest_path h2 r after (ground arith)
            ]
