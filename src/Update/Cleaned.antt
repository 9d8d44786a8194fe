-- ===== src/Update/Cleaned.antt =====
-- The temporary directories of Prepare in pkg/update/update.go.
use mini_av.Prelude.{ℕ, ◌+◌, ◌≡◌, refl, ◌∙◌, String, [], not, ◌||◌, true, All, arith, if_cases}
use mini_av.Prelude.Equality.{◌==◌, string_eq, contains}
use mini_av.Signatures.Bytes.{Bytes}
use mini_av.Update.{Release, PreparedRelease, Host}
use mini_av.Update.Manifest.{
  decode_manifest, validate_manifest, is_remote_source, safe_path_component, hex_decode,
}
use mini_av.Update.Calls.{
  Call, History, Env, UpdateError, RemoteError, Action, refuse_when, call_done, returned,
}
use mini_av.Update.Digest.{equal_digest}
use mini_av.Update.Staging.{Copied, check_context, copy_to, hash_file, stage_artifact}
use mini_av.Update.Remote.{
  Url, Urls, max_manifest_size, max_artifact_size, remote_mode, is_too_long, limited, url_or,
  get_remote, download_bytes, download_artifact, finish_download, stage_remote_artifact,
  validate_remote_url,
}
use mini_av.Update.Prepare.{
  Json, or_manifest, digest_or, fixed, stat, absolute_directory, resolve_path, read_manifest,
  lowered, prepare_local, prepare_remote, prepare,
}
use mini_av.Update.Remaining.{refused, remaining, remaining-refused}
use mini_av.Update.Leftover.{
  leftover, Keeps, bind-Keeps, refuse_when-Keeps, copy_stream-leftover, hash_file-Keeps, clean_next,
  stage-leftover, stage_artifact-leftover,
}

module _ (env : Env) (host : Host) where
  finish_download-Keeps :
      (path : String) (mode : ℕ) (expected : Bytes) (result : Copied)
      → Keeps env (finish_download env host path mode expected result)
  unfolding Keeps leftover
  finish_download-Keeps path mode expected result h = ground arith

  get_remote-Keeps : (source : Url) → Keeps env (get_remote env host source)
  unfolding Keeps leftover get_remote
  get_remote-Keeps source h = ground arith

  download_bytes-Keeps :
      (source : Url) (limit : ℕ) → Keeps env (download_bytes env host source limit)
  unfolding Keeps leftover download_bytes get_remote
  download_bytes-Keeps source limit h = ground arith

  download_artifact-Keeps :
      (source : Url) (mode : ℕ) (expected : Bytes) (path : String)
      → Keeps env (download_artifact env host source mode expected path)
  unfolding Keeps download_artifact leftover
  download_artifact-Keeps source mode expected path =
      bind-Keeps env (get_remote env host source) _ (get_remote-Keeps source) λ response.
        bind-Keeps env
          (refuse_when (is_too_long max_artifact_size response.content_length)
            (UpdateError.remote RemoteError.too_large))
          _ (refuse_when-Keeps env _ _)
          λ u.
            bind-Keeps env (call_done (λ h. env.create h path mode) (Call.create path mode)) _
              (λ h. refl)
              λ v.
                bind-Keeps env (copy_to env path (limited (max_artifact_size + 1) response.body))
                  (finish_download env host path mode expected)
                  (λ h.
                    copy_stream-leftover env path (limited (max_artifact_size + 1) response.body) []
                      h)
                  λ result. finish_download-Keeps path mode expected result

  stage_remote_artifact-leftover :
      (base : String) (m : Release) (source : Url) (expected : Bytes) (h : History)
      → leftover env h ≡ []
      → leftover env (stage_remote_artifact env host base m source expected h).1 ≡ []
  unfolding stage_remote_artifact Keeps
  stage_remote_artifact-leftover base m source expected h clean =
      let name = host.url_base source.path in
      clean_next env host _
        (refuse_when (not (safe_path_component host name))
          (UpdateError.remote RemoteError.no_safe_name) h)
        (refuse_when-Keeps env _ _ h ∙ clean)
        λ u k e.
          stage-leftover env host (download_artifact env host source remote_mode expected) base m
            name remote_mode expected k (download_artifact-Keeps source remote_mode expected) e

  module _ (urls : Urls) (json : Json) where
    stat-Keeps : (path : String) → Keeps env (stat env host urls json path)
    unfolding Keeps leftover
    stat-Keeps path h = ground arith

    absolute_directory-Keeps :
        (path : String) → Keeps env (absolute_directory env host urls json path)
    unfolding Keeps leftover absolute_directory
    absolute_directory-Keeps path h = ground arith

    resolve_path-Keeps :
        (base path : String) → Keeps env (resolve_path env host urls json base path)
    unfolding Keeps leftover resolve_path
    resolve_path-Keeps base path h = ground arith

    read_manifest-Keeps : (path : String) → Keeps env (read_manifest env host urls json path)
    unfolding Keeps leftover read_manifest
    read_manifest-Keeps path h = ground arith

    prepare_local-leftover :
        (base manifest_path : String) (h : History)
        → leftover env h ≡ []
        → leftover env (prepare_local env host urls json base manifest_path h).1 ≡ []
    unfolding prepare_local Keeps
    prepare_local-leftover base manifest_path h c =
        clean_next env host _ (resolve_path env host urls json base manifest_path h)
          (resolve_path-Keeps base manifest_path h ∙ c)
          λ resolved h1 c1.
            clean_next env host _ (read_manifest env host urls json resolved h1)
              (read_manifest-Keeps resolved h1 ∙ c1)
              λ m h2 c2.
                clean_next env host _ (returned (or_manifest (validate_manifest host m)) h2) c2
                  λ u h3 c3.
                    clean_next env host _ (resolve_path env host urls json base m.artifact_path h3)
                      (resolve_path-Keeps base m.artifact_path h3 ∙ c3)
                      λ source h4 c4.
                        clean_next env host _ (stat env host urls json source h4)
                          (stat-Keeps source h4 ∙ c4)
                          λ info h5 c5.
                            clean_next env host _
                              (refuse_when (not info.is_regular) (UpdateError.irregular source) h5)
                              (refuse_when-Keeps env _ _ h5 ∙ c5)
                              λ v h6 c6.
                                clean_next env host _
                                  (returned (digest_or (hex_decode (host.to_lower m.sha256))) h6) c6
                                  λ expected h7 c7.
                                    clean_next env host _ (hash_file env host source h7)
                                      (hash_file-Keeps env host source h7 ∙ c7)
                                      λ actual h8 c8.
                                        clean_next env host _
                                          (refuse_when (not (equal_digest actual expected))
                                            (UpdateError.digest_mismatch source) h8)
                                          (refuse_when-Keeps env _ _ h8 ∙ c8)
                                          λ w h9 c9.
                                            clean_next env host _
                                              (stage_artifact env host base
                                                (lowered env host urls json m) source info.perm
                                                actual h9)
                                              (stage_artifact-leftover env host base
                                                (lowered env host urls json m) source info.perm
                                                actual h9 c9)
                                              λ staged h10 c10. c10

    prepare_remote-leftover :
        (base manifest_source : String) (h : History)
        → leftover env h ≡ []
        → leftover env (prepare_remote env host urls json base manifest_source h).1 ≡ []
    unfolding prepare_remote Keeps
    prepare_remote-leftover base manifest_source h c =
        clean_next env host _ (returned (validate_remote_url env host urls manifest_source) h) c
          λ at h1 c1.
            clean_next env host _ (download_bytes env host at max_manifest_size h1)
              (download_bytes-Keeps at max_manifest_size h1 ∙ c1)
              λ bytes h2 c2.
                clean_next env host _
                  (returned (or_manifest (decode_manifest (json.of_bytes bytes))) h2) c2
                  λ m h3 c3.
                    clean_next env host _ (returned (or_manifest (validate_manifest host m)) h3) c3
                      λ u h4 c4.
                        clean_next env host _
                          (returned (url_or RemoteError.bad_reference (urls.parse m.artifact_path))
                            h4)
                          c4
                          λ to h5 c5.
                            (let source = urls.resolve at to in
                              clean_next env host _
                                (refuse_when (to.is_abs || not (to.host == ""))
                                  (UpdateError.remote RemoteError.not_relative) h5)
                                (refuse_when-Keeps env _ _ h5 ∙ c5)
                                λ v h6 c6.
                                  clean_next env host _
                                    (refuse_when
                                      (not (source.scheme == at.scheme)
                                        || not (source.host == at.host))
                                      (UpdateError.remote RemoteError.other_origin) h6)
                                    (refuse_when-Keeps env _ _ h6 ∙ c6)
                                    λ w h7 c7.
                                      clean_next env host _
                                        (returned (validate_remote_url env host urls source.text)
                                          h7)
                                        c7
                                        λ x h8 c8.
                                          clean_next env host _
                                            (returned
                                              (digest_or (hex_decode (host.to_lower m.sha256))) h8)
                                            c8
                                            λ expected h9 c9.
                                              clean_next env host _
                                                (stage_remote_artifact env host base
                                                  (lowered env host urls json m) source
                                                  (fixed expected) h9)
                                                (stage_remote_artifact-leftover base
                                                  (lowered env host urls json m) source
                                                  (fixed expected) h9 c9)
                                                λ staged h10 c10. c10)

    prepare-clean :
        (config_dir manifest_path : String) (h : History)
        → leftover env h ≡ []
        → leftover env (prepare env host urls json config_dir manifest_path h).1 ≡ []
    unfolding prepare Keeps leftover
    prepare-clean config_dir manifest_path h c =
        clean_next env host _ (check_context env h) c λ u h1 c1.
          clean_next env host _ (absolute_directory env host urls json config_dir h1)
            (absolute_directory-Keeps config_dir h1 ∙ c1)
            λ base h2 c2.
              if_cases (λ (a : Action PreparedRelease). leftover env (a h2).1 ≡ [])
                (is_remote_source host manifest_path) _ _
                (λ e. prepare_remote-leftover base manifest_path h2 c2)
                (λ e. prepare_local-leftover base manifest_path h2 c2)

    -- Whatever the file system, the network and the context answer, and whatever Prepare returns,
    -- every temporary directory that it makes has become the release's or is given to RemoveAll, and
    -- one that still exists is one for which RemoveAll returned an error. Before the call every
    -- temporary directory had been renamed or given to RemoveAll.
    pub prepare-leftover :
        (config_dir manifest_path : String) (h : History)
        → leftover env h ≡ []
        → (leftover env (prepare env host urls json config_dir manifest_path h).1 ≡ [])
          × All
              (λ t.
                contains (refused env (prepare env host urls json config_dir manifest_path h).1) t
                ≡ true)
              (remaining env (prepare env host urls json config_dir manifest_path h).1)
    prepare-leftover config_dir manifest_path h c =
        let clean = prepare-clean config_dir manifest_path h c in
        (clean, remaining-refused env _ clean)
