-- ===== src/Update/Prepare.antt =====
-- Prepare and prepareRemote of pkg/update/update.go, with the helpers for paths.
use mini_av.Prelude.{
  String, Option, none, some, ◌++◌, not, ◌||◌, if◌then◌else◌, take, repeated, Result, ok, err,
}
use mini_av.Prelude.Equality.{◌==◌, string_eq}
use mini_av.Prelude.Text.{is_blank}
use mini_av.Signatures.Bytes.{Bytes}
use mini_av.Update.{Release, PreparedRelease, Host}
use mini_av.Update.Manifest.{
  ManifestError, Document, decode_manifest, validate_manifest, is_remote_source, hex_decode,
  digest_size,
}
use mini_av.Update.Calls.{
  Call, StatError, Info, Stream, Env, UpdateError, RemoteError, Action, ◌>>=◌, ◌>>◌, done,
  refuse_when, ask, call_value, returned,
}
use mini_av.Update.Digest.{equal_digest}
use mini_av.Update.Staging.{check_context, hash_file, stage_artifact}
use mini_av.Update.Remote.{
  Urls, max_manifest_size, url_or, download_bytes, stage_remote_artifact, validate_remote_url,
}

-- What json.NewDecoder finds in a stream, and in a slice of bytes.
pub record Json : Type 0 where
  pub of_stream : Stream → Document
  pub of_bytes : Bytes → Document

abbrev pub or_manifest {ℓ} : {A : Type ℓ} → Result ManifestError A → Result UpdateError A
or_manifest (ok a) = ok a
or_manifest (err e) = err (UpdateError.manifest e)

abbrev pub digest_or : Option Bytes → Result UpdateError Bytes
digest_or none = err (UpdateError.manifest ManifestError.bad_digest)
digest_or (some s) = ok s

abbrev pub or_resolve : Result String String → Result UpdateError String
or_resolve (ok path) = ok path
or_resolve (err e) = err (UpdateError.resolve_failed e)

-- The error of os.Stat, whichever it is.
abbrev pub stat_or : String → Result StatError Info → Result UpdateError Info
stat_or path (ok info) = ok info
stat_or path (err StatError.not_exist) =
    err (UpdateError.system (Call.stat path) "file does not exist")
stat_or path (err (StatError.failed e)) = err (UpdateError.system (Call.stat path) e)

-- copy(digest[:], expected)
abbrev pub fixed : Bytes → Bytes
fixed s = take digest_size (s ++ repeated digest_size 0)

module _ (env : Env) (host : Host) (urls : Urls) (json : Json) where
  abbrev pub stat : String → Action Info
  stat path = do
    answer ← ask (λ h. env.stat h path) (Call.stat path)
    returned (stat_or path answer)

  unfoldable pub absolute_directory : String → Action String
  absolute_directory path = do
    refuse_when (is_blank path) UpdateError.empty_path
    absolute ← returned (or_resolve (host.abs path))
    info ← stat absolute
    refuse_when (not info.is_dir) (UpdateError.not_a_directory absolute)
    done (host.clean absolute)

  unfoldable pub resolve_path : String → String → Action String
  resolve_path base path = do
    refuse_when (is_blank path) UpdateError.empty_path
    absolute ←
        returned (or_resolve (host.abs (if host.is_abs path then path else host.join base path)))
    done (host.clean absolute)

  unfoldable pub read_manifest : String → Action Release
  unfolding decode_manifest
  read_manifest path = do
    info ← stat path
    refuse_when (not info.is_regular) (UpdateError.irregular path)
    file ← call_value (λ h. env.open_file h path) (Call.open_file path)
    returned (or_manifest (decode_manifest (json.of_stream file)))

  -- manifest.SHA256 = strings.ToLower(manifest.SHA256)
  abbrev pub lowered : Release → Release
  lowered m = record m { sha256 = host.to_lower m.sha256 }

  unfoldable pub prepare_local : String → String → Action PreparedRelease
  unfolding resolve_path read_manifest validate_manifest hex_decode hash_file stage_artifact
  prepare_local base manifest_path = do
    resolved ← resolve_path base manifest_path
    m ← read_manifest resolved
    returned (or_manifest (validate_manifest host m))
    source_path ← resolve_path base m.artifact_path
    info ← stat source_path
    refuse_when (not info.is_regular) (UpdateError.irregular source_path)
    expected ← returned (digest_or (hex_decode (host.to_lower m.sha256)))
    actual ← hash_file env host source_path
    refuse_when (not (equal_digest actual expected)) (UpdateError.digest_mismatch source_path)
    staged ← stage_artifact env host base (lowered m) source_path info.perm actual
    done (record {
      manifest = lowered m;
      manifest_path = resolved;
      source_path = source_path;
      staged_path = staged;
    })

  unfoldable pub prepare_remote : String → String → Action PreparedRelease
  unfolding validate_remote_url download_bytes decode_manifest validate_manifest hex_decode
      stage_remote_artifact
  prepare_remote base manifest_source = do
    manifest_url ← returned (validate_remote_url env host urls manifest_source)
    manifest_data ← download_bytes env host manifest_url max_manifest_size
    m ← returned (or_manifest (decode_manifest (json.of_bytes manifest_data)))
    returned (or_manifest (validate_manifest host m))
    reference ← returned (url_or RemoteError.bad_reference (urls.parse m.artifact_path))
    refuse_when (reference.is_abs || not (reference.host == ""))
        (UpdateError.remote RemoteError.not_relative)
    refuse_when
        (not ((urls.resolve manifest_url reference).scheme == manifest_url.scheme)
          || not ((urls.resolve manifest_url reference).host == manifest_url.host))
        (UpdateError.remote RemoteError.other_origin)
    checked ←
        returned (validate_remote_url env host urls (urls.resolve manifest_url reference).text)
    expected ← returned (digest_or (hex_decode (host.to_lower m.sha256)))
    staged ←
        stage_remote_artifact env host base (lowered m) (urls.resolve manifest_url reference)
          (fixed expected)
    done (record {
      manifest = lowered m;
      manifest_path = manifest_url.text;
      source_path = (urls.resolve manifest_url reference).text;
      staged_path = staged;
    })

  unfoldable pub prepare : String → String → Action PreparedRelease
  unfolding absolute_directory prepare_local prepare_remote
  prepare config_dir manifest_path = do
    check_context env
    base ← absolute_directory config_dir
    if is_remote_source host manifest_path
        then prepare_remote base manifest_path
        else prepare_local base manifest_path
