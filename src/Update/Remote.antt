-- ===== src/Update/Remote.antt =====
-- The remote part of pkg/update/update.go: validateRemoteURL, getRemote, downloadBytes,
-- downloadArtifact and stageRemoteArtifact. The packages net/url and net/netip are parameters.
use mini_av.Prelude.{
  ℕ, ◌+◌, ◌-◌, ◌*◌, String, Option, none, some, [], Bool, false, not, ◌||◌, ◌&&◌, if◌then◌else◌,
  ltb, leb, length, take, Result, ok, err,
}
use mini_av.Prelude.Equality.{◌==◌, string_eq}
use mini_av.Signatures.Bytes.{Bytes}
use mini_av.Update.{Release, Host}
use mini_av.Update.Manifest.{safe_path_component}
use mini_av.Update.Calls.{
  Call, Stream, Response, Env, UpdateError, RemoteError, Action, ◌>>=◌, ◌>>◌, done, refuse_when,
  ask, call_value, call_done, none_or, returned,
}
use mini_av.Update.Digest.{equal_digest}
use mini_av.Update.Staging.{Copied, hash_stream, copied, copy_to, stage}

-- What the code reads of a url.URL; `text` is String().
pub record Url : Type 0 where
  pub scheme : String
  pub host : String
  pub host_name : String
  pub has_user : Bool
  pub fragment : String
  pub path : String
  pub is_abs : Bool
  pub text : String

-- url.ParseRequestURI, url.Parse, ResolveReference, and whether netip.ParseAddr and IsLoopback say
-- that a host is a loopback address.
pub record Urls : Type 0 where
  pub parse_request_uri : String → Result String Url
  pub parse : String → Result String Url
  pub resolve : Url → Url → Url
  pub is_loopback : String → Bool

abbrev pub max_manifest_size : ℕ
max_manifest_size = 64 * 1024

abbrev pub max_artifact_size : ℕ
max_artifact_size = 128 * 1024 * 1024

-- 0o755
abbrev pub remote_mode : ℕ
remote_mode = 493

-- io.LimitReader
unfoldable pub limited : ℕ → Stream → Stream
limited n (Stream.more c s rest) =
    let others = limited (n - length s) rest in
    if ltb (length s) n then Stream.more c s others else Stream.last c (take n s) none
limited n (Stream.last c s error) =
    if leb (length s) n then Stream.last c s error else Stream.last c (take n s) none

-- response.ContentLength > limit; the length is -1 where it is not known.
abbrev pub is_too_long : ℕ → Option ℕ → Bool
is_too_long limit none = false
is_too_long limit (some n) = ltb limit n

abbrev pub url_or : (String → RemoteError) → Result String Url → Result UpdateError Url
url_or f (ok u) = ok u
url_or f (err e) = err (UpdateError.remote (f e))

module _ (env : Env) (host : Host) where
  unfoldable pub get_remote : Url → Action Response
  get_remote source = do
    response ← call_value (λ h. env.get h source.text) (Call.get source.text)
    refuse_when (not response.is_ok) (UpdateError.remote RemoteError.bad_status)
    done response

  unfoldable pub download_bytes : Url → ℕ → Action Bytes
  unfolding get_remote limited hash_stream
  download_bytes source limit = do
    response ← get_remote source
    refuse_when (is_too_long limit response.content_length)
        (UpdateError.remote RemoteError.too_large)
    data' ← copied env (hash_stream (limited (limit + 1) response.body) [])
    refuse_when (ltb limit (length data')) (UpdateError.remote RemoteError.too_large)
    done data'

  -- What follows io.Copy.
  abbrev pub finish_download : String → ℕ → Bytes → Copied → Action (Unit {0})
  finish_download destination mode expected result = do
    close_error ← ask (λ h. env.close h destination) (Call.close destination)
    written ← copied env result
    returned (none_or (Call.close destination) close_error)
    refuse_when (ltb max_artifact_size (length written)) (UpdateError.remote RemoteError.too_large)
    call_done (λ h. env.chmod h destination mode) (Call.chmod destination mode)
    refuse_when (not (equal_digest (host.sha256 written) expected))
        (UpdateError.digest_mismatch destination)

  unfoldable pub download_artifact : Url → ℕ → Bytes → String → Action (Unit {0})
  unfolding get_remote limited
  download_artifact source mode expected destination = do
    response ← get_remote source
    refuse_when (is_too_long max_artifact_size response.content_length)
        (UpdateError.remote RemoteError.too_large)
    call_done (λ h. env.create h destination mode) (Call.create destination mode)
    result ← copy_to env destination (limited (max_artifact_size + 1) response.body)
    finish_download destination mode expected result

  unfoldable pub stage_remote_artifact : String → Release → Url → Bytes → Action String
  unfolding download_artifact stage
  stage_remote_artifact base m source expected = do
    refuse_when (not (safe_path_component host (host.url_base source.path)))
        (UpdateError.remote RemoteError.no_safe_name)
    stage env host (download_artifact source remote_mode expected) base m
        (host.url_base source.path) remote_mode expected

  module _ (urls : Urls) where
    unfoldable pub validate_remote_url : String → Result UpdateError Url
    validate_remote_url source = elim (urls.parse_request_uri (host.trim_space source)) [
      | err e ↦ err (UpdateError.remote (RemoteError.bad_url e))
      | ok u ↦
          if not (u.scheme == "http") && not (u.scheme == "https")
          then err (UpdateError.remote RemoteError.bad_scheme)
          else if u.has_user || not (u.fragment == "")
          then err (UpdateError.remote RemoteError.user_or_fragment)
          else if not (urls.is_loopback u.host_name)
          then err (UpdateError.remote RemoteError.not_loopback)
          else ok u
    ]
