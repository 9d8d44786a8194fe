-- ===== src/Witnesses/Releases.antt =====
-- A release on the disk for pkg/update/update.go: a host on which a joined path is its second part, and
-- every digest is of 32 zeros.
use mini_av.Prelude.{
  ◌≡◌, ◌↔◌, refl, All, String, none, some, [], ◌∷◌, true, false, if◌then◌else◌, Result, ok, err,
  repeated, arith, ap,
}
use mini_av.Prelude.Equality.{◌==◌, string_eq, contains}
use mini_av.Prelude.Text.{is_blank}
use mini_av.Signatures.Bytes.{Bytes}
use mini_av.Update.{Release, PreparedRelease, Host}
use mini_av.Update.Manifest.{
  Field, decode_manifest, Token, Entry, Document, validate_manifest, is_remote_source,
  decode_entries, target, check_fields, safe_path_component, has_separator, byte_length,
}
use mini_av.Update.Calls.{History, StatError, Info, Stream, Env}
use mini_av.Update.Digest.{equal_digest, differs, xor, or, equal_digest-equal}
use mini_av.Update.Remote.{Urls}
use mini_av.Update.Prepare.{Json, prepare}
use mini_av.Update.Fields.{value_at, decode_manifest-value_at}
use mini_av.Update.Safe.{IsSafe, validate_manifest-IsSafe}
use mini_av.Update.Leftover.{leftover}
use mini_av.Update.Remaining.{refused, remaining}
use mini_av.Update.Cleaned.{prepare-leftover}
use mini_av.Update.Verified.{IsVerified, prepare-IsVerified}

abbrev zeros : Bytes
zeros = repeated 32 0

abbrev zero_digest : String
zero_digest = "0000000000000000000000000000000000000000000000000000000000000000"

abbrev flat_host : Host
flat_host = record {
  to_lower = λ s. s;
  trim_space = λ s. s;
  is_abs = λ path. true;
  clean = λ path. path;
  join = λ base path. path;
  base = λ path. "artifact";
  volume_name = λ path. "";
  url_base = λ path. "artifact";
  abs = λ path. ok path;
  sha256 = λ s. zeros;
}

abbrev file_info : Info
file_info = record { is_regular = true; is_dir = true; perm = 493 }

-- Only the path of the artifact that is staged is free.
abbrev stat_of : History → String → Result StatError Info
stat_of h path = if path == "artifact" then err StatError.not_exist else ok file_info

abbrev one_byte : Stream
one_byte = Stream.last none (7 ∷ []) none

abbrev calm_env : Env
calm_env = record {
  context = λ h. none;
  stat = stat_of;
  open_file = λ h path. ok one_byte;
  mkdir_all = λ h path. none;
  mkdir_temp = λ h root version. ok "/tmp/release";
  create = λ h path mode. none;
  write = λ h path s. none;
  close = λ h path. none;
  chmod = λ h path mode. none;
  rename = λ h from to. none;
  remove_all = λ h path. none;
  get = λ h source. err "no network";
}

abbrev no_urls : Urls
no_urls = record {
  parse_request_uri = λ s. err "no address";
  parse = λ s. err "no address";
  resolve = λ from to. to;
  is_loopback = λ host. false;
}

abbrev entry : String → String → Entry
entry name value = record { key = Token.string name; value = ok (some value) }

abbrev release_document : Document
release_document = record {
  opening = Token.open_object;
  entries =
      entry "scannerId" "scanner-a"
      ∷ entry "workerVersion" "2.0.0"
      ∷ entry "signatureVersion" "7"
      ∷ entry "artifactPath" "/releases/artifact"
      ∷ entry "sha256" zero_digest
      ∷ [];
  closing = Token.close_object;
  trailing = Token.end_of_input;
}

abbrev one_document : Json
one_document = record { of_stream = λ s. release_document; of_bytes = λ s. release_document }

abbrev release : Release
release = record {
  scanner_id = "scanner-a";
  worker_version = "2.0.0";
  signature_version = "7";
  artifact_path = "/releases/artifact";
  sha256 = zero_digest;
}

abbrev prepared_release : PreparedRelease
prepared_release = record {
  manifest = release;
  manifest_path = "release.json";
  source_path = "/releases/artifact";
  staged_path = "artifact";
}

abbrev prepared_calls : History
prepared_calls =
    (prepare calm_env flat_host no_urls one_document "/etc/mini-av" "release.json" []).1

release_returned :
    (prepare calm_env flat_host no_urls one_document "/etc/mini-av" "release.json" []).0
    ≡ ok prepared_release
unfolding prepare is_blank is_remote_source decode_entries contains target check_fields
    safe_path_component has_separator byte_length equal_digest differs xor or repeated
release_returned = refl

release_prepared :
    prepare calm_env flat_host no_urls one_document "/etc/mini-av" "release.json" []
    ≡ (ok prepared_release, prepared_calls)
release_prepared = ap (λ r. (r, prepared_calls)) release_returned

prepare-IsVerified_example :
    IsVerified calm_env flat_host no_urls one_document prepared_release prepared_calls
prepare-IsVerified_example =
    prepare-IsVerified calm_env flat_host no_urls one_document "/etc/mini-av" "release.json" []
      prepared_release prepared_calls release_prepared

-- A file system that refuses to rename and to remove.
abbrev stuck_env : Env
stuck_env = record calm_env {
  rename = λ h from to. some "in use";
  remove_all = λ h path. some "in use";
}

abbrev stuck_calls : History
stuck_calls = (prepare stuck_env flat_host no_urls one_document "/etc/mini-av" "release.json" []).1

prepare-leftover_example :
    (leftover stuck_env
        (prepare stuck_env flat_host no_urls one_document "/etc/mini-av" "release.json" []).1
      ≡ [])
    × All
        (λ t.
          contains
            (refused stuck_env
              (prepare stuck_env flat_host no_urls one_document "/etc/mini-av" "release.json" []).1)
            t
          ≡ true)
        (remaining stuck_env
          (prepare stuck_env flat_host no_urls one_document "/etc/mini-av" "release.json" []).1)
unfolding leftover
prepare-leftover_example =
    prepare-leftover stuck_env flat_host no_urls one_document "/etc/mini-av" "release.json" [] refl

directory_remains : remaining stuck_env stuck_calls ≡ "/tmp/release" ∷ []
unfolding prepare is_blank is_remote_source decode_entries contains target check_fields
    safe_path_component has_separator byte_length equal_digest differs xor or repeated remaining
directory_remains = refl

validate_manifest-IsSafe_example :
    (validate_manifest flat_host release ≡ ok tt) ↔ IsSafe flat_host release
validate_manifest-IsSafe_example = validate_manifest-IsSafe flat_host release

abbrev one_digest : Bytes
one_digest = 1 ∷ 255 ∷ []

abbrev other_digest : Bytes
other_digest = 1 ∷ 254 ∷ []

equal_digest-equal_example :
    (equal_digest one_digest other_digest ≡ true) ↔ (one_digest ≡ other_digest)
equal_digest-equal_example =
    equal_digest-equal one_digest other_digest (omega arith, (omega arith, tt))
      (omega arith, (omega arith, tt))

release_decoded : decode_manifest release_document ≡ ok release
unfolding decode_manifest decode_entries contains target
release_decoded = refl

decode_manifest-value_at_example :
    release.worker_version ≡ value_at "workerVersion" "" release_document.entries
decode_manifest-value_at_example =
    decode_manifest-value_at release_document release Field.worker_version release_decoded
