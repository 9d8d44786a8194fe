-- ===== src/Update.antt =====
-- pkg/update/update.go: the release of a worker is checked and staged. The packages strings,
-- path/filepath and crypto/sha256 are parameters where Host says so, and the file system, the
-- context and net/http answer the calls of the code (Update/Calls).
pub mod Manifest
pub mod Digest
pub mod Calls
pub mod Staging
pub mod Remote
pub mod Prepare
pub mod Leftover
pub mod Remaining
pub mod Written
pub mod Reused
pub mod Published
pub mod Verified
pub mod Safe
pub mod Cleaned
pub mod Fields
use mini_av.Prelude.{String, Bool, Result}
use mini_av.Signatures.Bytes.{Bytes}

-- The type Manifest.
pub record Release : Type 0 where
  pub scanner_id : String
  pub worker_version : String
  pub signature_version : String
  pub artifact_path : String
  pub sha256 : String

pub record PreparedRelease : Type 0 where
  pub manifest : Release
  pub manifest_path : String
  pub source_path : String
  pub staged_path : String

-- strings.ToLower and TrimSpace, filepath.IsAbs, Abs, Clean, Join, Base and VolumeName, path.Base, and
-- sha256.Sum256.
pub record Host : Type 0 where
  pub to_lower : String → String
  pub trim_space : String → String
  pub is_abs : String → Bool
  pub clean : String → String
  pub join : String → String → String
  pub base : String → String
  pub volume_name : String → String
  pub url_base : String → String
  pub abs : String → Result String String
  pub sha256 : Bytes → Bytes
