-- ===== src/Update/Calls.antt =====
-- What pkg/update/update.go asks of the operating system, of net/http and of its context. What a
-- call answers is any function of the calls before it, so that other processes may act in between.
use mini_av.Prelude.Actions
pub use mini_av.Prelude.Actions.{next, ◌>>=◌, ◌>>◌, done, refuse, returned, refuse_when, ask}
use mini_av.Prelude.{ℕ, String, Option, none, some, List, ◌∷◌, Bool, Result, ok, err}
use mini_av.Signatures.Bytes.{Bytes}
use mini_av.Update.Manifest.{ManifestError}

pub data Call : Type 0 where
  check_context : Call
  stat open_file mkdir_all close remove_all : String → Call
  mkdir_temp rename : String → String → Call
  create chmod : String → ℕ → Call
  write : String → Bytes → Call
  get : String → Call

-- The calls that were made, the last one first.
abbrev pub History : Type 0
History = List Call

-- os.ErrNotExist, or another error.
pub data StatError : Type 0 where
  not_exist : StatError
  failed : String → StatError

pub record Info : Type 0 where
  pub is_regular : Bool
  pub is_dir : Bool
  pub perm : ℕ

-- What the calls of Read return, each with what ctx.Err() returned before it: bytes and nil, until
-- the last one, which returns an error, `none` for io.EOF.
pub data Stream : Type 0 where
  more : Option String → Bytes → Stream → Stream
  last : Option String → Bytes → Option String → Stream

-- `content_length` is none where it is not known.
pub record Response : Type 0 where
  pub is_ok : Bool
  pub content_length : Option ℕ
  pub body : Stream

-- A Write that writes less than it is given returns an error. The code drops what RemoveAll answers.
pub record Env : Type 0 where
  pub context : History → Option String
  pub stat : History → String → Result StatError Info
  pub open_file : History → String → Result String Stream
  pub mkdir_all : History → String → Option String
  pub mkdir_temp : History → String → String → Result String String
  pub create : History → String → ℕ → Option String
  pub write : History → String → Bytes → Option String
  pub close : History → String → Option String
  pub chmod : History → String → ℕ → Option String
  pub rename : History → String → String → Option String
  pub remove_all : History → String → Option String
  pub get : History → String → Result String Response

pub data RemoteError : Type 0 where
  bad_url bad_reference : String → RemoteError
  bad_scheme user_or_fragment not_loopback not_relative other_origin : RemoteError
  bad_status too_large no_safe_name : RemoteError

pub data UpdateError : Type 0 where
  manifest : ManifestError → UpdateError
  system : Call → String → UpdateError
  irregular conflicting_permissions conflicting_digest no_file_name : String → UpdateError
  copy_failed : String → UpdateError
  changed empty_path : UpdateError
  resolve_failed not_a_directory digest_mismatch : String → UpdateError
  remote : RemoteError → UpdateError

-- A function of the code that makes calls (Prelude/Actions).
abbrev pub Action {ℓ} : Type ℓ → Type ℓ
Action A = Actions.Action Call UpdateError A

abbrev pub or_system {ℓ} : {A : Type ℓ} → Call → Result String A → Result UpdateError A
or_system call (ok a) = ok a
or_system call (err e) = err (UpdateError.system call e)

abbrev pub none_or : Call → Option String → Result UpdateError (Unit {0})
none_or call none = ok tt
none_or call (some e) = err (UpdateError.system call e)

-- A call whose error is returned.
abbrev pub call_value {ℓ} : {A : Type ℓ} → (History → Result String A) → Call → Action A
call_value answer call h = (or_system call (answer h), call ∷ h)

abbrev pub call_done : (History → Option String) → Call → Action (Unit {0})
call_done answer call h = (none_or call (answer h), call ∷ h)
