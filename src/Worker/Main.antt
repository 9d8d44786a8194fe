-- ===== src/Worker/Main.antt =====
-- pkg/worker/main.go: the flags of a scanner program and its exit code, and
-- cmd/scanner-a, cmd/scanner-b and cmd/scanner-c. What FlagSet.Parse of the
-- package flag does is written out; strconv is a parameter.
use Prim.Native.Char.{Char, code}
use mini_av.Prelude.{
  ℕ, String, Option, none, some, List, [], ◌∷◌, Bool, true, false, not, ◌||◌, if◌then◌else◌,
  nat_beq, length, Result, ok, err, ◌>>=◌,
}
use mini_av.Prelude.Equality.{◌==◌, string_eq}
use mini_av.Prelude.Table.{Table, lookup}
use mini_av.Prelude.Int.{ℤ}
use mini_av.WorkerTransport.Connections.{stdio, socket, grpc}
use mini_av.Config.Check.{milliseconds}
use mini_av.Worker.{Settings, SettingsError, validate_config}

pub data Flag : Type 0 where
  worker_version signatures delay crash_on_scan fail_health listen : Flag

pub record WorkerFlags : Type 0 where
  pub worker_version : String
  pub signatures : String
  pub delay : ℤ
  pub crash_on_scan : Bool
  pub fail_health : Bool
  pub listen : String

-- The defaults.
abbrev pub default_flags : WorkerFlags
default_flags = record {
  worker_version = "1.0.0";
  signatures = "";
  delay = ℤ.pos 0;
  crash_on_scan = false;
  fail_health = false;
  listen = "127.0.0.1:0";
}

abbrev pub known_flags : Table String Flag
known_flags =
    ("worker-version", Flag.worker_version)
    ∷ ("signatures", Flag.signatures)
    ∷ ("delay", Flag.delay)
    ∷ ("crash-on-scan", Flag.crash_on_scan)
    ∷ ("fail-health", Flag.fail_health)
    ∷ ("listen", Flag.listen)
    ∷ []

-- An argument: not a flag, `--`, a malformed flag, or a flag's name with what follows `=`.
pub data Argument : Type 0 where
  positional terminator malformed : Argument
  option : String → Option String → Argument

abbrev is_dash : Char → Bool
is_dash c = nat_beq (code c) b'-'

abbrev is_equals : Char → Bool
is_equals c = nat_beq (code c) b'='

-- The text up to the first `=`, and what is after it.
unfoldable pub split_equals : String → String × Option String
split_equals String.[] = (String.[], none)
split_equals (String.◌∷◌ c s) =
    let rest = split_equals s in
    if is_equals c then (String.[], some s) else (String.◌∷◌ c rest.0, rest.1)

-- The name after the dashes.
unfoldable pub named : String → Argument
unfolding split_equals
named String.[] = Argument.malformed
named (String.◌∷◌ c s) =
    let parts = split_equals s in
    if is_dash c || is_equals c
    then Argument.malformed
    else Argument.option (String.◌∷◌ c parts.0) parts.1

abbrev after_dash : String → Argument
after_dash String.[] = Argument.positional
after_dash (String.◌∷◌ c s) =
    if is_dash c then (if s == "" then Argument.terminator else named s) else named (String.◌∷◌ c s)

unfoldable pub read_argument : String → Argument
unfolding named
read_argument String.[] = Argument.positional
read_argument (String.◌∷◌ c s) = if is_dash c then after_dash s else Argument.positional

pub data FlagError : Type 0 where
  bad_syntax unknown missing_value bad_value : String → FlagError

abbrev is_bool_flag : Flag → Bool
is_bool_flag Flag.crash_on_scan = true
is_bool_flag Flag.fail_health = true
is_bool_flag f = false

-- strconv.ParseInt and ParseBool.
pub record Numbers : Type 0 where
  pub parse_int : String → Option ℤ
  pub parse_bool : String → Option Bool

abbrev or_bad {ℓ} : {A : Type ℓ} → String → Option A → Result FlagError A
or_bad text none = err (FlagError.bad_value text)
or_bad text (some a) = ok a

module _ (numbers : Numbers) where
  unfoldable pub set_flag : Flag → String → WorkerFlags → Result FlagError WorkerFlags
  set_flag Flag.worker_version v f = ok (record f { worker_version = v })
  set_flag Flag.signatures v f = ok (record f { signatures = v })
  set_flag Flag.listen v f = ok (record f { listen = v })
  set_flag Flag.delay v f = do n ← or_bad v (numbers.parse_int v); ok (record f { delay = n })
  set_flag Flag.crash_on_scan v f = do
    b ← or_bad v (numbers.parse_bool v)
    ok (record f { crash_on_scan = b })
  set_flag Flag.fail_health v f = do
    b ← or_bad v (numbers.parse_bool v)
    ok (record f { fail_health = b })

  abbrev set_true : Flag → WorkerFlags → WorkerFlags
  set_true Flag.crash_on_scan f = record f { crash_on_scan = true }
  set_true Flag.fail_health f = record f { fail_health = true }
  set_true flag f = f

  abbrev pub Parse : Type 0
  Parse = WorkerFlags → Result FlagError (WorkerFlags × List String)

  -- A flag, with the parse of the arguments after it, and the text and the parse after the next one.
  abbrev parse_flag : String → Option Flag → Option String → Parse → Option (String × Parse) → Parse
  parse_flag name none value one two f = err (FlagError.unknown name)
  parse_flag name (some flag) (some v) one two f = set_flag flag v f >>= one
  parse_flag name (some flag) none one two f = elim two [
    | none ↦ if is_bool_flag flag then one (set_true flag f) else err (FlagError.missing_value name)
    | some next ↦
        if is_bool_flag flag then one (set_true flag f) else set_flag flag next.0 f >>= next.1
  ]

  abbrev parse_argument : String → List String → Argument → Parse → Option (String × Parse) → Parse
  parse_argument arg rest Argument.positional one two f = ok (f, arg ∷ rest)
  parse_argument arg rest Argument.terminator one two f = ok (f, rest)
  parse_argument arg rest Argument.malformed one two f = err (FlagError.bad_syntax arg)
  parse_argument arg rest (Argument.option name value) one two f =
      parse_flag name (lookup name known_flags) value one two f

  -- The flags that the arguments set, and the arguments that are left.
  unfoldable pub parse_flags : List String → Parse
  unfolding read_argument set_flag lookup
  parse_flags [] f = ok (f, [])
  parse_flags (arg ∷ []) f = parse_argument arg [] (read_argument arg) (λ g. ok (g, [])) none f
  parse_flags (arg ∷ value ∷ rest) f =
      let one : Parse = parse_flags (value ∷ rest) in
      let two : Parse = parse_flags rest in
      parse_argument arg (value ∷ rest) (read_argument arg) one (some (value, two)) f

-- The struct Config that Main fills.
unfoldable pub settings_of : String → WorkerFlags → Settings
unfolding milliseconds
settings_of scanner_id f = record {
  scanner_id = scanner_id;
  worker_version = f.worker_version;
  signature_path = f.signatures;
  delay = milliseconds f.delay;
  crash_on_scan = f.crash_on_scan;
  fail_health = f.fail_health;
}

-- What Run and Serve return for the settings, `none` for nil.
pub record Servers : Type 0 where
  pub run : Settings → Option String
  pub serve : String → String → Settings → Option String

abbrev exit_code : Option String → ℕ
exit_code none = 0
exit_code (some e) = 1

abbrev started : Servers → String → Settings → WorkerFlags → Option String
started servers transport settings f =
    let run = servers.run settings in
    let serve = servers.serve transport f.listen settings in
    if transport == stdio then run else serve

abbrev served : Servers → String → String → Result FlagError (WorkerFlags × List String) → ℕ
served servers scanner_id transport (err e) = 2
served servers scanner_id transport (ok (f, rest)) =
    if not (nat_beq (length rest) 0)
    then 2
    else exit_code (started servers transport (settings_of scanner_id f) f)

-- The exit code of a scanner program with its arguments.
unfoldable pub main : Numbers → Servers → String → String → List String → ℕ
unfolding parse_flags settings_of
main numbers servers scanner_id transport args =
    served servers scanner_id transport (parse_flags numbers args default_flags)

unfoldable pub scanner_a : Numbers → Servers → List String → ℕ
unfolding main
scanner_a numbers servers args = main numbers servers "scanner-a" stdio args

unfoldable pub scanner_b : Numbers → Servers → List String → ℕ
unfolding main
scanner_b numbers servers args = main numbers servers "scanner-b" socket args

unfoldable pub scanner_c : Numbers → Servers → List String → ℕ
unfolding main
scanner_c numbers servers args = main numbers servers "scanner-c" grpc args

-- Run of pkg/worker/worker.go, from what RunSession returns: the input and the output are not nil.
unfoldable pub run :
    (SettingsError → String) → (Settings → Option String) → Settings → Option String
unfolding validate_config
run text session config = elim (validate_config config) [
  | some e ↦ some (text e)
  | none ↦ session config
]
