-- ===== src/Protocol/Grammar.antt =====
-- The messages of the protocol as a typed grammar, which does not mention the code's checks, and
-- that Validate of pkg/protocol/protocol.go accepts all of it.
use mini_av.Prelude.{
  ℕ, String, ◌≡◌, ◌≢◌, refl, none, some, List, [], ◌∷◌, Bool, true, false, arith, All, and_false,
}
use text.Mathlib.TextEquality.{eq_iff}
use mini_av.Prelude.Equality.{contains, string_eq}
use mini_av.Prelude.Int.{ℤ}
use mini_av.Prelude.Text.{is_blank}
use mini_av.Protocol.{MessageType, Verdict, Message, new_message}
use mini_av.Protocol.Validate.{
  check_capabilities, check_required, validate_allowed_fields, validate,
}

pub data Outcome : Type 0 where
  clean malware error timeout unavailable : Outcome

unfoldable pub to_verdict : Outcome → Verdict
to_verdict Outcome.clean = Verdict.clean
to_verdict Outcome.malware = Verdict.malware
to_verdict Outcome.error = Verdict.error
to_verdict Outcome.timeout = Verdict.timeout
to_verdict Outcome.unavailable = Verdict.unavailable

-- A reload ends in a number of signatures, or in an error with a count.
pub data Body : Type 0 where
  hello health_check shutdown shutdown_ack : Body
  scan : ℕ → String → Body
  reload : String → Body
  hello_ack : String → String → List String → Body
  health_result : Bool → String → Body
  scan_result : ℕ → Outcome → String → ℕ → String → Body
  reload_result : Bool → ℕ → String → Body

abbrev status_of : Bool → String
status_of true = "ok"
status_of false = "error"

unfoldable pub to_message : Body → Message
unfolding to_verdict
to_message hello = new_message MessageType.hello
to_message health_check = new_message MessageType.health_check
to_message shutdown = new_message MessageType.shutdown
to_message shutdown_ack = new_message MessageType.shutdown_ack
to_message (scan id path) = record (new_message MessageType.scan) {
  request_id = id;
  file_path = path;
}
to_message (reload path) = record (new_message MessageType.reload) { signature_path = path }
to_message (hello_ack id version capabilities) = record (new_message MessageType.hello_ack) {
  scanner_id = id;
  worker_version = version;
  capabilities = some capabilities;
}
to_message (health_result healthy reason) = record (new_message MessageType.health_result) {
  status = status_of healthy;
  error = reason;
}
to_message (scan_result id outcome signature duration reason) =
    record (new_message MessageType.scan_result) {
      request_id = id;
      verdict = to_verdict outcome;
      signature = signature;
      duration_ms = ℤ.pos duration;
      error = reason;
    }
to_message (reload_result success count reason) = record (new_message MessageType.reload_result) {
  success = success;
  signature_count = ℤ.pos count;
  error = reason;
}

abbrev NonBlank : String → Type 0
NonBlank s = is_blank s ≡ false

abbrev Distinct : List String → Type 0
Distinct [] = Unit
Distinct (c ∷ cs) = (contains cs c ≡ false) × Distinct cs

abbrev pub IsComplete : Body → Type 0
IsComplete (scan id path) = (id ≢ 0) × NonBlank path
IsComplete (reload path) = NonBlank path
IsComplete (hello_ack id version capabilities) =
    NonBlank id × NonBlank version × All NonBlank capabilities × Distinct capabilities
IsComplete (scan_result id outcome signature duration reason) = id ≢ 0
IsComplete (reload_result false count reason) = NonBlank reason
IsComplete _ = Unit

abbrev Fresh : List String → List String → Type 0
Fresh seen cs = All (λ c. contains seen c ≡ false) cs

Fresh-cons :
    (c : String) (seen cs : List String)
    → contains cs c ≡ false
    → Fresh seen cs
    → Fresh (c ∷ seen) cs
unfolding contains
Fresh-cons c seen [] h f = tt
Fresh-cons c seen (d ∷ cs) h f = ground (arith, eq_iff c d, eq_iff d c, Fresh-cons c seen cs)

Fresh-uncons :
    (c : String) (seen cs : List String)
    → Fresh (c ∷ seen) cs
    → (contains cs c ≡ false) × Fresh seen cs
unfolding contains
Fresh-uncons c seen [] f = (refl, tt)
Fresh-uncons c seen (d ∷ cs) f = ground (arith, eq_iff c d, eq_iff d c, Fresh-uncons c seen cs f.1)

Fresh-nil : (cs : List String) → Fresh [] cs
unfolding contains
Fresh-nil [] = tt
Fresh-nil (c ∷ cs) = (refl, Fresh-nil cs)

check_capabilities_passes :
    (seen cs : List String)
    → All NonBlank cs
    → Distinct cs
    → Fresh seen cs
    → check_capabilities seen cs ≡ none
unfolding check_capabilities
check_capabilities_passes seen [] b d f = refl
check_capabilities_passes seen (c ∷ cs) b d f =
    rw (b.0, f.0) (check_capabilities_passes (c ∷ seen) cs b.1 d.1 (Fresh-cons c seen cs d.0 f.1))

pub check_capabilities_means :
    (seen cs : List String)
    → check_capabilities seen cs ≡ none
    → All NonBlank cs × Distinct cs × Fresh seen cs
unfolding check_capabilities
check_capabilities_means seen [] h = (tt, tt, tt)
check_capabilities_means seen (c ∷ cs) h =
    let later = check_capabilities_means (c ∷ seen) cs (ground arith) in
    let apart = Fresh-uncons c seen cs later.2 in
    ((ground arith, later.0), (apart.0, later.1), (ground arith, apart.1))

-- Every complete body is a message that Validate accepts.
pub validate-to_message : (b : Body) → IsComplete b → validate (to_message b) ≡ none
unfolding validate check_required validate_allowed_fields to_message
validate-to_message hello h = refl
validate-to_message health_check h = refl
validate-to_message shutdown h = refl
validate-to_message shutdown_ack h = refl
validate-to_message (scan id path) h = ground arith
validate-to_message (reload path) h = ground arith
validate-to_message (hello_ack id version capabilities) (i, v, b, d) =
    simp (i, v, check_capabilities_passes [] capabilities b d (Fresh-nil capabilities), and_false)
validate-to_message (health_result true reason) h = ground arith
validate-to_message (health_result false reason) h = ground arith
validate-to_message (scan_result id outcome signature duration reason) h = ground arith
validate-to_message (reload_result true count reason) h = ground arith
validate-to_message (reload_result false count reason) h = ground arith

-- A body whose list of capabilities, if it has one, is not empty.
abbrev pub HasCapabilities : Body → Type 0
HasCapabilities (hello_ack id version []) = ⊥
HasCapabilities _ = Unit

pub has_capabilities : (b : Body) → (to_message b).capabilities ≢ some [] → HasCapabilities b
unfolding to_message
has_capabilities (hello_ack id version []) h = h refl
has_capabilities (hello_ack id version (c ∷ cs)) h = tt
has_capabilities _ h = tt

-- Only a HELLO_ACK carries capabilities.
pub empty_is_ack :
    (b : Body)
    → (to_message b).capabilities ≡ some []
    → (id : String) × (version : String) × (b ≡ hello_ack id version [])
unfolding to_message
empty_is_ack (hello_ack id version []) h = (id, version, refl)
empty_is_ack (hello_ack id version (c ∷ cs)) h = absurd (ground arith)
empty_is_ack hello h = absurd (ground arith)
empty_is_ack _ h = absurd (ground arith)
