-- ===== src/Protocol/Accepted.antt =====
-- A message that Validate of pkg/protocol/protocol.go accepts is one of the grammar.
use mini_av.Prelude.{
  ℕ, String, ◌≡◌, ◌≢◌, ◌↔◌, refl, subst, Option, none, some, List, [], Bool, true, false, arith,
  Bool-cases, inl, inr,
}
use text.Mathlib.TextEquality.{eq_iff}
use mini_av.Prelude.Equality.{◌==◌, string_eq}
use mini_av.Prelude.Int.{ℤ, is_negative}
use mini_av.Protocol.{MessageType, Verdict, Message, valid_verdict}
use mini_av.Protocol.Validate.{check_required, validate_allowed_fields, validate}
use mini_av.Protocol.Grammar.{
  Outcome, Body, hello, health_check, shutdown, shutdown_ack, scan, reload, hello_ack,
  health_result, scan_result, reload_result, IsComplete, to_verdict, to_message,
  check_capabilities_means,
}

-- What the test of a text for being empty means, for the texts of a message.
abbrev IsTest : String → Type 0
IsTest s = ((s == "") ≡ true) ↔ (s ≡ "")

empty_texts :
    (m : Message)
    → IsTest m.scanner_id
      × IsTest m.worker_version
      × IsTest m.file_path
      × IsTest m.signature_path
      × IsTest m.status
      × IsTest m.signature
      × IsTest m.error
empty_texts m = (
  eq_iff m.scanner_id "",
  eq_iff m.worker_version "",
  eq_iff m.file_path "",
  eq_iff m.signature_path "",
  eq_iff m.status "",
  eq_iff m.signature "",
  eq_iff m.error "",
)

verdict-outcome : (v : Verdict) → valid_verdict v ≡ true → (o : Outcome) × (v ≡ to_verdict o)
unfolding valid_verdict to_verdict
verdict-outcome Verdict.unset h = cc
verdict-outcome Verdict.clean h = (Outcome.clean, refl)
verdict-outcome Verdict.malware h = (Outcome.malware, refl)
verdict-outcome Verdict.error h = (Outcome.error, refl)
verdict-outcome Verdict.timeout h = (Outcome.timeout, refl)
verdict-outcome Verdict.unavailable h = (Outcome.unavailable, refl)
verdict-outcome (Verdict.other s) h = cc

abbrev Reads : Message → Type 0
Reads m = (b : Body) × (m ≡ to_message b) × IsComplete b

health-Reads : (m : Message) → m.type ≡ MessageType.health_result → validate m ≡ none → Reads m
unfolding validate check_required validate_allowed_fields to_message
health-Reads m t h = elim (Bool-cases (m.status == "ok")) [
  | inl e ↦ (health_result true m.error, ground (arith, empty_texts m, eq_iff m.status "ok"), tt)
  | inr e ↦
      (health_result false m.error, ground (arith, empty_texts m, eq_iff m.status "error"), tt)
]

ack-Reads :
    (m : Message) (cs : Option (List String))
    → m.type ≡ MessageType.hello_ack
    → m.capabilities ≡ cs
    → validate m ≡ none
    → Reads m
unfolding validate check_required validate_allowed_fields to_message
ack-Reads m none t c h = absurd (ground arith)
ack-Reads m (some cs) t c h =
    let listed = check_capabilities_means [] cs (ground arith) in
    (
      hello_ack m.scanner_id m.worker_version cs,
      ground (arith, empty_texts m),
      (ground arith, ground arith, listed.0, listed.1),
    )

reload-Reads :
    (m : Message) (n : ℤ) (b : Bool)
    → m.type ≡ MessageType.reload_result
    → m.signature_count ≡ n
    → m.success ≡ b
    → validate m ≡ none
    → Reads m
unfolding validate check_required validate_allowed_fields to_message
reload-Reads m (ℤ.negsuc n) b t c s h = absurd (ground arith)
reload-Reads m (ℤ.pos n) true t c s h =
    (reload_result true n m.error, ground (arith, empty_texts m), tt)
reload-Reads m (ℤ.pos n) false t c s h =
    (reload_result false n m.error, ground (arith, empty_texts m), ground arith)

validate_parts :
    (m : Message)
    → validate m ≡ none
    → (m.version ≡ ℤ.pos 1) × (check_required m.type m ≡ none) × (validate_allowed_fields m ≡ none)
unfolding validate
validate_parts m h = ground arith

nonnegative : (z : ℤ) → is_negative z ≡ false → (n : ℕ) × (z ≡ ℤ.pos n)
nonnegative (ℤ.pos n) h = (n, refl)
nonnegative (ℤ.negsuc n) h = cc

result_required :
    (m : Message)
    → check_required MessageType.scan_result m ≡ none
    → (m.request_id ≢ 0) × (valid_verdict m.verdict ≡ true) × ((n : ℕ) × (m.duration_ms ≡ ℤ.pos n))
unfolding check_required
result_required m h = (ground arith, ground arith, nonnegative m.duration_ms (ground arith))

result_cleared :
    (m : Message)
    → m.type ≡ MessageType.scan_result
    → validate_allowed_fields m ≡ none
    → (m.scanner_id ≡ "")
      × (m.worker_version ≡ "")
      × (m.capabilities ≡ none)
      × (m.file_path ≡ "")
      × (m.signature_path ≡ "")
      × (m.status ≡ "")
      × (m.success ≡ false)
      × (m.signature_count ≡ ℤ.pos 0)
unfolding validate_allowed_fields
result_cleared m t h = ground (arith, empty_texts m)

result-Reads : (m : Message) → m.type ≡ MessageType.scan_result → validate m ≡ none → Reads m
unfolding to_message
result-Reads m t h =
    let parts = validate_parts m h in
    let clear = result_cleared m t parts.2 in
    let required = result_required m (subst (λ k. check_required k m ≡ none) t parts.1) in
    let (o, e) = verdict-outcome m.verdict required.1 in
    (scan_result m.request_id o m.signature required.2.0 m.error, ground arith, required.0)

type-Reads : (t : MessageType) (m : Message) → m.type ≡ t → validate m ≡ none → Reads m
unfolding validate check_required validate_allowed_fields to_message
type-Reads MessageType.unset m t h = absurd (ground arith)
type-Reads (MessageType.other s) m t h = absurd (ground arith)
type-Reads MessageType.hello m t h = (hello, ground (arith, empty_texts m), tt)
type-Reads MessageType.health_check m t h = (health_check, ground (arith, empty_texts m), tt)
type-Reads MessageType.shutdown m t h = (shutdown, ground (arith, empty_texts m), tt)
type-Reads MessageType.shutdown_ack m t h = (shutdown_ack, ground (arith, empty_texts m), tt)
type-Reads MessageType.scan m t h =
    (scan m.request_id m.file_path, ground (arith, empty_texts m), (ground arith, ground arith))
type-Reads MessageType.reload m t h =
    (reload m.signature_path, ground (arith, empty_texts m), ground arith)
type-Reads MessageType.hello_ack m t h = ack-Reads m m.capabilities t refl h
type-Reads MessageType.health_result m t h = health-Reads m t h
type-Reads MessageType.scan_result m t h = result-Reads m t h
type-Reads MessageType.reload_result m t h =
    reload-Reads m m.signature_count m.success t refl refl h

-- A message that Validate accepts is one of the grammar: the fields of its type are complete, and
-- every other field has its zero value.
pub validate-Body :
    (m : Message) → validate m ≡ none → (b : Body) × (m ≡ to_message b) × IsComplete b
validate-Body m h = type-Reads m.type m refl h
