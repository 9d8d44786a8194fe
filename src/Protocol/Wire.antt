-- ===== src/Protocol/Wire.antt =====
-- wireMessage, toWire, fromWire, Marshal and Unmarshal of pkg/protocol/protocol.go. The package
-- encoding/json is a parameter: its values of type `Payload` are byte sequences.
use mini_av.Prelude.{
  ℕ, String, ◌≡◌, Option, none, some, List, [], ◌∷◌, Bool, true, false, ◌||◌, not, if◌then◌else◌,
  is_some, Result, ok, err,
}
use mini_av.Prelude.Int.{ℤ, is_zero}
use mini_av.Protocol.{MessageType, Verdict, Message}
use mini_av.Protocol.Validate.{Field, ProtocolError, check_placement, validate}

-- A field that is a pointer in Go is an `Option`.
pub record WireMessage : Type 0 where
  pub version : ℤ
  pub type : MessageType
  pub request_id : Option ℕ
  pub scanner_id : String
  pub worker_version : String
  pub capabilities : Option (List String)
  pub file_path : String
  pub signature_path : String
  pub status : String
  pub verdict : Verdict
  pub signature : String
  pub duration_ms : Option ℤ
  pub success : Option Bool
  pub signature_count : Option ℤ
  pub error : String

pub data WireError : Type 0 where
  invalid : ProtocolError → WireError
  encode_failed decode_failed multiple_values : WireError

-- What a second `Decode` into `any` finds after the first value.
pub data Trailer : Type 0 where
  end_of_input value malformed : Trailer

-- json.Marshal, the first `Decode` with DisallowUnknownFields, and the second one.
pub record Json : Type 1 where
  pub Payload : Type 0
  pub marshal : WireMessage → Option Payload
  pub decode : Payload → Option (WireMessage × Payload)
  pub decode_any : Payload → Trailer

-- `omitempty` leaves a slice of length 0 out, so it is nil when it is read back. A text, a number
-- or a nil pointer that is left out is read back as it was.
abbrev pub omit_empty_slice : Option (List String) → Option (List String)
omit_empty_slice (some (c ∷ cs)) = some (c ∷ cs)
omit_empty_slice _ = none

abbrev pub omit_empty : WireMessage → WireMessage
omit_empty w = record w { capabilities = omit_empty_slice w.capabilities }

-- What the documentation of encoding/json says of the struct's tags: it encodes every such value,
-- and decodes what it encoded, to the end of the input.
pub record IsJson (j : Json) : Type 0 where
  pub encodes : (w : WireMessage) → (p : j.Payload) × (j.marshal w ≡ some p)
  pub decodes :
      (w : WireMessage) (p : j.Payload)
      → j.marshal w ≡ some p
      → (rest : j.Payload) × (j.decode p ≡ some (omit_empty w, rest))
        × (j.decode_any rest ≡ Trailer.end_of_input)

-- The pointers that toWire sets, by the type.
abbrev wire_request_id : MessageType → ℕ → Option ℕ
wire_request_id MessageType.scan id = some id
wire_request_id MessageType.scan_result id = some id
wire_request_id _ id = none

abbrev wire_duration : MessageType → ℤ → Option ℤ
wire_duration MessageType.scan_result d = some d
wire_duration _ d = none

abbrev wire_success : MessageType → Bool → Option Bool
wire_success MessageType.reload_result b = some b
wire_success _ b = none

abbrev wire_count : MessageType → Bool → ℤ → Option ℤ
wire_count MessageType.reload_result b n = if b || not (is_zero n) then some n else none
wire_count _ b n = none

unfoldable pub to_wire : Message → WireMessage
to_wire m = record {
  version = m.version;
  type = m.type;
  request_id = wire_request_id m.type m.request_id;
  scanner_id = m.scanner_id;
  worker_version = m.worker_version;
  capabilities = m.capabilities;
  file_path = m.file_path;
  signature_path = m.signature_path;
  status = m.status;
  verdict = m.verdict;
  signature = m.signature;
  duration_ms = wire_duration m.type m.duration_ms;
  success = wire_success m.type m.success;
  signature_count = wire_count m.type m.success m.signature_count;
  error = m.error;
}

abbrev or_zero {ℓ} : {A : Type ℓ} → A → Option A → A
or_zero z none = z
or_zero z (some a) = a

unfoldable pub from_wire : WireMessage → Message
from_wire w = record {
  version = w.version;
  type = w.type;
  request_id = or_zero 0 w.request_id;
  scanner_id = w.scanner_id;
  worker_version = w.worker_version;
  capabilities = w.capabilities;
  file_path = w.file_path;
  signature_path = w.signature_path;
  status = w.status;
  verdict = w.verdict;
  signature = w.signature;
  duration_ms = or_zero (ℤ.pos 0) w.duration_ms;
  success = or_zero false w.success;
  signature_count = or_zero (ℤ.pos 0) w.signature_count;
  error = w.error;
}

unfoldable pub validate_wire_field_placement : WireMessage → Option ProtocolError
unfolding check_placement
validate_wire_field_placement w = check_placement w.type (
    (Field.request_id, is_some w.request_id)
    ∷ (Field.duration_ms, is_some w.duration_ms)
    ∷ (Field.success, is_some w.success)
    ∷ (Field.signature_count, is_some w.signature_count)
    ∷ [])

-- The two switches, of which a type takes at most one error.
unfoldable pub check_required_wire :
    MessageType → Option ℕ → Option ℤ → Option Bool → Option ℤ → Option ProtocolError
check_required_wire MessageType.scan none d s n = some ProtocolError.requires_request_id
check_required_wire MessageType.scan_result none d s n = some ProtocolError.requires_request_id
check_required_wire MessageType.scan_result (some id) none s n =
    some ProtocolError.requires_duration
check_required_wire MessageType.reload_result id d none n = some ProtocolError.requires_success
check_required_wire MessageType.reload_result id d (some true) none =
    some ProtocolError.requires_count
check_required_wire _ id d s n = none

unfoldable pub validate_required_wire_fields : WireMessage → Option ProtocolError
unfolding check_required_wire
validate_required_wire_fields w =
    check_required_wire w.type w.request_id w.duration_ms w.success w.signature_count

abbrev reject {ℓ} : {A : Type ℓ} → Option ProtocolError → Result WireError A → Result WireError A
reject none rest = rest
reject (some e) rest = err (WireError.invalid e)

-- requireEnd
abbrev require_end {ℓ} : {A : Type ℓ} → Trailer → Result WireError A → Result WireError A
require_end Trailer.end_of_input rest = rest
require_end Trailer.value rest = err WireError.multiple_values
require_end Trailer.malformed rest = err WireError.decode_failed

module _ (j : Json) where
  open j use {Payload, marshal as json_marshal, decode, decode_any}

  unfoldable pub marshal : Message → Result WireError Payload
  marshal m =
      reject (validate m)
        (elim (json_marshal (to_wire m)) [ none ↦ err WireError.encode_failed | some p ↦ ok p ])

  unfoldable pub unmarshal : Payload → Result WireError Message
  unmarshal p = elim (decode p) [
    | none ↦ err WireError.decode_failed
    | some (w, rest) ↦ require_end (decode_any rest) (
        reject (validate_wire_field_placement w) (
          reject (validate_required_wire_fields w)
            (reject (validate (from_wire w)) (ok (from_wire w)))))
  ]
