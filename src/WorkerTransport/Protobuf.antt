-- ===== src/WorkerTransport/Protobuf.antt =====
-- ToProto and FromProto of pkg/workertransport/protobuf.go, between the messages of the protocol
-- and the struct that protoc makes of api/scanner/v1/scanner.proto.
use mini_av.Prelude.{
  ℕ, String, Option, none, some, List, ◌∷◌, Bool, true, false, ◌&&◌, ◌||◌, not, if◌then◌else◌,
  is_some, Result, ok, err,
}
use mini_av.Prelude.Int.{ℤ, is_zero, exceeds, to_int32}
use mini_av.Protocol
use mini_av.Protocol.{MessageType, Message}
use mini_av.Protocol.Validate.{ProtocolError, validate}

-- The enumeration is open: any int32 may stand in the field.
pub data ProtoVerdict : Type 0 where
  unspecified clean malware error timeout unavailable : ProtoVerdict
  unknown : ℤ → ProtoVerdict

-- `optional` fields are pointers; a nil slice is `none`.
pub record ProtoMessage : Type 0 where
  pub version : ℤ
  pub type : MessageType
  pub request_id : ℕ
  pub scanner_id : String
  pub worker_version : String
  pub capabilities : Option (List String)
  pub file_path : String
  pub signature_path : String
  pub status : String
  pub verdict : ProtoVerdict
  pub signature : String
  pub duration_ms : Option ℤ
  pub success : Option Bool
  pub signature_count : Option ℤ
  pub error : String

pub data ConversionError : Type 0 where
  invalid : ProtocolError → ConversionError
  count_too_large nil_message requires_duration requires_success requires_count : ConversionError
  duration_not_allowed reload_fields_not_allowed : MessageType → ConversionError
  unknown_verdict : ℤ → ConversionError

-- math.MaxInt32
abbrev pub max_int32 : ℕ
max_int32 = 2_147_483_647

unfoldable pub verdict_to_proto : Protocol.Verdict → ProtoVerdict
verdict_to_proto Protocol.Verdict.clean = ProtoVerdict.clean
verdict_to_proto Protocol.Verdict.malware = ProtoVerdict.malware
verdict_to_proto Protocol.Verdict.error = ProtoVerdict.error
verdict_to_proto Protocol.Verdict.timeout = ProtoVerdict.timeout
verdict_to_proto Protocol.Verdict.unavailable = ProtoVerdict.unavailable
verdict_to_proto _ = ProtoVerdict.unspecified

unfoldable pub verdict_from_proto : ProtoVerdict → Result ConversionError Protocol.Verdict
verdict_from_proto ProtoVerdict.unspecified = ok Protocol.Verdict.unset
verdict_from_proto ProtoVerdict.clean = ok Protocol.Verdict.clean
verdict_from_proto ProtoVerdict.malware = ok Protocol.Verdict.malware
verdict_from_proto ProtoVerdict.error = ok Protocol.Verdict.error
verdict_from_proto ProtoVerdict.timeout = ok Protocol.Verdict.timeout
verdict_from_proto ProtoVerdict.unavailable = ok Protocol.Verdict.unavailable
verdict_from_proto (ProtoVerdict.unknown n) = err (ConversionError.unknown_verdict n)

-- append([]string(nil), slice...), which is nil where nothing is appended.
abbrev pub copy_slice : Option (List String) → Option (List String)
copy_slice (some (c ∷ cs)) = some (c ∷ cs)
copy_slice _ = none

abbrev pub is_scan_result : MessageType → Bool
is_scan_result MessageType.scan_result = true
is_scan_result _ = false

abbrev pub is_reload_result : MessageType → Bool
is_reload_result MessageType.reload_result = true
is_reload_result _ = false

-- The pointers that ToProto sets, by the type.
abbrev proto_count : Bool → ℤ → Option ℤ
proto_count success count = if success || not (is_zero count) then some (to_int32 count) else none

unfoldable pub payload_of : Message → ProtoMessage
unfolding verdict_to_proto
payload_of m = record {
  version = to_int32 m.version;
  type = m.type;
  request_id = m.request_id;
  scanner_id = m.scanner_id;
  worker_version = m.worker_version;
  capabilities = copy_slice m.capabilities;
  file_path = m.file_path;
  signature_path = m.signature_path;
  status = m.status;
  verdict = verdict_to_proto m.verdict;
  signature = m.signature;
  duration_ms = if is_scan_result m.type then some m.duration_ms else none;
  success = if is_reload_result m.type then some m.success else none;
  signature_count =
      if is_reload_result m.type then proto_count m.success m.signature_count else none;
  error = m.error;
}

unfoldable pub to_proto : Message → Result ConversionError ProtoMessage
to_proto m = elim (validate m) [
  | some e ↦ err (ConversionError.invalid e)
  | none ↦
      if is_reload_result m.type && exceeds m.signature_count max_int32
      then err ConversionError.count_too_large
      else ok (payload_of m)
]

-- The tests on a RELOAD_RESULT's pointers.
abbrev check_reload : Option Bool → Option ℤ → Option ConversionError
check_reload none count = some ConversionError.requires_success
check_reload (some true) none = some ConversionError.requires_count
check_reload _ count = none

abbrev or_else : Option ConversionError → Option ConversionError → Option ConversionError
or_else none later = later
or_else (some e) later = some e

unfoldable pub validate_proto_presence : ProtoMessage → Option ConversionError
validate_proto_presence p =
    if is_scan_result p.type && not (is_some p.duration_ms)
    then some ConversionError.requires_duration
    else or_else
        (if is_reload_result p.type then check_reload p.success p.signature_count else none)
        (if not (is_scan_result p.type) && is_some p.duration_ms
          then some (ConversionError.duration_not_allowed p.type)
          else if not (is_reload_result p.type) && (is_some p.success || is_some p.signature_count)
          then some (ConversionError.reload_fields_not_allowed p.type)
          else none)

abbrev pub or_zero {ℓ} : {A : Type ℓ} → A → Option A → A
or_zero z none = z
or_zero z (some a) = a

unfoldable pub message_from : ProtoMessage → Protocol.Verdict → Message
message_from p verdict = record {
  version = p.version;
  type = p.type;
  request_id = p.request_id;
  scanner_id = p.scanner_id;
  worker_version = p.worker_version;
  capabilities = copy_slice p.capabilities;
  file_path = p.file_path;
  signature_path = p.signature_path;
  status = p.status;
  verdict = verdict;
  signature = p.signature;
  duration_ms = or_zero (ℤ.pos 0) p.duration_ms;
  success = or_zero false p.success;
  signature_count = or_zero (ℤ.pos 0) p.signature_count;
  error = p.error;
}

abbrev accept : Message → Option ProtocolError → Result ConversionError Message
accept m none = ok m
accept m (some e) = err (ConversionError.invalid e)

abbrev with_verdict :
    Result ConversionError Protocol.Verdict
    → (Protocol.Verdict → Result ConversionError Message)
    → Result ConversionError Message
with_verdict (err e) rest = err e
with_verdict (ok v) rest = rest v

-- `none` is a nil pointer.
unfoldable pub from_proto : Option ProtoMessage → Result ConversionError Message
from_proto none = err ConversionError.nil_message
from_proto (some p) = elim (validate_proto_presence p) [
  | some e ↦ err e
  | none ↦
      with_verdict (verdict_from_proto p.verdict)
        λ v. accept (message_from p v) (validate (message_from p v))
]
