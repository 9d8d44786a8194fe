-- ===== src/Protocol/Validate.antt =====
-- Validate, validateAllowedFields and fieldAllowed of pkg/protocol/protocol.go. An error is a
-- value with the parts of its text; `none` is a nil error.
use mini_av.Prelude.{
  String, Option, none, some, List, [], ◌∷◌, Bool, true, false, ◌&&◌, not, if◌then◌else◌, is_some,
  nat_beq,
}
use mini_av.Prelude.Equality.{◌==◌, contains, string_eq}
use mini_av.Prelude.Int.{ℤ, is_negative, is_zero}
use mini_av.Prelude.Text.{is_blank}
use mini_av.Protocol.{MessageType, Verdict, Message, protocol_version, valid_verdict}

pub data Field : Type 0 where
  request_id scanner_id worker_version capabilities file_path signature_path status verdict
        signature duration_ms success signature_count error :
      Field

pub data ProtocolError : Type 0 where
  bad_version : ℤ → ProtocolError
  requires_request_id requires_file_path requires_signature_path requires_scanner_id
        requires_worker_version requires_capabilities empty_capability bad_status requires_duration
        requires_success requires_count negative_duration negative_count requires_error
        requires_type :
      ProtocolError
  duplicate_capability unknown_type : String → ProtocolError
  bad_verdict : Verdict → ProtocolError
  field_not_allowed : MessageType → Field → ProtocolError

unfoldable pub field_allowed : MessageType → Field → Bool
field_allowed MessageType.scan Field.request_id = true
field_allowed MessageType.scan Field.file_path = true
field_allowed MessageType.reload Field.signature_path = true
field_allowed MessageType.hello_ack Field.scanner_id = true
field_allowed MessageType.hello_ack Field.worker_version = true
field_allowed MessageType.hello_ack Field.capabilities = true
field_allowed MessageType.health_result Field.status = true
field_allowed MessageType.health_result Field.error = true
field_allowed MessageType.scan_result Field.request_id = true
field_allowed MessageType.scan_result Field.verdict = true
field_allowed MessageType.scan_result Field.signature = true
field_allowed MessageType.scan_result Field.duration_ms = true
field_allowed MessageType.scan_result Field.error = true
field_allowed MessageType.reload_result Field.success = true
field_allowed MessageType.reload_result Field.signature_count = true
field_allowed MessageType.reload_result Field.error = true
field_allowed _ _ = false

-- The loop of validateAllowedFields and of validateWireFieldPlacement.
unfoldable pub check_placement : MessageType → List (Field × Bool) → Option ProtocolError
unfolding field_allowed
check_placement t [] = none
check_placement t ((f, present) ∷ rest) =
    let later = check_placement t rest in
    if present && not (field_allowed t f) then some (ProtocolError.field_not_allowed t f) else later

abbrev verdict_set : Verdict → Bool
verdict_set Verdict.unset = false
verdict_set _ = true

abbrev text_set : String → Bool
text_set s = not (s == "")

unfoldable pub validate_allowed_fields : Message → Option ProtocolError
unfolding check_placement
validate_allowed_fields m = check_placement m.type (
    (Field.request_id, not (nat_beq m.request_id 0))
    ∷ (Field.scanner_id, text_set m.scanner_id)
    ∷ (Field.worker_version, text_set m.worker_version)
    ∷ (Field.capabilities, is_some m.capabilities)
    ∷ (Field.file_path, text_set m.file_path)
    ∷ (Field.signature_path, text_set m.signature_path)
    ∷ (Field.status, text_set m.status)
    ∷ (Field.verdict, verdict_set m.verdict)
    ∷ (Field.signature, text_set m.signature)
    ∷ (Field.duration_ms, not (is_zero m.duration_ms))
    ∷ (Field.success, m.success)
    ∷ (Field.signature_count, not (is_zero m.signature_count))
    ∷ (Field.error, text_set m.error)
    ∷ [])

-- The loop over the capabilities of a HELLO_ACK, with the set of those seen.
unfoldable pub check_capabilities : List String → List String → Option ProtocolError
check_capabilities seen [] = none
check_capabilities seen (c ∷ rest) =
    let later = check_capabilities (c ∷ seen) rest in
    if is_blank c
    then some ProtocolError.empty_capability
    else if contains seen c
    then some (ProtocolError.duplicate_capability c)
    else later

abbrev check_capability_slice : Option (List String) → Option ProtocolError
check_capability_slice none = some ProtocolError.requires_capabilities
check_capability_slice (some cs) = check_capabilities [] cs

-- The switch on the type.
unfoldable pub check_required : MessageType → Message → Option ProtocolError
unfolding check_capabilities valid_verdict
check_required MessageType.hello m = none
check_required MessageType.health_check m = none
check_required MessageType.shutdown m = none
check_required MessageType.shutdown_ack m = none
check_required MessageType.scan m =
    if nat_beq m.request_id 0
    then some ProtocolError.requires_request_id
    else if is_blank m.file_path
    then some ProtocolError.requires_file_path
    else none
check_required MessageType.reload m =
    if is_blank m.signature_path then some ProtocolError.requires_signature_path else none
check_required MessageType.hello_ack m =
    if is_blank m.scanner_id
    then some ProtocolError.requires_scanner_id
    else if is_blank m.worker_version
    then some ProtocolError.requires_worker_version
    else check_capability_slice m.capabilities
check_required MessageType.health_result m =
    if not (m.status == "ok") && not (m.status == "error")
    then some ProtocolError.bad_status
    else none
check_required MessageType.scan_result m =
    if nat_beq m.request_id 0
    then some ProtocolError.requires_request_id
    else if not (valid_verdict m.verdict)
    then some (ProtocolError.bad_verdict m.verdict)
    else if is_negative m.duration_ms
    then some ProtocolError.negative_duration
    else none
check_required MessageType.reload_result m =
    if is_negative m.signature_count
    then some ProtocolError.negative_count
    else if not m.success && is_blank m.error
    then some ProtocolError.requires_error
    else none
check_required MessageType.unset m = some ProtocolError.requires_type
check_required (MessageType.other t) m =
    if is_blank t then some ProtocolError.requires_type else some (ProtocolError.unknown_type t)

abbrev is_current : ℤ → Bool
is_current (ℤ.pos n) = nat_beq n protocol_version
is_current (ℤ.negsuc n) = false

abbrev or_else : Option ProtocolError → Option ProtocolError → Option ProtocolError
or_else none later = later
or_else (some e) later = some e

unfoldable pub validate : Message → Option ProtocolError
validate m =
    if is_current m.version
    then or_else (check_required m.type m) (validate_allowed_fields m)
    else some (ProtocolError.bad_version m.version)
