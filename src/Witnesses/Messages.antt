-- ===== src/Witnesses/Messages.antt =====
-- Messages of pkg/protocol/protocol.go, and a codec that writes the value itself.
use mini_av.Prelude.{◌≡◌, refl, subst, Option, none, some, [], ◌∷◌, arith, ok, err}
use mini_av.Prelude.Equality.{string_eq, contains}
use mini_av.Prelude.Text.{is_blank}
use mini_av.Protocol.{MessageType, Message, new_message}
use mini_av.Protocol.Validate.{ProtocolError, validate, check_required, validate_allowed_fields}
use mini_av.Protocol.Grammar.{Body, Outcome, IsComplete, to_message, validate-to_message}
use mini_av.Protocol.Accepted.{validate-Body}
use mini_av.Protocol.Wire.{
  Json, IsJson, Trailer, WireMessage, WireError, omit_empty, marshal, unmarshal,
}
use mini_av.Protocol.Roundtrip.{unmarshal-marshal, unmarshal-marshal_empty}

abbrev found_body : Body
found_body = Body.scan_result 7 Outcome.malware "EICAR" 12 ""

abbrev found_message : Message
found_message = to_message found_body

found_body-IsComplete : IsComplete found_body
found_body-IsComplete = λ e. cc

validate-to_message_example : validate found_message ≡ none
validate-to_message_example = validate-to_message found_body found_body-IsComplete

abbrev pub ack_message : Message
ack_message = record (new_message MessageType.hello_ack) {
  scanner_id = "scanner-a";
  worker_version = "1.0.0";
  capabilities = some ("scan" ∷ []);
}

abbrev pub bare_ack_message : Message
bare_ack_message = record ack_message { capabilities = some [] }

pub ack_message-valid : validate ack_message ≡ none
unfolding validate check_required validate_allowed_fields contains is_blank
ack_message-valid = refl

pub bare_ack_message-valid : validate bare_ack_message ≡ none
unfolding validate check_required validate_allowed_fields contains is_blank
bare_ack_message-valid = refl

validate-Body_example : (b : Body) × (ack_message ≡ to_message b) × IsComplete b
validate-Body_example = validate-Body ack_message ack_message-valid

-- A payload holds a value, or is what is left after it.
abbrev encode_value : WireMessage → Option (Option WireMessage)
encode_value w = some (some (omit_empty w))

abbrev decode_value : Option WireMessage → Option (WireMessage × Option WireMessage)
decode_value none = none
decode_value (some w) = some (w, none)

abbrev decode_end : Option WireMessage → Trailer
decode_end none = Trailer.end_of_input
decode_end (some w) = Trailer.value

abbrev pub value_codec : Json
value_codec = record {
  Payload = Option WireMessage;
  marshal = encode_value;
  decode = decode_value;
  decode_any = decode_end;
}

written :
    (w : WireMessage) (p : Option WireMessage) → encode_value w ≡ some p → some (omit_empty w) ≡ p
written w p e = ground arith

pub value_codec-IsJson : IsJson value_codec
value_codec-IsJson = record {
  encodes = λ w. (some (omit_empty w), refl);
  decodes = λ w p e.
      (none, subst (λ q. decode_value q ≡ some (omit_empty w, none)) (written w p e) refl, refl);
}

unmarshal-marshal_example :
    (p : Option WireMessage) × (marshal value_codec ack_message ≡ ok p)
    × (unmarshal value_codec p ≡ ok ack_message)
unmarshal-marshal_example =
    unmarshal-marshal value_codec value_codec-IsJson ack_message ack_message-valid
      (λ e. ground arith)

unmarshal-marshal_empty_example :
    (p : Option WireMessage) × (marshal value_codec bare_ack_message ≡ ok p)
    × (unmarshal value_codec p ≡ err (WireError.invalid ProtocolError.requires_capabilities))
unmarshal-marshal_empty_example =
    unmarshal-marshal_empty value_codec value_codec-IsJson bare_ack_message bare_ack_message-valid
      refl
