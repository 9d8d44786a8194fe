-- ===== src/Protocol/Roundtrip.antt =====
-- What Unmarshal reads back of what Marshal wrote (pkg/protocol/protocol.go).
use mini_av.Prelude.{
  String, ◌≡◌, ◌≢◌, refl, subst, none, some, [], ◌∷◌, true, false, arith, ok, err,
}
use mini_av.Protocol.{Message}
use mini_av.Protocol.Validate.{ProtocolError, check_required, validate}
use mini_av.Protocol.Grammar.{
  HasCapabilities, has_capabilities, empty_is_ack, Body, hello_ack, reload_result, IsComplete,
  to_message, validate-to_message,
}
use mini_av.Protocol.Accepted.{validate-Body}
use mini_av.Protocol.Wire.{
  Json, IsJson, WireError, to_wire, from_wire, omit_empty, marshal, unmarshal,
  validate_wire_field_placement, validate_required_wire_fields,
}

from_wire-to_wire :
    (b : Body) → HasCapabilities b → from_wire (omit_empty (to_wire (to_message b))) ≡ to_message b
unfolding from_wire to_wire to_message
from_wire-to_wire (hello_ack id version []) h = absurd h
from_wire-to_wire (hello_ack id version (c ∷ cs)) h = refl
from_wire-to_wire (reload_result true count reason) h = refl
from_wire-to_wire (reload_result false count reason) h = ground arith
from_wire-to_wire _ h = refl

-- The checks on the wire value of a complete body pass.
placement_passes :
    (b : Body) → validate_wire_field_placement (omit_empty (to_wire (to_message b))) ≡ none
unfolding validate_wire_field_placement to_wire to_message
placement_passes (reload_result true count reason) = refl
placement_passes (reload_result false count reason) = ground arith
placement_passes _ = refl

required_passes :
    (b : Body) → validate_required_wire_fields (omit_empty (to_wire (to_message b))) ≡ none
unfolding validate_required_wire_fields to_wire to_message
required_passes (reload_result true count reason) = refl
required_passes (reload_result false count reason) = ground arith
required_passes _ = refl

empty_rejected :
    (id version : String)
    → IsComplete (hello_ack id version [])
    → validate (from_wire (omit_empty (to_wire (to_message (hello_ack id version [])))))
      ≡ some ProtocolError.requires_capabilities
unfolding validate check_required from_wire to_wire to_message
empty_rejected id version c = ground arith

module _ (j : Json) (law : IsJson j) where
  marshal_complete :
      (b : Body)
      → IsComplete b
      → (p : j.Payload) × (marshal j (to_message b) ≡ ok p)
        × (j.marshal (to_wire (to_message b)) ≡ some p)
  unfolding marshal
  marshal_complete b c =
      let (p, e) = law.encodes (to_wire (to_message b)) in
      (p, rw (validate-to_message b c, e, marshal), e)

  unmarshal_complete :
      (b : Body) (p : j.Payload)
      → IsComplete b
      → HasCapabilities b
      → j.marshal (to_wire (to_message b)) ≡ some p
      → unmarshal j p ≡ ok (to_message b)
  unfolding unmarshal
  unmarshal_complete b p c h e =
      let (rest, d, end) = law.decodes (to_wire (to_message b)) p e in
      rw (d, unmarshal)
        (simp (
          end,
          placement_passes b,
          required_passes b,
          from_wire-to_wire b h,
          validate-to_message b c,
        ))

  -- a HELLO_ACK with a slice of length 0
  unmarshal_empty :
      (id version : String) (p : j.Payload)
      → IsComplete (hello_ack id version [])
      → j.marshal (to_wire (to_message (hello_ack id version []))) ≡ some p
      → unmarshal j p ≡ err (WireError.invalid ProtocolError.requires_capabilities)
  unfolding unmarshal
  unmarshal_empty id version p c e =
      let (rest, d, end) = law.decodes (to_wire (to_message (hello_ack id version []))) p e in
      rw (d, unmarshal)
        (simp (
          end,
          placement_passes (hello_ack id version []),
          required_passes (hello_ack id version []),
          empty_rejected id version c,
        ))

  -- Under a codec that keeps the documentation of encoding/json, a message that Validate accepts,
  -- and whose capabilities are not an empty slice, is marshalled, and Unmarshal gives it back.
  pub unmarshal-marshal :
      (m : Message)
      → validate m ≡ none
      → m.capabilities ≢ some []
      → (p : j.Payload) × (marshal j m ≡ ok p) × (unmarshal j p ≡ ok m)
  unmarshal-marshal m valid nonempty =
      let (b, e, c) = validate-Body m valid in
      let (p, sent, encoded) = marshal_complete b c in
      let some_given = has_capabilities b (subst (λ n. n.capabilities ≢ some []) e nonempty) in
      rw e (p, sent, unmarshal_complete b p c some_given encoded)

  -- A message that Validate accepts with an empty slice of capabilities is marshalled, and
  -- Unmarshal refuses what was written: the field is left out, and is then required.
  pub unmarshal-marshal_empty :
      (m : Message)
      → validate m ≡ none
      → m.capabilities ≡ some []
      → (p : j.Payload) × (marshal j m ≡ ok p)
        × (unmarshal j p ≡ err (WireError.invalid ProtocolError.requires_capabilities))
  unmarshal-marshal_empty m valid empty =
      let (b, e, c) = validate-Body m valid in
      let (id, version, f) = empty_is_ack b (subst (λ n. n.capabilities ≡ some []) e empty) in
      let whole = subst IsComplete f c in
      let (p, sent, encoded) = marshal_complete (hello_ack id version []) whole in
      rw (e, f) (p, sent, unmarshal_empty id version p whole encoded)
