-- ===== src/WorkerTransport/Conversion.antt =====
-- What FromProto reads back of what ToProto made (pkg/workertransport/protobuf.go).
use mini_av.Prelude.{
  ℕ, String, ◌≡◌, ◌≢◌, refl, subst, none, some, [], ◌∷◌, true, false, ◌&&◌, arith, ok, err,
}
use mini_av.Prelude.Int.{ℤ, exceeds, to_int32}
use mini_av.Protocol.{Message}
use mini_av.Protocol.Validate.{ProtocolError, validate, check_required}
use mini_av.Protocol.Grammar.{
  Outcome, Body, hello_ack, scan_result, reload_result, IsComplete, to_message, validate-to_message,
  HasCapabilities, has_capabilities, empty_is_ack,
}
use mini_av.Protocol.Accepted.{validate-Body}
use mini_av.WorkerTransport.Protobuf.{
  ProtoMessage, ConversionError, max_int32, or_zero, payload_of, to_proto, validate_proto_presence,
  message_from, from_proto, verdict_from_proto, is_reload_result,
}

int32_small : (n : ℕ) → exceeds (ℤ.pos n) max_int32 ≡ false → to_int32 (ℤ.pos n) ≡ ℤ.pos n
int32_small n h = ground arith

abbrev IsSmall : Message → Type 0
IsSmall m = exceeds m.signature_count max_int32 ≡ false

-- The fields other than the capabilities.
message_from-payload_of :
    (b : Body)
    → IsSmall (to_message b)
    → HasCapabilities b
    → message_from (payload_of (to_message b)) (to_message b).verdict ≡ to_message b
unfolding message_from payload_of to_message
message_from-payload_of (hello_ack id version []) s h = absurd h
message_from-payload_of (hello_ack id version (c ∷ cs)) s h = refl
message_from-payload_of (reload_result success count reason) s h =
    ground (arith, int32_small count s)
message_from-payload_of _ s h = refl

presence_passes : (b : Body) → validate_proto_presence (payload_of (to_message b)) ≡ none
unfolding validate_proto_presence payload_of to_message
presence_passes (reload_result true count reason) = refl
presence_passes (reload_result false count reason) = refl
presence_passes _ = refl

verdict_returns :
    (b : Body) → verdict_from_proto (payload_of (to_message b)).verdict ≡ ok (to_message b).verdict
unfolding verdict_from_proto payload_of to_message
verdict_returns (scan_result id Outcome.clean signature duration reason) = refl
verdict_returns (scan_result id Outcome.malware signature duration reason) = refl
verdict_returns (scan_result id Outcome.error signature duration reason) = refl
verdict_returns (scan_result id Outcome.timeout signature duration reason) = refl
verdict_returns (scan_result id Outcome.unavailable signature duration reason) = refl
verdict_returns _ = refl

to_proto_complete :
    (b : Body)
    → IsComplete b
    → IsSmall (to_message b)
    → to_proto (to_message b) ≡ ok (payload_of (to_message b))
unfolding to_proto
to_proto_complete b c s = rw (validate-to_message b c, to_proto) (ground (arith, s))

from_proto_complete :
    (b : Body)
    → IsComplete b
    → IsSmall (to_message b)
    → HasCapabilities b
    → from_proto (some (payload_of (to_message b))) ≡ ok (to_message b)
unfolding from_proto
from_proto_complete b c s h =
    rw (presence_passes b, from_proto)
      (simp (verdict_returns b, message_from-payload_of b s h, validate-to_message b c))

-- A message that Validate accepts, whose capabilities are not an empty slice and whose count of
-- signatures fits an int32, is converted, and FromProto gives it back.
pub from_proto-to_proto :
    (m : Message)
    → validate m ≡ none
    → m.capabilities ≢ some []
    → exceeds m.signature_count max_int32 ≡ false
    → (p : ProtoMessage) × (to_proto m ≡ ok p) × (from_proto (some p) ≡ ok m)
from_proto-to_proto m valid nonempty small =
    let (b, e, c) = validate-Body m valid in
    let given = has_capabilities b (subst (λ n. n.capabilities ≢ some []) e nonempty) in
    let fits = subst IsSmall e small in
    rw e (payload_of (to_message b), to_proto_complete b c fits, from_proto_complete b c fits given)

to_proto-inverse :
    (m : Message) (p : ProtoMessage)
    → to_proto m ≡ ok p
    → (validate m ≡ none)
      × (p ≡ payload_of m)
      × (is_reload_result m.type && exceeds m.signature_count max_int32 ≡ false)
unfolding to_proto
to_proto-inverse m p h = ground arith

abbrev IsExact : Message → ProtoMessage → Type 0
IsExact m p =
    (p.version ≡ m.version)
    × (or_zero (ℤ.pos 0) p.duration_ms ≡ m.duration_ms)
    × (or_zero (ℤ.pos 0) p.signature_count ≡ m.signature_count)

payload_of-IsExact :
    (b : Body)
    → is_reload_result (to_message b).type && exceeds (to_message b).signature_count max_int32
      ≡ false
    → IsExact (to_message b) (payload_of (to_message b))
unfolding payload_of to_message
payload_of-IsExact (reload_result success count reason) h = ground (arith, int32_small count h)
payload_of-IsExact _ h = (refl, refl, refl)

-- No number is cut by the conversions to 32 bits: the version, the duration and the count of
-- signatures of each payload that ToProto returns are those of the message.
pub to_proto-IsExact : (m : Message) (p : ProtoMessage) → to_proto m ≡ ok p → IsExact m p
to_proto-IsExact m p h =
    let (valid, is, small) = to_proto-inverse m p h in
    let (b, e, c) = validate-Body m valid in
    rw (is, e)
      (payload_of-IsExact b (
        subst
          (λ (n : Message). is_reload_result n.type && exceeds n.signature_count max_int32 ≡ false)
          e small))

empty_refused :
    (id version : String)
    → IsComplete (hello_ack id version [])
    → from_proto (some (payload_of (to_message (hello_ack id version []))))
      ≡ err (ConversionError.invalid ProtocolError.requires_capabilities)
unfolding from_proto validate_proto_presence verdict_from_proto message_from payload_of to_message
    validate check_required
empty_refused id version c = ground arith

-- A message that Validate accepts with an empty slice of capabilities is converted, and FromProto
-- refuses the payload: the copy of the slice is nil.
pub from_proto-to_proto_empty :
    (m : Message)
    → validate m ≡ none
    → m.capabilities ≡ some []
    → (p : ProtoMessage) × (to_proto m ≡ ok p)
      × (from_proto (some p) ≡ err (ConversionError.invalid ProtocolError.requires_capabilities))
unfolding to_message
from_proto-to_proto_empty m valid empty =
    let (b, e, c) = validate-Body m valid in
    let (id, version, f) = empty_is_ack b (subst (λ n. n.capabilities ≡ some []) e empty) in
    let ack = hello_ack id version [] in
    let whole = subst IsComplete f c in
    rw (e, f)
      (
        payload_of (to_message ack),
        to_proto_complete ack whole refl,
        empty_refused id version whole,
      )
