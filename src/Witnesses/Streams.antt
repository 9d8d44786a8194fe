-- ===== src/Witnesses/Streams.antt =====
-- A HELLO_ACK through the conversions of pkg/workertransport/protobuf.go, and on a stream of
-- pkg/ipc/ipc.go.
use mini_av.Prelude.{
  ◌≤◌, ◌≡◌, refl, Option, none, some, [], ◌∷◌, ◌++◌, arith, ok, err, length, take, repeated,
}
use mini_av.Signatures.Bytes.{Bytes}
use mini_av.Protocol.Validate.{ProtocolError}
use mini_av.WorkerTransport.Protobuf.{
  ProtoMessage, ConversionError, to_proto, from_proto, or_zero, payload_of,
}
use mini_av.WorkerTransport.Conversion.{
  from_proto-to_proto, from_proto-to_proto_empty, to_proto-IsExact,
}
use mini_av.Ipc.{Raw, FrameError}
use mini_av.Ipc.Writing.{
  WriteAnswer, Writer, EncodeResult, write_all, write_frame, encode, encode_each,
}
use mini_av.Ipc.Reading.{
  DecodeError, Decoder, new_decoder, read_slice, take_slice, decode, decode_each,
}
use mini_av.Ipc.Frames.{IsWriter, Delivers, write_all-Delivers, decode_each-failed}
use mini_av.Ipc.Delivery.{Travels, decode_each-encode_each}
use mini_av.Protocol.Wire.{WireMessage, to_wire, omit_empty, marshal}
use mini_av.Prelude.Int.{ℤ}
use mini_av.Witnesses.Messages.{
  ack_message, ack_message-valid, bare_ack_message, bare_ack_message-valid, value_codec,
  value_codec-IsJson,
}

from_proto-to_proto_example :
    (p : ProtoMessage) × (to_proto ack_message ≡ ok p) × (from_proto (some p) ≡ ok ack_message)
from_proto-to_proto_example =
    from_proto-to_proto ack_message ack_message-valid (λ e. ground arith) refl

from_proto-to_proto_empty_example :
    (p : ProtoMessage) × (to_proto bare_ack_message ≡ ok p)
    × (from_proto (some p) ≡ err (ConversionError.invalid ProtocolError.requires_capabilities))
from_proto-to_proto_empty_example =
    from_proto-to_proto_empty bare_ack_message bare_ack_message-valid refl

ack_message-converted : to_proto ack_message ≡ ok (payload_of ack_message)
unfolding to_proto
ack_message-converted = rw (ack_message-valid, to_proto) refl

to_proto-IsExact_example :
    ((payload_of ack_message).version ≡ ack_message.version)
    × (or_zero (ℤ.pos 0) (payload_of ack_message).duration_ms ≡ ack_message.duration_ms)
    × (or_zero (ℤ.pos 0) (payload_of ack_message).signature_count ≡ ack_message.signature_count)
to_proto-IsExact_example =
    to_proto-IsExact ack_message (payload_of ack_message) ack_message-converted

-- A writer that takes one byte at each call.
abbrev write_one : Bytes → Bytes → WriteAnswer × Bytes
write_one s state = (record { count = length (take 1 s); error = none }, state ++ take 1 s)

abbrev slow_writer : Writer Bytes
slow_writer = record { write = write_one }

one_taken : (s : Bytes) → length (take 1 s) ≤ length s
one_taken [] = omega arith
one_taken (b ∷ s) = omega arith

one_handed : (s : Bytes) → take 1 s ≡ take (length (take 1 s)) s
one_handed [] = refl
one_handed (b ∷ s) = refl

slow_writer-IsWriter : IsWriter slow_writer
slow_writer-IsWriter = record {
  received = λ s. s;
  counts = λ s state. one_taken s;
  hands_on = λ s state. rw (← one_handed s) refl;
}

abbrev three_bytes : Bytes
three_bytes = 1 ∷ 2 ∷ 3 ∷ []

write_all-Delivers_example :
    Delivers slow_writer slow_writer-IsWriter three_bytes []
      (write_all slow_writer 3 three_bytes [])
write_all-Delivers_example =
    write_all-Delivers slow_writer slow_writer-IsWriter 3 three_bytes [] (omega arith)

-- The slices of a JSON text of two bytes, which stands for the HELLO_ACK.
abbrev ack_text : Bytes
ack_text = b'{' ∷ b'}' ∷ []

abbrev ack_payload : Option WireMessage
ack_payload = some (omit_empty (to_wire ack_message))

abbrev ack_raw : Raw (Option WireMessage)
ack_raw = record { bytes = λ p. ack_text; payload = λ s. ack_payload }

marshal-ack_message : marshal value_codec ack_message ≡ ok ack_payload
unfolding marshal
marshal-ack_message = rw (ack_message-valid, marshal) refl

ack_message-Travels : Travels value_codec value_codec-IsJson ack_raw ack_message
ack_message-Travels = record {
  valid = ack_message-valid;
  nonempty = λ e. ground arith;
  one_line = λ p e. (refl, (refl, tt));
  whole = λ p e. ground (arith, marshal-ack_message);
}

abbrev ack_frames : Bytes
ack_frames = b'{' ∷ b'}' ∷ b'\n' ∷ b'{' ∷ b'}' ∷ b'\n' ∷ []

two_sent :
    encode_each slow_writer value_codec ack_raw (ack_message ∷ ack_message ∷ []) []
    ≡ (EncodeResult.sent, ack_frames)
unfolding encode_each encode write_frame write_all
two_sent = rw (marshal-ack_message, encode) refl

decode_each-encode_each_example :
    (added : Bytes) × (slow_writer-IsWriter.received ack_frames
      ≡ slow_writer-IsWriter.received [] ++ added)
    × (decode_each value_codec ack_raw 2 (new_decoder (added ++ []) none)
        ≡ (ok ack_message ∷ ok ack_message ∷ [], new_decoder [] none))
decode_each-encode_each_example =
    decode_each-encode_each value_codec value_codec-IsJson ack_raw slow_writer slow_writer-IsWriter
      (ack_message ∷ ack_message ∷ []) [] ack_frames [] none
      (ack_message-Travels, (ack_message-Travels, tt)) two_sent

-- A stream that ends within a frame.
abbrev cut_stream : Decoder
cut_stream = new_decoder (b'{' ∷ []) none

abbrev after_cut : Decoder
after_cut = record cut_stream { stream = []; failure = some FrameError.unterminated }

cut_fails :
    decode value_codec ack_raw cut_stream
    ≡ (err (DecodeError.failed FrameError.unterminated), after_cut)
unfolding decode take_slice read_slice
cut_fails = refl

decode_each-failed_example :
    decode_each value_codec ack_raw 2 after_cut
    ≡ (repeated 2 (err (DecodeError.failed FrameError.unterminated)), after_cut)
decode_each-failed_example =
    decode_each-failed value_codec ack_raw cut_stream after_cut FrameError.unterminated 2 cut_fails
