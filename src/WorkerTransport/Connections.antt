-- ===== src/WorkerTransport/Connections.antt =====
-- The connections of pkg/workertransport/transport.go, and Dial. What the packages net and grpc
-- answer is any function of the calls before, the last one first.
use mini_av.Prelude.Actions
use mini_av.Prelude.Actions.{◌>>=◌, ◌>>◌}
use mini_av.Prelude.{String, Option, none, some, List, [], ◌∷◌, not, if◌then◌else◌, Result, ok, err}
use mini_av.Prelude.Equality.{◌==◌, string_eq}
use mini_av.Prelude.Addresses.{Addresses, loopback_host}
use mini_av.Protocol.{Message}
use mini_av.Protocol.Wire.{Json}
use mini_av.Ipc.{Raw}
use mini_av.Ipc.Writing.{Writer, EncodeResult, encode}
use mini_av.Ipc.Reading.{DecodeError, Decoder, decode}
use mini_av.WorkerTransport.Protobuf.{ConversionError, ProtoMessage, to_proto, from_proto}

abbrev pub stdio : String
stdio = "stdio"

abbrev pub socket : String
socket = "socket"

abbrev pub grpc : String
grpc = "grpc"

-- The two implementations of Connection.
pub data Connection : Type 0 where
  stream grpc_stream : Connection

pub data TransportError : Type 0 where
  invalid_address not_loopback unsupported : String → TransportError
  dial_failed stream_failed : String → TransportError

unfoldable pub validate_loopback_address : Addresses → String → Result TransportError (Unit {0})
validate_loopback_address addresses address = elim (addresses.split_host_port address) [
  | err e ↦ err (TransportError.invalid_address address)
  | ok parts ↦
      if not (loopback_host addresses parts.0)
      then err (TransportError.not_loopback address)
      else ok tt
]

pub data Call : Type 0 where
  dial_tcp dial_grpc : String → Call
  exchange cancel close_client : Call

abbrev pub History : Type 0
History = List Call

-- DialContext of net and of grpc, and the client's Exchange.
pub record Env : Type 0 where
  pub dial_tcp : History → String → Option String
  pub dial_grpc : History → String → Option String
  pub exchange : History → Option String

abbrev pub Action {ℓ} : Type ℓ → Type ℓ
Action A = Actions.Action Call TransportError A

module _ (env : Env) where
  abbrev dial_socket : String → Action Connection
  dial_socket address h = elim (env.dial_tcp h address) [
    | some e ↦ (err (TransportError.dial_failed e), Call.dial_tcp address ∷ h)
    | none ↦ (ok Connection.stream, Call.dial_tcp address ∷ h)
  ]

  -- An error of the stream ends the client.
  abbrev open_exchange : Action Connection
  open_exchange h = elim (env.exchange h) [
    | some e ↦
        (err (TransportError.stream_failed e), Call.close_client ∷ Call.cancel ∷ Call.exchange ∷ h)
    | none ↦ (ok Connection.grpc_stream, Call.exchange ∷ h)
  ]

  abbrev dial_client : String → Action Connection
  dial_client address h = elim (env.dial_grpc h address) [
    | some e ↦ (err (TransportError.dial_failed e), Call.dial_grpc address ∷ h)
    | none ↦ open_exchange (Call.dial_grpc address ∷ h)
  ]

  unfoldable pub dial : Addresses → String → String → Action Connection
  unfolding validate_loopback_address
  dial addresses mode address = do
    λ h. (validate_loopback_address addresses address, h)
    if mode == socket
        then dial_socket address
        else if mode == grpc
        then dial_client address
        else λ h. (err (TransportError.unsupported mode), h)

-- Close of a streamConnection: what its closers return, each called, gives the first error.
unfoldable pub close_stream : List (Option String) → Option String
close_stream [] = none
close_stream (none ∷ closers) = close_stream closers
close_stream (some e ∷ closers) = some e

-- Close of a grpcConnection, from what the client's Close returns.
unfoldable pub close_grpc : Option String → Option String × List Call
close_grpc answer = (answer, Call.close_client ∷ Call.cancel ∷ [])

-- Send and Receive of a streamConnection are those of its encoder and its decoder.
module _ (j : Json) (raw : Raw j.Payload) where
  unfoldable pub send_stream : {S : Type 0} → Writer S → Message → S → EncodeResult × S
  unfolding encode
  send_stream writer m s = encode writer j raw m s

  unfoldable pub receive_stream : Decoder → Result DecodeError Message × Decoder
  unfolding decode
  receive_stream d = decode j raw d

pub data GrpcError : Type 0 where
  conversion : ConversionError → GrpcError
  stream_failed : String → GrpcError

-- Send of a grpcConnection, with what the stream's Send answers.
unfoldable pub send_grpc : (ProtoMessage → Option String) → Message → Result GrpcError (Unit {0})
unfolding to_proto
send_grpc answer m = elim (to_proto m) [
  | err e ↦ err (GrpcError.conversion e)
  | ok p ↦ elim (answer p) [ none ↦ ok tt | some e ↦ err (GrpcError.stream_failed e) ]
]

-- Receive of a grpcConnection, from what the stream's Recv returns.
unfoldable pub receive_grpc : Result String (Option ProtoMessage) → Result GrpcError Message
unfolding from_proto
receive_grpc (err e) = err (GrpcError.stream_failed e)
receive_grpc (ok p) = elim (from_proto p) [ err e ↦ err (GrpcError.conversion e) | ok m ↦ ok m ]
