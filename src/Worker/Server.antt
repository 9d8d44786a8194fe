-- ===== src/Worker/Server.antt =====
-- pkg/worker/server.go: a worker that Core connects to. What the packages net and grpc, the context
-- and the session (Worker/Session) answer is any function of the calls before, the last one first.
use mini_av.Prelude.Actions
use mini_av.Prelude.Actions.{◌>>=◌, ◌>>◌, refuse_when}
use mini_av.Prelude.{
  String, Option, none, some, List, ◌∷◌, ◌&&◌, not, if◌then◌else◌, Result, ok, err,
}
use mini_av.Prelude.Equality.{◌==◌, string_eq}
use mini_av.Prelude.Addresses.{Addresses}
use mini_av.Signatures.Bytes.{Bytes}
use mini_av.Ipc.Limited.{Codec}
use mini_av.Protocol.{Message}
use mini_av.WorkerTransport.Protobuf.{ProtoMessage}
use mini_av.WorkerTransport.Connections.{
  TransportError, GrpcError, socket, grpc, validate_loopback_address, send_grpc, receive_grpc,
}
use mini_av.WorkerTransport.Bootstrap.{Bootstrap, BootstrapError, write_bootstrap}

-- What a session or a server returns, and whether errors.Is finds io.EOF or ErrServerStopped in it.
pub data Ended : Type 0 where
  nil end_of_input server_stopped : Ended
  failed : String → Ended

pub data ServeError : Type 0 where
  unsupported listen_failed bootstrap_failed accept_failed context : String → ServeError
  transport : TransportError → ServeError
  bootstrap : BootstrapError → ServeError
  session : Ended → ServeError

pub data Call : Type 0 where
  open_listener : String → Call
  write : Bytes → Call
  accept run close_listener close_connection serve_clients graceful_stop stop wait_served : Call

abbrev pub History : Type 0
History = List Call

-- Which case the select of serveGRPC takes.
pub data Grpc : Type 0 where
  served : Ended → Grpc
  finished : Grpc
  context_done : String → Grpc

-- `listen` answers the address of the listener, `context` is ctx.Err(), `run` what Run returns, and
-- `served` what server.Serve returns once the server was stopped.
pub record Env : Type 0 where
  pub listen : History → String → Result String String
  pub write : History → Bytes → Option String
  pub accept : History → Option String
  pub context : History → Option String
  pub run : History → Ended
  pub select : History → Grpc
  pub served : History → Ended

abbrev pub Action {ℓ} : Type ℓ → Type ℓ
Action A = Actions.Action Call ServeError A

abbrev ended : Ended → Result ServeError (Unit {0})
ended Ended.nil = ok tt
ended e = err (ServeError.session e)

-- if errors.Is(err, io.EOF) { return nil }
unfoldable pub exchange_result : Ended → Ended
exchange_result Ended.end_of_input = Ended.nil
exchange_result e = e

-- What the session of a gRPC service receives, from what the stream's Recv returns.
unfoldable pub receive_payload : Result String (Option ProtoMessage) → Result GrpcError Message
unfolding receive_grpc
receive_payload answer = receive_grpc answer

-- And what it sends, with what the stream's Send answers.
unfoldable pub send_payload : (ProtoMessage → Option String) → Message → Result GrpcError (Unit {0})
unfolding send_grpc
send_payload answer m = send_grpc answer m

abbrev without_stopped : Ended → Ended
without_stopped Ended.server_stopped = Ended.nil
without_stopped e = e

module _ (env : Env) where
  abbrev accept_error : String → Option String → ServeError
  accept_error e none = ServeError.accept_failed e
  accept_error e (some done) = ServeError.context done

  unfoldable pub serve_socket : Action (Unit {0})
  serve_socket h = elim (env.accept h) [
    | some e ↦ (
      err (accept_error e (env.context (Call.accept ∷ h))),
      Call.close_listener ∷ Call.accept ∷ h,
    )
    | none ↦ (
      ended (env.run (Call.accept ∷ h)),
      Call.close_listener ∷ Call.close_connection ∷ Call.run ∷ Call.accept ∷ h,
    )
  ]

  abbrev selected : Grpc → Action (Unit {0})
  selected (Grpc.served e) h = (ended e, h)
  selected Grpc.finished h = (
    ended (without_stopped (env.served (Call.graceful_stop ∷ h))),
    Call.wait_served ∷ Call.graceful_stop ∷ h,
  )
  selected (Grpc.context_done e) h = (err (ServeError.context e), Call.wait_served ∷ Call.stop ∷ h)

  unfoldable pub serve_grpc : Action (Unit {0})
  serve_grpc h = selected (env.select (Call.serve_clients ∷ h)) (Call.serve_clients ∷ h)

  abbrev listen : String → Action String
  listen address h = elim (env.listen h address) [
    | err e ↦ (err (ServeError.listen_failed e), Call.open_listener address ∷ h)
    | ok local ↦ (ok local, Call.open_listener address ∷ h)
  ]

  abbrev announce : Result BootstrapError Bytes → Action (Unit {0})
  announce (err e) h = (err (ServeError.bootstrap e), Call.close_listener ∷ h)
  announce (ok s) h = elim (env.write h s) [
    | some e ↦ (err (ServeError.bootstrap_failed e), Call.close_listener ∷ Call.write s ∷ h)
    | none ↦ (ok tt, Call.write s ∷ h)
  ]

  abbrev or_transport : Result TransportError (Unit {0}) → Action (Unit {0})
  or_transport (ok u) h = (ok tt, h)
  or_transport (err e) h = (err (ServeError.transport e), h)

  -- The mode is one of the two: the switch has no other case.
  unfoldable pub serve : Addresses → Codec Bootstrap → String → String → Action (Unit {0})
  unfolding validate_loopback_address write_bootstrap serve_socket serve_grpc
  serve addresses codec mode address = do
    refuse_when (not (mode == socket) && not (mode == grpc)) (ServeError.unsupported mode)
    or_transport (validate_loopback_address addresses address)
    local ← listen address
    announce (write_bootstrap codec local)
    if mode == socket then serve_socket else serve_grpc
