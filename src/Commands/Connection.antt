-- ===== src/Commands/Connection.antt =====
-- The two ends of a control connection in cmd/miniav/transport.go: handleConnection with readFrame
-- and writeResponse, and sendCommand.
use mini_av.Prelude.Actions
use mini_av.Prelude.{
  ℕ, suc, String, Option, none, some, Bool, false, not, ◌&&◌, if◌then◌else◌, ltb, length, Result,
  ok, err, ◌>>=◌, ◌>>◌, is_some,
}
use mini_av.Prelude.Addresses.{Addresses, loopback_host}
use mini_av.Signatures.Bytes.{Bytes}
use mini_av.Config.{Files}
use mini_av.Config.Check.{or_error}
use mini_av.Ipc.Limited.{End, read_limited, Codec}
use mini_av.Commands.{CommandRequest, CommandResponse}
use mini_av.Commands.Texts.{Formats}
use mini_av.Commands.Dispatch.{Core, Action, History, Panic, failed, dispatch_command}

-- const maxFrameSize = 64 * 1024
abbrev pub max_frame_size : ℕ
max_frame_size = 65536

pub data FrameError : Type 0 where
  too_large unterminated : FrameError
  read_failed : String → FrameError

abbrev ended : Bytes → End → Result FrameError Bytes
ended frame End.complete = ok frame
ended frame (End.stopped none) = err FrameError.unterminated
ended frame (End.stopped (some e)) = err (FrameError.read_failed e)

-- The bytes of the stream, and the error after them, `none` for io.EOF.
unfoldable pub read_frame : Bytes → Option String → Result FrameError Bytes
read_frame s ending =
    let (frame, end) = read_limited (suc max_frame_size) s ending in
    if ltb max_frame_size (length frame) then err FrameError.too_large else ended frame end

-- What the server has given to Write, and whether it stops to listen.
pub record Handled : Type 0 where
  pub written : Bytes
  pub stopped : Bool

-- What the calls on a connection answer, and what is read from it once a request is written.
pub record Network : Type 0 where
  pub dial : Option String
  pub set_deadline : Option String
  pub write : Bytes → Option String
  pub reply : Bytes → Bytes × Option String

pub data SendError : Type 0 where
  connect deadline send decode : String → SendError
  read : FrameError → SendError

module _ (requests : Codec CommandRequest) (responses : Codec CommandResponse) where
  -- `frame_text` is the text of an error of readFrame, and `write` what Write answers.
  module _ (core : Core) (files : Files) (formats : Formats) (frame_text : FrameError → String)
      (config_dir : String) (write : Bytes → Option String) where
    abbrev refuse_connection : String → Action Handled
    refuse_connection e =
        Actions.done (record { written = responses.encode (failed e); stopped = false })

    abbrev write_response : CommandResponse → Handled
    write_response r =
        let frame = responses.encode r in
        record { written = frame; stopped = r.shutdown && not (is_some (write frame)) }

    abbrev pub written : Result Panic CommandResponse × History → Result Panic Handled × History
    written = Actions.next (λ r. Actions.done (write_response r))

    abbrev handle_request : Result String CommandRequest → Action Handled
    handle_request (err e) h = refuse_connection (formats.decode_failed e) h
    handle_request (ok r) h = written (dispatch_command core files formats config_dir r h)

    abbrev handle_frame : Result FrameError Bytes → Action Handled
    handle_frame (err e) = refuse_connection (formats.read_failed (frame_text e))
    handle_frame (ok frame) = handle_request (requests.decode frame)

    -- From what the client sent on the connection.
    unfoldable pub handle_connection : Bytes → Option String → Action Handled
    unfolding read_frame dispatch_command
    handle_connection s ending h = handle_frame (read_frame s ending) h

  abbrev none_or : (String → SendError) → Option String → Result SendError (Unit {0})
  none_or f none = ok tt
  none_or f (some e) = err (f e)

  unfoldable pub send_command : Network → CommandRequest → Result SendError CommandResponse
  unfolding read_frame
  send_command net r = do
    none_or SendError.connect net.dial
    none_or SendError.deadline net.set_deadline
    none_or SendError.send (net.write (requests.encode r))
    let (s, ending) = net.reply (requests.encode r)
    frame ← or_error SendError.read (read_frame s ending)
    or_error SendError.decode (responses.decode frame)

pub data AddressError : Type 0 where
  invalid not_loopback : String → AddressError

unfoldable pub validate_loopback_address : Addresses → String → Option AddressError
validate_loopback_address addresses address = elim (addresses.split_host_port address) [
  | err e ↦ some (AddressError.invalid address)
  | ok parts ↦
      if not (loopback_host addresses parts.0)
      then some (AddressError.not_loopback address)
      else none
]
