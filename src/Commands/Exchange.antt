-- ===== src/Commands/Exchange.antt =====
-- A request and its response over the control connection of cmd/miniav/transport.go.
use mini_av.Prelude.{
  suc, ◌≤◌, ◌<◌, ◌≡◌, refl, sym, ◌∙◌, subst, String, Option, none, [], ◌∷◌, ◌++◌, Bool, true, false,
  if◌then◌else◌, ltb, leb, length, length-append, Result, ok, err, ◌>>=◌, arith, Bool-cases, inl,
  inr,
}
use mini_av.Signatures.Bytes.{Bytes}
use mini_av.Config.{Files}
use mini_av.Config.Check.{or_error}
use mini_av.Ipc.Frames.{HasNoNewline}
use mini_av.Ipc.Limited.{read_limited, read_limited-line, length-read_limited, Codec, IsKept}
use mini_av.Commands.{CommandRequest, CommandResponse}
use mini_av.Commands.Texts.{Formats}
use mini_av.Commands.Dispatch.{Core, History, Panic, dispatch_command}
use mini_av.Commands.Served.{dispatch_command-Answered}
use mini_av.Commands.Connection.{
  max_frame_size, FrameError, read_frame, Handled, written, handle_connection, Network, SendError,
  send_command,
}

read_frame-fits :
    (payload : Bytes) (ending : Option String)
    → HasNoNewline payload
    → length payload < max_frame_size
    → read_frame (payload ++ b'\n' ∷ []) ending ≡ ok (payload ++ b'\n' ∷ [])
unfolding read_frame
read_frame-fits payload ending h l =
    let taken = read_limited-line (suc max_frame_size) payload [] ending h (omega arith) in
    let size = length-append payload (b'\n' ∷ []) in
    let small : ltb max_frame_size (length (payload ++ b'\n' ∷ [])) ≡ false =
      ground (arith, size) in
    rw (taken, small) refl

read_frame-large :
    (payload : Bytes) (ending : Option String)
    → HasNoNewline payload
    → max_frame_size ≤ length payload
    → read_frame (payload ++ b'\n' ∷ []) ending ≡ err FrameError.too_large
unfolding read_frame
read_frame-large payload ending h l =
    let size = length-read_limited (suc max_frame_size) payload [] ending h (omega arith) in
    let large : ltb max_frame_size
          (length (read_limited (suc max_frame_size) (payload ++ b'\n' ∷ []) ending).0)
        ≡ true =
      ground (arith, size) in
    rw large refl

framed : Bytes → Result FrameError Bytes
framed s = if leb (length s) max_frame_size then ok s else err FrameError.too_large

read_frame-line :
    (payload : Bytes) (ending : Option String)
    → HasNoNewline payload
    → read_frame (payload ++ b'\n' ∷ []) ending ≡ framed (payload ++ b'\n' ∷ [])
unfolding framed
read_frame-line payload ending h =
    let size = length-append payload (b'\n' ∷ []) in
    elim (Bool-cases (leb (length (payload ++ b'\n' ∷ [])) max_frame_size)) [
      | inl fits ↦ rw fits (read_frame-fits payload ending h (ground (arith, size, fits)))
      | inr large ↦ rw large (read_frame-large payload ending h (ground (arith, size, large)))
    ]

-- A value that was written on one line is read back if it fits, and is too large otherwise.
read_frame-encode :
    {A : Type 0} (codec : Codec A) (a : A) (kept : IsKept codec a) (ending : Option String)
    → read_frame (codec.encode a) ending ≡ framed (codec.encode a)
read_frame-encode codec a kept ending =
    subst (λ s. read_frame s ending ≡ framed s) (sym kept.line)
      (read_frame-line kept.payload ending kept.one_line)

-- What is read of a connection that the server has written to and closed.
abbrev sent_back : Result Panic Handled → Bytes × Option String
sent_back (ok handled) = (handled.written, none)
sent_back (err p) = ([], none)

abbrev pub received_response : Bytes → CommandResponse → Result SendError CommandResponse
received_response s response =
    if leb (length s) max_frame_size then ok response else err (SendError.read FrameError.too_large)

module _ (requests : Codec CommandRequest) (responses : Codec CommandResponse) (core : Core)
    (files : Files) (formats : Formats) (frame_text : FrameError → String) (config_dir : String)
    (write : Bytes → Option String) where
  -- The server that reads what the client has written, on a network without errors.
  unfoldable pub joined : History → Network
  unfolding handle_connection
  joined h = record {
    dial = none;
    set_deadline = none;
    write = λ s. none;
    reply = λ s.
        sent_back
          (handle_connection requests responses core files formats frame_text config_dir write s
            none h).0;
  }

  sent_response :
      (x : Result Panic CommandResponse × History) (response : CommandResponse)
      → x.0 ≡ ok response
      → sent_back (written requests responses core files formats frame_text config_dir write x).0
        ≡ (responses.encode response, none)
  sent_response (ok answer, h) response is = ground (arith, is)
  sent_response (err p, h) response is = absurd (ground (arith, is))

  handled :
      (r : CommandRequest) (response : CommandResponse) (h : History)
      → IsKept requests r
      → length (requests.encode r) ≤ max_frame_size
      → (dispatch_command core files formats config_dir r h).0 ≡ ok response
      → sent_back
          (handle_connection requests responses core files formats frame_text config_dir write
            (requests.encode r)
            none
            h).0
        ≡ (responses.encode response, none)
  unfolding handle_connection framed
  handled r response h kept fits is =
      let read : read_frame (requests.encode r) none ≡ ok (requests.encode r) =
        read_frame-encode requests r kept none ∙ ground (arith, fits) in
      rw (read, kept.decodes)
        (sent_response (dispatch_command core files formats config_dir r h) response is)

  framed_response :
      (fits : Bool) (response : CommandResponse)
      → IsKept responses response
      → (or_error SendError.read
            (if fits then ok (responses.encode response) else err FrameError.too_large)
          >>= λ frame. or_error SendError.decode (responses.decode frame))
        ≡ (if fits then ok response else err (SendError.read FrameError.too_large))
  framed_response true response kept = ground (arith, kept.decodes)
  framed_response false response kept = refl

  received :
      (net : Network) (r : CommandRequest) (response : CommandResponse)
      → IsKept responses response
      → net.dial ≡ none
      → net.set_deadline ≡ none
      → net.write (requests.encode r) ≡ none
      → net.reply (requests.encode r) ≡ (responses.encode response, none)
      → send_command requests responses net r
        ≡ received_response (responses.encode response) response
  unfolding send_command framed
  received net r response kept dial deadline written reply =
      let read = read_frame-encode responses response kept none in
      rw (dial, deadline, written, reply, read)
        (framed_response (leb (length (responses.encode response)) max_frame_size) response kept)

  -- Over a network without errors, and with an encoding/json that keeps its documentation for the
  -- request and for Core's response, a request of at most 64 KiB with its newline is answered with the response that Core's
  -- dispatchCommand has for it: sendCommand returns that response, unless its line is longer than
  -- 64 KiB, and then sendCommand returns the error that the frame exceeds the size limit.
  pub send_command-joined :
      (r : CommandRequest) (h : History)
      → IsKept requests r
      → ((response : CommandResponse)
          → (dispatch_command core files formats config_dir r h).0 ≡ ok response
          → IsKept responses response)
      → length (requests.encode r) ≤ max_frame_size
      → (response : CommandResponse) × ((dispatch_command core files formats config_dir r h).0
          ≡ ok response)
        × (send_command requests responses (joined h) r
            ≡ received_response (responses.encode response) response)
  unfolding joined
  send_command-joined r h kept answers fits =
      let (response, is, _) = dispatch_command-Answered core files formats config_dir r h in
      (
        response,
        is,
        received (joined h) r response (answers response is) refl refl refl
            (handled r response h kept fits is),
      )
