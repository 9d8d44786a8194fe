-- ===== src/Ipc/Reading.antt =====
-- The Decoder of pkg/ipc/ipc.go. What bufio.Reader.ReadSlice does is written out: it takes the bytes
-- up to a newline, or as many as the buffer holds, or what is left of the stream.
use mini_av.Prelude.{
  ℕ, zero, suc, String, Option, none, some, List, [], ◌∷◌, if◌then◌else◌, nat_beq, ltb, length,
  Result, ok, err,
}
use mini_av.Signatures.Bytes.{Bytes}
use mini_av.Protocol.{Message}
use mini_av.Protocol.Wire.{Json, WireError, unmarshal}
use mini_av.Ipc.{Raw, FrameError, max_frame_size}

-- A line without its newline and the bytes after it; the bytes after a full buffer; the last bytes.
pub data Slice : Type 0 where
  line : Bytes → Bytes → Slice
  buffer_full : Bytes → Slice
  ended : Bytes → Slice

abbrev prepend : ℕ → Slice → Slice
prepend b (Slice.line payload rest) = Slice.line (b ∷ payload) rest
prepend b (Slice.buffer_full rest) = Slice.buffer_full rest
prepend b (Slice.ended last) = Slice.ended (b ∷ last)

-- ReadSlice('\n') of a buffer of that size.
unfoldable pub read_slice : ℕ → Bytes → Slice
read_slice zero s = Slice.buffer_full s
read_slice (suc size) [] = Slice.ended []
read_slice (suc size) (b ∷ s) =
    let rest = prepend b (read_slice size s) in if nat_beq b b'\n' then Slice.line [] s else rest

pub data DecodeError : Type 0 where
  failed : FrameError → DecodeError
  end_of_stream : DecodeError
  read_failed : String → DecodeError
  invalid : WireError → DecodeError

-- `stream` is what is not read yet, and `ending` the error after it, `none` for io.EOF.
pub record Decoder : Type 0 where
  pub stream : Bytes
  pub ending : Option String
  pub failure : Option FrameError

abbrev pub new_decoder : Bytes → Option String → Decoder
new_decoder s e = record { stream = s; ending = e; failure = none }

abbrev pub Decoded : Type 0
Decoded = Result DecodeError Message × Decoder

abbrev fail : FrameError → Bytes → Decoder → Decoded
fail e rest d = (err (DecodeError.failed e), record d { stream = rest; failure = some e })

abbrev pub decoded : Result WireError Message → Result DecodeError Message
decoded (err e) = err (DecodeError.invalid e)
decoded (ok m) = ok m

-- What is left when the stream ended, with the error after it.
abbrev at_end : Bytes → Option String → Decoder → Decoded
at_end last (some e) d = (err (DecodeError.read_failed e), record d { stream = [] })
at_end [] none d = (err DecodeError.end_of_stream, record d { stream = [] })
at_end (b ∷ last) none d = fail FrameError.unterminated [] d

module _ (j : Json) (raw : Raw j.Payload) where
  unfoldable pub take_slice : Slice → Decoder → Decoded
  take_slice (Slice.buffer_full rest) d = fail FrameError.too_large rest d
  take_slice (Slice.ended last) d = at_end last d.ending d
  take_slice (Slice.line payload rest) d =
      if ltb max_frame_size (length payload)
      then fail FrameError.too_large rest d
      else (decoded (unmarshal j (raw.payload payload)), record d { stream = rest })

  unfoldable pub decode : Decoder → Decoded
  unfolding read_slice take_slice
  decode d = elim d.failure [
    | some e ↦ (err (DecodeError.failed e), d)
    | none ↦ take_slice (read_slice (suc max_frame_size) d.stream) d
  ]

  -- Calls of Decode one after the other, with what each of them returns.
  unfoldable pub decode_each : ℕ → Decoder → List (Result DecodeError Message) × Decoder
  decode_each zero d = ([], d)
  decode_each (suc n) d =
      let (result, after) = decode d in
      let (results, last) = decode_each n after in (result ∷ results, last)
