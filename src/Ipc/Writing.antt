-- ===== src/Ipc/Writing.antt =====
-- The Encoder of pkg/ipc/ipc.go. An io.Writer is a function on a state of its own.
use mini_av.Prelude.{
  ℕ, zero, suc, String, Option, none, some, List, [], ◌∷◌, ◌++◌, if◌then◌else◌, nat_beq, ltb,
  length, drop, Result, ok, err,
}
use mini_av.Signatures.Bytes.{Bytes}
use mini_av.Protocol.{Message}
use mini_av.Protocol.Wire.{Json, WireError, marshal}
use mini_av.Ipc.{Raw, max_frame_size}

-- What a call of Write returns.
pub record WriteAnswer : Type 0 where
  pub count : ℕ
  pub error : Option String

pub record Writer (S : Type 0) : Type 0 where
  pub write : Bytes → S → WriteAnswer × S

-- `out_of_fuel` is no result of the code.
pub data WriteResult : Type 0 where
  written short_write out_of_fuel : WriteResult
  failed : String → WriteResult

pub data EncodeResult : Type 0 where
  sent too_large : EncodeResult
  invalid : WireError → EncodeResult
  not_written : WriteResult → EncodeResult

module _ {S : Type 0} (writer : Writer S) where
  -- A round of the loop of writeAll, with what the rounds after it return.
  abbrev after_write : WriteAnswer → S → WriteResult × S → WriteResult × S
  after_write answer s rest = elim answer.error [
    | some e ↦ (WriteResult.failed e, s)
    | none ↦ if nat_beq answer.count 0 then (WriteResult.short_write, s) else rest
  ]

  unfoldable pub write_all : ℕ → Bytes → S → WriteResult × S
  write_all fuel [] s = (WriteResult.written, s)
  write_all zero (b ∷ data') s = (WriteResult.out_of_fuel, s)
  write_all (suc fuel) (b ∷ data') s =
      let (answer, after) = writer.write (b ∷ data') s in
      after_write answer after (write_all fuel (drop answer.count (b ∷ data')) after)

  abbrev pub encoded : WriteResult × S → EncodeResult × S
  encoded (WriteResult.written, s) = (EncodeResult.sent, s)
  encoded (result, s) = (EncodeResult.not_written result, s)

  module _ (j : Json) (raw : Raw j.Payload) where
    unfoldable pub write_frame : Result WireError j.Payload → S → EncodeResult × S
    unfolding write_all
    write_frame (err e) s = (EncodeResult.invalid e, s)
    write_frame (ok payload) s =
        let frame = raw.bytes payload ++ b'\n' ∷ [] in
        if ltb max_frame_size (length (raw.bytes payload))
        then (EncodeResult.too_large, s)
        else encoded (write_all (length frame) frame s)

    unfoldable pub encode : Message → S → EncodeResult × S
    encode m s = write_frame (marshal j m) s

    -- Messages that are sent one after the other, up to the first that is not.
    abbrev pub go_on : EncodeResult × S → (S → EncodeResult × S) → EncodeResult × S
    go_on (EncodeResult.sent, s) rest = rest s
    go_on (result, s) rest = (result, s)

    unfoldable pub encode_each : List Message → S → EncodeResult × S
    encode_each [] s = (EncodeResult.sent, s)
    encode_each (m ∷ ms) s = go_on (encode m s) λ after. encode_each ms after
