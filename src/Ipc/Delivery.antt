-- ===== src/Ipc/Delivery.antt =====
-- What a Decoder reads of what an Encoder wrote (pkg/ipc/ipc.go).
use mini_av.Prelude.{
  suc, ◌≤◌, ◌≡◌, ◌≢◌, refl, sym, ◌∙◌, ap, String, Option, none, some, List, [], ◌∷◌, ◌++◌,
  append_assoc, append-nil, arith, ltb, length, map, Result, ok, err, All, Bool-cases, inl, inr,
}
use mini_av.Signatures.Bytes.{Bytes}
use mini_av.Protocol.{Message}
use mini_av.Protocol.Validate.{validate}
use mini_av.Protocol.Wire.{Json, IsJson, WireError, marshal, unmarshal}
use mini_av.Protocol.Roundtrip.{unmarshal-marshal}
use mini_av.Ipc.{Raw, max_frame_size}
use mini_av.Ipc.Writing.{
  Writer, WriteResult, EncodeResult, write_all, encoded, go_on, write_frame, encode, encode_each,
}
use mini_av.Ipc.Reading.{Slice, Decoder, new_decoder, read_slice, take_slice, decode, decode_each}
use mini_av.Ipc.Frames.{IsWriter, Delivers, write_all-Delivers, HasNoNewline, read_slice-line}

module _ (j : Json) (law : IsJson j) (raw : Raw j.Payload) where
  -- A message that the protocol gives back, and whose JSON is a text without a newline, as
  -- json.Marshal writes it, of which the slice is the list of its bytes.
  pub record Travels (m : Message) : Type 0 where
    pub valid : validate m ≡ none
    pub nonempty : m.capabilities ≢ some []
    pub one_line : (p : j.Payload) → marshal j m ≡ ok p → HasNoNewline (raw.bytes p)
    pub whole : (p : j.Payload) → marshal j m ≡ ok p → raw.payload (raw.bytes p) ≡ p

  decode-line :
      (payload rest : Bytes) (d : Decoder)
      → d.failure ≡ none
      → d.stream ≡ payload ++ b'\n' ∷ rest
      → HasNoNewline payload
      → length payload ≤ max_frame_size
      → decode j raw d ≡ take_slice j raw (Slice.line payload rest) d
  unfolding decode
  decode-line payload rest d f e h l =
      let taken : read_slice (suc max_frame_size) d.stream ≡ Slice.line payload rest =
        ap (read_slice (suc max_frame_size)) e
        ∙ read_slice-line (suc max_frame_size) payload rest h (omega arith) in
      ground arith

  decode-frame :
      (m : Message) (p : j.Payload) (rest : Bytes) (ending : Option String)
      → Travels m
      → marshal j m ≡ ok p
      → length (raw.bytes p) ≤ max_frame_size
      → decode j raw (new_decoder (raw.bytes p ++ b'\n' ∷ rest) ending)
        ≡ (ok m, new_decoder rest ending)
  unfolding take_slice
  decode-frame m p rest ending t e l =
      let (q, sent, back) = unmarshal-marshal j law m t.valid t.nonempty in
      let same : q ≡ p = ground (arith, sent, e) in
      let whole = t.whole p e in
      let read : unmarshal j (raw.payload (raw.bytes p)) ≡ ok m = rw (whole, ← same) back in
      decode-line (raw.bytes p) rest (new_decoder (raw.bytes p ++ b'\n' ∷ rest) ending) refl refl
        (t.one_line p e) l
      ∙ ground (arith, read)

  module _ {S : Type 0} (writer : Writer S) (io : IsWriter writer) where
    Wrote : j.Payload → S → S → Type 0
    Wrote p s after =
        (length (raw.bytes p) ≤ max_frame_size)
        × (io.received after ≡ io.received s ++ (raw.bytes p ++ b'\n' ∷ []))

    encoded-sent :
        (r : WriteResult × S) (after : S)
        → encoded writer r ≡ (EncodeResult.sent, after)
        → r ≡ (WriteResult.written, after)
    encoded-sent (WriteResult.written, s) after h = ground arith
    encoded-sent (WriteResult.short_write, s) after h = absurd (ground arith)
    encoded-sent (WriteResult.out_of_fuel, s) after h = absurd (ground arith)
    encoded-sent (WriteResult.failed e, s) after h = absurd (ground arith)

    delivered :
        (frame : Bytes) (s after : S) (r : WriteResult × S)
        → Delivers writer io frame s r
        → r ≡ (WriteResult.written, after)
        → io.received after ≡ io.received s ++ frame
    delivered frame s after r (fuel, passed, left, e, d, full) h =
        let none_left = full (ap (λ x. x.0) h) in
        ap (λ x. io.received x.1) (sym h)
        ∙ d
        ∙ ap (λ x. io.received s ++ x)
            (sym (append-nil passed) ∙ ap (λ x. passed ++ x) (sym none_left) ∙ sym e)

    write_frame-sent :
        (r : Result WireError j.Payload) (s after : S)
        → write_frame writer j raw r s ≡ (EncodeResult.sent, after)
        → (p : j.Payload) × (r ≡ ok p) × Wrote p s after
    unfolding write_frame Wrote
    write_frame-sent (err e) s after h = absurd (ground arith)
    write_frame-sent (ok p) s after h =
        let frame : Bytes = raw.bytes p ++ b'\n' ∷ [] in
        elim (Bool-cases (ltb max_frame_size (length (raw.bytes p)))) [
          | inl large ↦ absurd (ground arith)
          | inr fits ↦ (
            p,
            refl,
            (
              ground arith,
              delivered frame s after (write_all writer (length frame) frame s)
                  (write_all-Delivers writer io (length frame) frame s (omega arith))
                  (encoded-sent (write_all writer (length frame) frame s) after (ground arith)),
            ),
          )
        ]

    go_on-sent :
        (r : EncodeResult × S) (f : S → EncodeResult × S) (after : S)
        → go_on writer j raw r f ≡ (EncodeResult.sent, after)
        → (mid : S) × (r ≡ (EncodeResult.sent, mid)) × (f mid ≡ (EncodeResult.sent, after))
    go_on-sent (EncodeResult.sent, s) f after h = (s, refl, h)
    go_on-sent (EncodeResult.too_large, s) f after h = absurd (ground arith)
    go_on-sent (EncodeResult.invalid e, s) f after h = absurd (ground arith)
    go_on-sent (EncodeResult.not_written w, s) f after h = absurd (ground arith)

    -- Messages that an Encoder sends one after the other over a writer that keeps the
    -- documentation of io.Writer are the messages that a Decoder reads of the bytes that it wrote,
    -- in that order, with what follows on the stream left for later.
    pub decode_each-encode_each :
        (ms : List Message) (s after : S) (rest : Bytes) (ending : Option String)
        → All Travels ms
        → encode_each writer j raw ms s ≡ (EncodeResult.sent, after)
        → (added : Bytes) × (io.received after ≡ io.received s ++ added)
          × (decode_each j raw (length ms) (new_decoder (added ++ rest) ending)
              ≡ (map ok ms, new_decoder rest ending))
    unfolding encode_each decode_each encode Wrote
    decode_each-encode_each [] s after rest ending t h =
        ([], ap (λ x. io.received x.1) (sym h) ∙ sym (append-nil (io.received s)), refl)
    decode_each-encode_each (m ∷ ms) s after rest ending (t, ts) h =
        let (mid, first, others) =
          go_on-sent (encode writer j raw m s) (λ x. encode_each writer j raw ms x) after h in
        let (p, e, (fits, w)) = write_frame-sent (marshal j m) s mid first in
        let (added, d, back) = decode_each-encode_each ms mid after rest ending ts others in
        let frame : Bytes = raw.bytes p ++ b'\n' ∷ [] in
        (
          frame ++ added,
          d ∙ ap (λ x. x ++ added) w ∙ append_assoc (io.received s) frame added,
          simp (
            append_assoc frame added rest,
            append_assoc (raw.bytes p) (b'\n' ∷ []) (added ++ rest),
            decode-frame m p (added ++ rest) ending t e fits,
            back,
          ),
        )
