-- ===== src/Ipc/Frames.antt =====
-- The loop of writeAll, the failure of a Decoder, and the lines that ReadSlice takes (pkg/ipc/ipc.go).
use mini_av.Prelude.{
  ℕ, zero, suc, ◌≤◌, ◌<◌, ◌≡◌, ◌≢◌, refl, sym, ◌∙◌, ap, some, [], ◌∷◌, ◌++◌, append_assoc,
  append-nil, false, arith, repeated, nat_beq, length, take, drop, length-drop, take-append-drop,
  Option-cases, inl, inr, Result, ok, err, All, if_cases, option_cases,
}
use mini_av.Signatures.Bytes.{Bytes}
use mini_av.Protocol.{Message}
use mini_av.Protocol.Wire.{Json, WireError, unmarshal}
use mini_av.Ipc.{Raw, FrameError, max_frame_size}
use mini_av.Ipc.Writing.{Writer, WriteResult, write_all}
use mini_av.Ipc.Reading.{
  Slice, DecodeError, Decoder, decoded, read_slice, take_slice, decode, decode_each,
}

-- What the documentation of io.Writer says of a call of Write: it hands on the bytes that it
-- counts, the first ones of the slice.
pub record IsWriter {S : Type 0} (writer : Writer S) : Type 0 where
  pub received : S → Bytes
  pub counts : (s : Bytes) (state : S) → (writer.write s state).0.count ≤ length s
  pub hands_on :
      (s : Bytes) (state : S)
      → received (writer.write s state).1 ≡ received state ++ take (writer.write s state).0.count s

module _ {S : Type 0} (writer : Writer S) (law : IsWriter writer) where
  -- The bytes are handed on up to some point, and up to the end if that is the result.
  abbrev pub Delivers : Bytes → S → WriteResult × S → Type 0
  Delivers s state r =
      (r.0 ≢ WriteResult.out_of_fuel)
      × (passed : Bytes) × (left : Bytes) × (s ≡ passed ++ left)
      × (law.received r.1 ≡ law.received state ++ passed)
      × (r.0 ≡ WriteResult.written → left ≡ [])

  -- A round that ends the loop.
  stops :
      (s : Bytes) (state : S) (result : WriteResult)
      → result ≢ WriteResult.out_of_fuel
      → result ≢ WriteResult.written
      → Delivers s state (result, (writer.write s state).1)
  stops s state result fuel full =
      let count : ℕ = (writer.write s state).0.count in
      (
        fuel,
        take count s,
        drop count s,
        sym (take-append-drop count s),
        law.hands_on s state,
        λ e. absurd (full e),
      )

  goes_on :
      (s : Bytes) (state : S) (r : WriteResult × S)
      → Delivers (drop (writer.write s state).0.count s) (writer.write s state).1 r
      → Delivers s state r
  goes_on s state r (fuel, passed, left, e, d, full) =
      let count : ℕ = (writer.write s state).0.count in
      (
        fuel,
        take count s ++ passed,
        left,
        sym (take-append-drop count s)
            ∙ ap (λ x. take count s ++ x) e
            ∙ sym (append_assoc (take count s) passed left),
        d
            ∙ ap (λ x. x ++ passed) (law.hands_on s state)
            ∙ append_assoc (law.received state) (take count s) passed,
        full,
      )

  -- writeAll ends within as many rounds as there are bytes, whatever the writer returns. It hands
  -- on a part from the start of the slice, and all of it if it returns nil.
  pub write_all-Delivers :
      (fuel : ℕ) (s : Bytes) (state : S)
      → length s ≤ fuel
      → Delivers s state (write_all writer fuel s state)
  unfolding write_all
  write_all-Delivers fuel [] state h =
      ((λ e. cc), [], [], refl, sym (append-nil (law.received state)), λ e. refl)
  write_all-Delivers zero (b ∷ s) state h = absurd (omega arith)
  write_all-Delivers (suc fuel) (b ∷ s) state h =
      let answer = (writer.write (b ∷ s) state).0 in
      option_cases (Delivers (b ∷ s) state) answer.error _ _
        (λ _.
          if_cases (Delivers (b ∷ s) state) (nat_beq answer.count 0) _ _
            (λ _. stops (b ∷ s) state WriteResult.short_write (λ e. cc) (λ e. cc))
            λ some_bytes. goes_on (b ∷ s) state _ (
              write_all-Delivers fuel (drop answer.count (b ∷ s)) (writer.write (b ∷ s) state).1
                (ground (arith, length-drop answer.count (b ∷ s)))))
        (λ e _. stops (b ∷ s) state (WriteResult.failed e) (λ x. cc) (λ x. cc))

abbrev pub HasNoNewline : Bytes → Type 0
HasNoNewline s = All (λ b. nat_beq b b'\n' ≡ false) s

-- A line that fits the buffer with its newline is taken whole.
pub read_slice-line :
    (size : ℕ) (payload rest : Bytes)
    → HasNoNewline payload
    → length payload < size
    → read_slice size (payload ++ b'\n' ∷ rest) ≡ Slice.line payload rest
unfolding read_slice
read_slice-line zero payload rest h l = absurd (omega arith)
read_slice-line (suc size) [] rest h l = refl
read_slice-line (suc size) (b ∷ payload) rest h l =
    rw (h.0, read_slice-line size payload rest h.1 (omega arith)) refl

module _ (j : Json) (raw : Raw j.Payload) where
  stays_failed :
      (d : Decoder) (e : FrameError)
      → d.failure ≡ some e
      → decode j raw d ≡ (err (DecodeError.failed e), d)
  unfolding decode
  stays_failed d e h = ground arith

  no_failure :
      (r : Result WireError Message) (e : FrameError) → decoded r ≢ err (DecodeError.failed e)
  no_failure (ok m) e h = cc
  no_failure (err w) e h = cc

  take_slice-failure :
      (slice : Slice) (d after : Decoder) (e : FrameError)
      → take_slice j raw slice d ≡ (err (DecodeError.failed e), after)
      → after.failure ≡ some e
  unfolding take_slice
  take_slice-failure (Slice.buffer_full rest) d after e h = ground arith
  take_slice-failure (Slice.ended []) d after e h = ground arith
  take_slice-failure (Slice.ended (b ∷ last)) d after e h = ground arith
  take_slice-failure (Slice.line payload rest) d after e h =
      ground (arith, no_failure (unmarshal j (raw.payload payload)) e)

  decode-failure :
      (d after : Decoder) (e : FrameError)
      → decode j raw d ≡ (err (DecodeError.failed e), after)
      → after.failure ≡ some e
  unfolding decode
  decode-failure d after e h = elim (Option-cases d.failure) [
    | inl n ↦ take_slice-failure (read_slice (suc max_frame_size) d.stream) d after e (ground arith)
    | inr (x, f) ↦ ground arith
  ]

  fails_again :
      (n : ℕ) (d : Decoder) (e : FrameError)
      → d.failure ≡ some e
      → decode_each j raw n d ≡ (repeated n (err (DecodeError.failed e)), d)
  unfolding decode_each repeated
  fails_again zero d e f = refl
  fails_again (suc n) d e f = simp (stays_failed d e f, fails_again n d e f)

  -- A Decoder that reports a frame that is too large or not terminated reports the same from then
  -- on, whatever the stream still holds, and reads no more of it.
  pub decode_each-failed :
      (d after : Decoder) (e : FrameError) (n : ℕ)
      → decode j raw d ≡ (err (DecodeError.failed e), after)
      → decode_each j raw n after ≡ (repeated n (err (DecodeError.failed e)), after)
  decode_each-failed d after e n h = fails_again n after e (decode-failure d after e h)
