-- ===== src/Ipc/Limited.antt =====
-- A line of a stream as cmd/miniav/transport.go and pkg/workertransport/transport.go read it: what
-- ReadBytes('\n') of a bufio.Reader over an io.LimitReader does is written out.
use mini_av.Prelude.{
  ℕ, zero, suc, ◌≤◌, ◌<◌, ◌≡◌, refl, ap, String, Option, none, [], ◌∷◌, ◌++◌, if◌then◌else◌,
  nat_beq, length, arith, Result, ok,
}
use mini_av.Signatures.Bytes.{Bytes}
use mini_av.Ipc.Frames.{HasNoNewline}

-- How the bytes end: with a newline, or before the error, `none` for io.EOF.
pub data End : Type 0 where
  complete : End
  stopped : Option String → End

-- `limit` is that of the LimitReader, which answers io.EOF past it. The stream's own error is `ending`.
unfoldable pub read_limited : ℕ → Bytes → Option String → Bytes × End
read_limited zero s ending = ([], End.stopped none)
read_limited (suc limit) [] ending = ([], End.stopped ending)
read_limited (suc limit) (b ∷ s) ending =
    let rest = read_limited limit s ending in
    if nat_beq b b'\n' then (b ∷ [], End.complete) else (b ∷ rest.0, rest.1)

pub read_limited-line :
    (limit : ℕ) (payload rest : Bytes) (ending : Option String)
    → HasNoNewline payload
    → length payload < limit
    → read_limited limit (payload ++ b'\n' ∷ rest) ending ≡ (payload ++ b'\n' ∷ [], End.complete)
unfolding read_limited
read_limited-line zero payload rest ending h l = absurd (omega arith)
read_limited-line (suc limit) [] rest ending h l = refl
read_limited-line (suc limit) (b ∷ payload) rest ending h l =
    rw (h.0, read_limited-line limit payload rest ending h.1 (omega arith)) refl

pub length-read_limited :
    (limit : ℕ) (payload rest : Bytes) (ending : Option String)
    → HasNoNewline payload
    → limit ≤ suc (length payload)
    → length (read_limited limit (payload ++ b'\n' ∷ rest) ending).0 ≡ limit
unfolding read_limited
length-read_limited zero payload rest ending h l = refl
length-read_limited (suc limit) [] rest ending h l = omega arith
length-read_limited (suc limit) (b ∷ payload) rest ending h l =
    rw h.0 (ap suc (length-read_limited limit payload rest ending h.1 (omega arith)))

-- encoding/json on the values of a type: what an Encoder writes, and what is decoded of a line.
pub record Codec (A : Type 0) : Type 0 where
  pub encode : A → Bytes
  pub decode : Bytes → Result String A

-- What the documentation says of them: the value is written on one line, and read back.
pub record IsKept {A : Type 0} (codec : Codec A) (a : A) : Type 0 where
  pub payload : Bytes
  pub line : codec.encode a ≡ payload ++ b'\n' ∷ []
  pub one_line : HasNoNewline payload
  pub decodes : codec.decode (codec.encode a) ≡ ok a
