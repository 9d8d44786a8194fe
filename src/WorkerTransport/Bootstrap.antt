-- ===== src/WorkerTransport/Bootstrap.antt =====
-- ReadBootstrap and WriteBootstrap of pkg/workertransport/transport.go: the line in which a worker
-- tells Core its address.
use mini_av.Prelude.{
  suc, ◌≤◌, ◌≡◌, refl, sym, subst, ap, ◌∙◌, String, Option, [], ◌∷◌, ◌++◌, length, length-append,
  append_assoc, if◌then◌else◌, ltb, false, Result, ok, err, ◌>>=◌, ◌>>◌, refuse_if, arith,
  le→ltb-false,
}
use mini_av.Prelude.Text.{is_blank}
use mini_av.Signatures.Bytes.{Bytes}
use mini_av.Config.Check.{or_error}
use mini_av.Ipc.{max_frame_size}
use mini_av.Ipc.Limited.{End, read_limited, read_limited-line, Codec, IsKept}

pub record Bootstrap : Type 0 where
  pub address : String

pub data BootstrapError : Type 0 where
  too_large empty_address : BootstrapError
  read_failed : Option String → BootstrapError
  decode_failed : String → BootstrapError

abbrev ended : End → Result BootstrapError (Unit {0})
ended End.complete = ok tt
ended (End.stopped e) = err (BootstrapError.read_failed e)

module _ (codec : Codec Bootstrap) where
  -- The bytes of the child's output, and the error after them, `none` for io.EOF.
  unfoldable pub read_bootstrap : Bytes → Option String → Result BootstrapError Bootstrap
  unfolding read_limited is_blank
  read_bootstrap s ending = do
    let (frame, end) = read_limited (suc max_frame_size) s ending
    refuse_if (ltb max_frame_size (length frame)) BootstrapError.too_large
    ended end
    bootstrap ← or_error BootstrapError.decode_failed (codec.decode frame)
    refuse_if (is_blank bootstrap.address) BootstrapError.empty_address
    ok bootstrap

  -- The bytes that are given to Write.
  unfoldable pub write_bootstrap : String → Result BootstrapError Bytes
  unfolding is_blank
  write_bootstrap address =
      if is_blank address
      then err BootstrapError.empty_address
      else ok (codec.encode (record { address = address }))

  line_read :
      (b : Bootstrap) (kept : IsKept codec b) (rest : Bytes) (ending : Option String)
      → length (kept.payload ++ b'\n' ∷ []) ≤ max_frame_size
      → is_blank b.address ≡ false
      → read_bootstrap (kept.payload ++ b'\n' ∷ rest) ending ≡ ok b
  unfolding read_bootstrap
  line_read b kept rest ending fits filled =
      let payload = kept.payload in
      let size = length-append payload (b'\n' ∷ []) in
      let taken =
        read_limited-line (suc max_frame_size) payload rest ending kept.one_line
          (omega (arith, size, fits)) in
      let small : ltb max_frame_size (length (payload ++ b'\n' ∷ [])) ≡ false =
        le→ltb-false (length (payload ++ b'\n' ∷ [])) max_frame_size fits in
      let back : codec.decode (payload ++ b'\n' ∷ []) ≡ ok b =
        subst (λ s. codec.decode s ≡ ok b) kept.line kept.decodes in
      rw (taken, small, back, filled) refl

  -- Core reads the address that a worker has written, with an encoding/json that keeps its
  -- documentation, if the line with its newline is at most 64 KiB.
  read_bootstrap-write_bootstrap :
      (address : String) (s rest : Bytes) (ending : Option String)
      → IsKept codec (record { address = address })
      → write_bootstrap address ≡ ok s
      → length s ≤ max_frame_size
      → read_bootstrap (s ++ rest) ending ≡ ok (record { address = address })
  unfolding write_bootstrap
  read_bootstrap-write_bootstrap address s rest ending kept e l =
      let b : Bootstrap = record { address = address } in
      let payload = kept.payload in
      let filled : is_blank address ≡ false = ground (arith, e) in
      let same : s ≡ payload ++ b'\n' ∷ [] = ground (arith, e, kept.line) in
      let whole : s ++ rest ≡ payload ++ b'\n' ∷ rest =
        ap (λ x. x ++ rest) same ∙ append_assoc payload (b'\n' ∷ []) rest in
      subst (λ x. read_bootstrap x ending ≡ ok b) (sym whole)
        (line_read b kept rest ending (subst (λ x. length x ≤ max_frame_size) same l) filled)
