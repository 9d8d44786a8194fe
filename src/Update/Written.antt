-- ===== src/Update/Written.antt =====
-- The bytes that copyAndVerify of pkg/update/update.go writes, and those that it hashes.
use mini_av.Prelude.{
  ℕ, ◌≡◌, inl, inr, refl, sym, ◌∙◌, ap, String, none, some, [], ◌∷◌, ◌++◌, append-nil, true,
  if◌then◌else◌, arith, Result, ok, err, Option-cases,
}
use mini_av.Prelude.Actions.{next-ok}
use mini_av.Prelude.Equality.{◌==◌, ==_refl, string_eq}
use mini_av.Signatures.Bytes.{Bytes, bytes_eq}
use mini_av.Update.{Host}
use mini_av.Update.Calls.{Call, History, Stream, Env, UpdateError, call_value, call_done}
use mini_av.Update.Digest.{equal_digest}
use mini_av.Update.Staging.{
  Copied, write_chunk, after_chunk, copy_stream, copy_to, copy_and_verify, finish_copy,
}

-- The bytes that the calls have written to a path since they created it.
unfoldable pub written : String → History → Bytes
written path [] = []
written path (Call.write to s ∷ h) =
    let before = written path h in if to == path then before ++ s else before
written path (Call.create to mode ∷ h) =
    let before = written path h in if to == path then [] else before
written path (call ∷ h) = written path h

ended :
    (path : String) (s : Bytes) (mid : History) {read : Bytes} {after : History}
    → ◌≡◌ {A = Copied × History} (ok s, mid) (ok read, after)
    → written path mid ≡ s
    → written path after ≡ read
ended path s mid e w = ground arith

module _ (env : Env) where
  -- A chunk that is written without an error.
  chunk_written :
      (path : String) (s : Bytes) (h : History) (rest : History → Copied × History) {read : Bytes}
      {after : History}
      → after_chunk env (write_chunk env path s h) rest ≡ (ok read, after)
      → (mid : History) × (rest mid ≡ (ok read, after)) × (written path mid ≡ written path h ++ s)
  unfolding written
  chunk_written path [] h rest e = (h, e, sym (append-nil (written path h)))
  chunk_written path (b ∷ s) h rest e = elim (Option-cases (env.write h path (b ∷ s))) [
    | inl n ↦ (Call.write path (b ∷ s) ∷ h, ground arith, rw (==_refl path) refl)
    | inr (x, f) ↦ absurd (ground arith)
  ]

  -- What was hashed is what was written.
  copy_stream-written :
      (path : String) (stream : Stream) (hashed : Bytes) (h : History) {read : Bytes}
      {after : History}
      → copy_stream env path stream hashed h ≡ (ok read, after)
      → written path h ≡ hashed
      → written path after ≡ read
  unfolding copy_stream
  copy_stream-written path (Stream.more (some x) s rest) hashed h e w = absurd (ground arith)
  copy_stream-written path (Stream.last (some x) s error) hashed h e w = absurd (ground arith)
  copy_stream-written path (Stream.more none s rest) hashed h e w =
      let (mid, f, v) = chunk_written path s h _ e in
      copy_stream-written path rest (hashed ++ s) mid f (v ∙ ap (λ x. x ++ s) w)
  copy_stream-written path (Stream.last none s (some x)) hashed h e w =
      let (mid, f, v) = chunk_written path s h _ e in absurd (ground arith)
  copy_stream-written path (Stream.last none s none) hashed h e w =
      let (mid, f, v) = chunk_written path s h _ e in
      ended path (hashed ++ s) mid f (v ∙ ap (λ x. x ++ s) w)

  pub copy_to-written :
      (path : String) (stream : Stream) (h : History) {read : Bytes} {after : History}
      → copy_to env path stream h ≡ (ok (ok read), after)
      → written path h ≡ []
      → written path after ≡ read
  copy_to-written path stream h {read} {after} e w =
      let c : copy_stream env path stream [] h ≡ (ok read, after) = ground arith in
      copy_stream-written path stream [] h c w

  pub created :
      (path : String) (mode : ℕ) (h : History) → written path (Call.create path mode ∷ h) ≡ []
  unfolding written
  created path mode h = rw (==_refl path) refl

  module _ (host : Host) where
    -- The bytes written to the path have the digest.
    abbrev pub Matches : Bytes → String → History → Type 0
    Matches expected path h = equal_digest (host.sha256 (written path h)) expected ≡ true

    finish_copy-Matches :
        (path : String) (mode : ℕ) (expected : Bytes) (result : Copied) (h after : History)
        {u : Unit {0}}
        → finish_copy env host path mode expected result h ≡ (ok u, after)
        → ((read : Bytes) → result ≡ ok read → written path h ≡ read)
        → Matches expected path after
    unfolding written
    finish_copy-Matches path mode expected (err x) h after e w = absurd (ground arith)
    finish_copy-Matches path mode expected (ok read) h after e w = ground (arith, w read refl)

    pub copy_and_verify-Matches :
        (source : String) (mode : ℕ) (expected : Bytes) (path : String) (h after : History)
        {u : Unit {0}}
        → copy_and_verify env host source mode expected path h ≡ (ok u, after)
        → Matches expected path after
    unfolding copy_and_verify written
    copy_and_verify-Matches source mode expected path h after e =
        let (stream, h1, _, e1) =
          next-ok _ (call_value (λ k. env.open_file k source) (Call.open_file source) h) e in
        let (_, h2, made, e2) =
          next-ok _ (call_done (λ k. env.create k path mode) (Call.create path mode) h1) e1 in
        let (result, h3, copies, e3) =
          next-ok (finish_copy env host path mode expected) (copy_to env path stream h2) e2 in
        finish_copy-Matches path mode expected result h3 after e3 λ read is.
          copy_to-written path stream h2 (copies ∙ ap (λ x. (ok x, h3)) is) (
            ap (λ (x : Result UpdateError (Unit {0}) × History). written path x.1) (sym made)
            ∙ created path mode h1)
