-- ===== src/Signatures/Search.antt =====
-- `match` of pkg/signatures/signatures.go finds in a stream what is in its bytes, wherever the
-- reads cut it.
use mini_av.Prelude.{
  ℕ, ◌-◌, ◌≡◌, refl, sym, ◌∙◌, ap, subst, ◌⊎◌, inl, inr, ◌≢◌, none, some, List, [], ◌∷◌, ◌++◌,
  append_assoc, append-nil, length, take, drop, take-append-drop, length-append, All, arith,
  Bool-cases, Option-cases,
}
use mathlib.Core.List.{Memᴰ}
use mini_av.Signatures.Bytes.{
  Bytes, Occurs, bytes_contains, bytes_contains-Occurs, Occurs-bytes_contains,
}
use mini_av.Signatures.Match.{
  Database, Read, ReadError, MatchResult, find_pattern, match_from, match_reader,
}
use mini_av.Signatures.Load.{Fits, IsWellFormed}
use mini_av.Signatures.Window.{drop_nil, overlap, Occurs-overlap, next_tail-overlap}

-- No pattern stands in the text.
abbrev pub Clear : List Bytes → Bytes → Type 0
Clear patterns s = All (λ p. Occurs p s → ⊥) patterns

-- A pattern of the list stands in the text.
abbrev pub Hit : List Bytes → Bytes → Bytes → Type 0
Hit patterns s p = Memᴰ p patterns × Occurs p s

find_pattern-Hit :
    (patterns : List Bytes) (window p : Bytes)
    → find_pattern patterns window ≡ some p
    → Hit patterns window p
unfolding find_pattern
find_pattern-Hit [] window p h = absurd (ground arith)
find_pattern-Hit (q ∷ patterns) window p h = elim (Bool-cases (bytes_contains window q)) [
  | inl here ↦
      (let is : q ≡ p = ground arith in
        (Memᴰ.head (sym is), subst (λ x. Occurs x window) is (bytes_contains-Occurs window q here)))
  | inr later ↦ (let (m, o) = find_pattern-Hit patterns window p (ground arith) in (Memᴰ.tail m, o))
]

find_pattern-Clear :
    (patterns : List Bytes) (window : Bytes)
    → find_pattern patterns window ≡ none
    → Clear patterns window
unfolding find_pattern
find_pattern-Clear [] window h = tt
find_pattern-Clear (q ∷ patterns) window h = (
  λ o. absurd (ground (arith, Occurs-bytes_contains window q o)),
  find_pattern-Clear patterns window (ground arith),
)

-- The end of what was seen is a part of it.
Hit-overlap :
    (max : ℕ) (patterns : List Bytes) (seen chunk p : Bytes)
    → Hit patterns (overlap max seen ++ chunk) p
    → Hit patterns (seen ++ chunk) p
Hit-overlap max patterns seen chunk p (m, (before, after, e)) =
    let cut : ℕ = length seen - (max - 1) in
    (
      m,
      (
        take cut seen ++ before,
        after,
        (ap (λ x. x ++ chunk) (sym (take-append-drop cut seen))
            ∙ append_assoc (take cut seen) (drop cut seen) chunk
            ∙ ap (◌++◌ (take cut seen)) e
            ∙ sym (append_assoc (take cut seen) before (p ++ after))),
      ),
    )

Hit-append : (patterns : List Bytes) (s t p : Bytes) → Hit patterns s p → Hit patterns (s ++ t) p
Hit-append patterns s t p (m, (before, after, e)) = (
  m,
  (
    before,
    after ++ t,
    (ap (λ x. x ++ t) e
        ∙ append_assoc before (p ++ after) t
        ∙ ap (◌++◌ before) (append_assoc p after t)),
  ),
)

Clear-overlap :
    (max : ℕ) (patterns : List Bytes) (seen chunk : Bytes)
    → All (Fits max) patterns
    → Clear patterns seen
    → Clear patterns (overlap max seen ++ chunk)
    → Clear patterns (seen ++ chunk)
Clear-overlap max [] seen chunk f c d = tt
Clear-overlap max (p ∷ patterns) seen chunk f c d = (
  λ o. d.0 (Occurs-overlap max p seen chunk f.0.0 f.0.1 c.0 o),
  Clear-overlap max patterns seen chunk f.1 c.1 d.1,
)

-- The reads of a stream that ends: each brings bytes, and the last one comes with io.EOF.
unfoldable pub reads_of : List Bytes → Bytes → List Read
reads_of [] last = record { bytes = last; error = ReadError.eof } ∷ []
reads_of (chunk ∷ chunks) last =
    record { bytes = chunk; error = ReadError.nil } ∷ reads_of chunks last

abbrev pub content : List Bytes → Bytes → Bytes
content [] last = last
content (chunk ∷ chunks) last = chunk ++ content chunks last

-- What the loop returns is right of the whole text.
abbrev pub Searches : List Bytes → Bytes → MatchResult → Type 0
Searches patterns s r =
    ((p : Bytes) × (r ≡ MatchResult.found p) × Hit patterns s p)
    ⊎ ((r ≡ MatchResult.not_found) × Clear patterns s)

-- The bytes of the last read, after which the loop ends.
search_last :
    (db : Database) (seen last : Bytes)
    → IsWellFormed db
    → Clear db.patterns seen
    → Searches db.patterns
        (seen ++ last)
        (match_from db (overlap db.max_pattern_length seen) (reads_of [] last))
unfolding match_from reads_of
search_last db seen [] v c = inr (refl, subst (Clear db.patterns) (sym (append-nil seen)) c)
search_last db seen (b ∷ s) v c =
    let window : Bytes = overlap db.max_pattern_length seen ++ b ∷ s in
    elim (Option-cases (find_pattern db.patterns window)) [
      | inl e ↦ inr (
        rw e,
        Clear-overlap db.max_pattern_length db.patterns seen (b ∷ s) v.fit c
            (find_pattern-Clear db.patterns window e),
      )
      | inr (p, e) ↦ inl (
        p,
        rw e,
        Hit-overlap db.max_pattern_length db.patterns seen (b ∷ s) p
            (find_pattern-Hit db.patterns window p e),
      )
    ]

search_from :
    (db : Database) (seen : Bytes) (chunks : List Bytes) (last : Bytes)
    → IsWellFormed db
    → All (λ c. c ≢ []) chunks
    → Clear db.patterns seen
    → Searches db.patterns
        (seen ++ content chunks last)
        (match_from db (overlap db.max_pattern_length seen) (reads_of chunks last))
unfolding match_from reads_of
search_from db seen [] last v full c = search_last db seen last v c
search_from db seen ([] ∷ chunks) last v full c = absurd (full.0 refl)
search_from db seen ((b ∷ s) ∷ chunks) last v full c =
    let max : ℕ = db.max_pattern_length in
    let window : Bytes = overlap max seen ++ b ∷ s in
    let whole = append_assoc seen (b ∷ s) (content chunks last) in
    elim (Option-cases (find_pattern db.patterns window)) [
      | inl e ↦
          rw (e, next_tail-overlap max seen (b ∷ s), ← whole)
            (search_from db (seen ++ b ∷ s) chunks last v full.1 (
              Clear-overlap max db.patterns seen (b ∷ s) v.fit c
                (find_pattern-Clear db.patterns window e)))
      | inr (p, e) ↦ inl (
        p,
        rw e,
        subst (λ x. Hit db.patterns x p) whole
            (Hit-append db.patterns (seen ++ b ∷ s) (content chunks last) p (
              Hit-overlap max db.patterns seen (b ∷ s) p
                (find_pattern-Hit db.patterns window p e))),
      )
    ]

empty-Clear : (max : ℕ) (patterns : List Bytes) → All (Fits max) patterns → Clear patterns []
empty-Clear max [] f = tt
empty-Clear max (p ∷ patterns) f = (
  λ (before, after, e).
      absurd (
        omega
          (arith, ap length e, length-append before (p ++ after), length-append p after, f.0.0)),
  empty-Clear max patterns f.1,
)

-- A stream that ends is searched to the end: with a well-formed database, however the reads cut
-- the text, the loop returns a pattern of the database that stands in the text, or finds none and
-- then no pattern stands there, also none across the reads.
pub match_reader-Searches :
    (db : Database) (chunks : List Bytes) (last : Bytes)
    → IsWellFormed db
    → All (λ c. c ≢ []) chunks
    → Searches db.patterns (content chunks last) (match_reader db (reads_of chunks last))
unfolding match_reader
match_reader-Searches db chunks last v full =
    let max : ℕ = db.max_pattern_length in
    subst
      (λ tail.
        Searches db.patterns (content chunks last) (match_from db tail (reads_of chunks last)))
      (drop_nil (0 - (max - 1)))
      (search_from db [] chunks last v full (empty-Clear max db.patterns v.fit))
