-- ===== src/Update/Fields.antt =====
-- What decodeManifest of pkg/update/update.go reads of an object.
use mini_av.Prelude.{
  ◌≡◌, ◌≢◌, refl, sym, ◌∙◌, ap, subst, String, Option, some, List, [], ◌∷◌, Bool, true, false, not,
  ◌||◌, if◌then◌else◌, arith, Result, ok, refuse_if, bind-ok, refuse_if-ok, Bool-cases, inl, inr,
}
use mini_av.Prelude.Equality.{◌==◌, ==_refl, ==_ne, ==→≡, contains, string_eq}
use mini_av.Update.{Release}
use mini_av.Update.Manifest.{
  Field, ManifestError, Token, Entry, Document, value_of, target, known, store, expect, key_text,
  empty_release, at_end, is_open, is_close, decode_entries, decode_manifest,
}

abbrev pub name_of : Field → String
name_of Field.scanner_id = "scannerId"
name_of Field.worker_version = "workerVersion"
name_of Field.signature_version = "signatureVersion"
name_of Field.artifact_path = "artifactPath"
name_of Field.sha256 = "sha256"

abbrev is_key : String → Token → Bool
is_key name (Token.string key) = key == name
is_key name _ = false

-- The text that an entry has, the null being none.
abbrev text_or : String → Result String (Option String) → String
text_or default (ok (some v)) = v
text_or default _ = default

-- The value of the first entry with the key.
unfoldable pub value_at : String → String → List Entry → String
value_at name default [] = default
value_at name default (x ∷ xs) =
    let rest = value_at name default xs in
    if is_key name x.key then text_or default x.value else rest

target_name : (name : String) (f : Field) → target name ≡ some f → name ≡ name_of f
unfolding target
target_name name f e = ground (
  arith,
  ==→≡ name "scannerId",
  ==→≡ name "workerVersion",
  ==→≡ name "signatureVersion",
  ==→≡ name "artifactPath",
  ==→≡ name "sha256",
)

target-name_of : (f : Field) → target (name_of f) ≡ some f
unfolding target
target-name_of Field.scanner_id = refl
target-name_of Field.worker_version = refl
target-name_of Field.signature_version = refl
target-name_of Field.artifact_path = refl
target-name_of Field.sha256 = refl

store_same :
    (f : Field) (v : Result String (Option String)) (m after : Release)
    → store f v m ≡ ok after
    → value_of f after ≡ text_or (value_of f m) v
store_same Field.scanner_id v m after e = ground arith
store_same Field.worker_version v m after e = ground arith
store_same Field.signature_version v m after e = ground arith
store_same Field.artifact_path v m after e = ground arith
store_same Field.sha256 v m after e = ground arith

store_other :
    (f g : Field) (v : Result String (Option String)) (m after : Release)
    → store g v m ≡ ok after
    → g ≢ f
    → value_of f after ≡ value_of f m
store_other Field.scanner_id g v m after e n = ground arith
store_other Field.worker_version g v m after e n = ground arith
store_other Field.signature_version g v m after e n = ground arith
store_other Field.artifact_path g v m after e n = ground arith
store_other Field.sha256 g v m after e n = ground arith

-- An entry that is read, with what follows it.
abbrev IsRead : List String → Release → Entry → List Entry → Release → Type 0
IsRead seen m x xs r =
    (name : String) × (f : Field) × (after : Release) × (x.key ≡ Token.string name)
    × (contains seen name ≡ false)
    × (target name ≡ some f)
    × (store f x.value m ≡ ok after)
    × (decode_entries (name ∷ seen) after xs ≡ ok r)

key_is :
    (t token : Token) (name : String)
    → expect t ≡ ok token
    → key_text token ≡ ok name
    → t ≡ Token.string name
key_is t token name e k = ground arith

known_is : (name : String) (o : Option Field) (f : Field) → known name o ≡ ok f → o ≡ some f
known_is name o f e = ground arith

entry-IsRead :
    (seen : List String) (m : Release) (x : Entry) (xs : List Entry) (r : Release)
    → decode_entries seen m (x ∷ xs) ≡ ok r
    → IsRead seen m x xs r
unfolding decode_entries
entry-IsRead seen m x xs r e =
    let (token, a, e1) = bind-ok _ _ e in
    let (name, b, e2) = bind-ok _ _ e1 in
    let (u, c, e3) = bind-ok _ _ e2 in
    let (f, d, e4) = bind-ok _ _ e3 in
    let (after, s, e5) = bind-ok _ _ e4 in
    (
      name,
      f,
      after,
      key_is x.key token name a b,
      refuse_if-ok _ _ c,
      known_is name (target name) f d,
      s,
      e5,
    )

-- A field whose key was seen is not written again.
stays_read :
    (f : Field) (seen : List String) (m : Release) (xs : List Entry) (r : Release)
    → decode_entries seen m xs ≡ ok r
    → contains seen (name_of f) ≡ true
    → value_of f r ≡ value_of f m
unfolding decode_entries contains
stays_read f seen m [] r e c = ap (value_of f) (sym (ground arith))
stays_read f seen m (x ∷ xs) r e c =
    let (name, g, after, k, fresh, t, s, rest) = entry-IsRead seen m x xs r e in
    let other : g ≢ f = λ same.
      absurd (ground (arith, ap (contains seen) (target_name name g t ∙ ap name_of same))) in
    let added : contains (name ∷ seen) (name_of f) ≡ true = ground (arith, c) in
    stays_read f (name ∷ seen) after xs r rest added ∙ store_other f g x.value m after s other

read_value :
    (f : Field) (seen : List String) (m : Release) (xs : List Entry) (r : Release)
    → decode_entries seen m xs ≡ ok r
    → contains seen (name_of f) ≡ false
    → value_of f r ≡ value_at (name_of f) (value_of f m) xs
unfolding decode_entries contains value_at
read_value f seen m [] r e c = ap (value_of f) (sym (ground arith))
read_value f seen m (x ∷ xs) r e c =
    let (name, g, after, k, fresh, t, s, rest) = entry-IsRead seen m x xs r e in
    elim (Bool-cases (name == name_of f)) [
      | inl same ↦
          (let is : name ≡ name_of f = ==→≡ name (name_of f) same in
            let field : g ≡ f = ground (arith, t, target-name_of f, ap target is) in
            let keyed : is_key (name_of f) x.key ≡ true = ap (is_key (name_of f)) k ∙ same in
            let added : contains (name ∷ seen) (name_of f) ≡ true =
              ap (λ n. (n == name) || contains seen n) (sym is)
              ∙ ap (λ b. b || contains seen name) (==_refl name) in
            rw keyed (
              stays_read f (name ∷ seen) after xs r rest added
              ∙ store_same f x.value m after (subst (λ h. store h x.value m ≡ ok after) field s)))
      | inr other ↦
          (let differs : name_of f ≢ name =
              λ q. absurd (ground (arith, ap (λ n. n == name_of f) q, ==_refl (name_of f))) in
            let field : g ≢ f = λ q. differs (sym (target_name name g t ∙ ap name_of q)) in
            let keyed : is_key (name_of f) x.key ≡ false = ap (is_key (name_of f)) k ∙ other in
            let missing : contains (name ∷ seen) (name_of f) ≡ false =
              ap (λ b. b || contains seen (name_of f)) (==_ne (name_of f) name differs) ∙ c in
            rw keyed (
              read_value f (name ∷ seen) after xs r rest missing
              ∙ ap (λ d. value_at (name_of f) d xs) (store_other f g x.value m after s field)))
    ]

value_of_empty : (f : Field) → value_of f empty_release ≡ ""
value_of_empty Field.scanner_id = refl
value_of_empty Field.worker_version = refl
value_of_empty Field.signature_version = refl
value_of_empty Field.artifact_path = refl
value_of_empty Field.sha256 = refl

ended : (t : Token) (r m : Release) → at_end t r ≡ ok m → r ≡ m
ended t r m e = ground arith

-- Each field of a manifest that is decoded is the text that stands in the document under its key, and
-- empty if the key is missing or the value is null, in whatever order the keys come.
pub decode_manifest-value_at :
    (d : Document) (m : Release) (f : Field)
    → decode_manifest d ≡ ok m
    → value_of f m ≡ value_at (name_of f) "" d.entries
unfolding decode_manifest contains
decode_manifest-value_at d m f e =
    let (opening, a, e1) = bind-ok (expect d.opening) _ e in
    let (_, b, e2) = bind-ok (refuse_if (not (is_open opening)) ManifestError.not_an_object) _ e1 in
    let (r, c, e3) = bind-ok (decode_entries [] empty_release d.entries) _ e2 in
    let (closing, g, e4) = bind-ok (expect d.closing) _ e3 in
    let (_, h, e5) = bind-ok (refuse_if (not (is_close closing)) ManifestError.bad_ending) _ e4 in
    let same : r ≡ m = ended d.trailing r m e5 in
    ap (value_of f) (sym same)
    ∙ read_value f [] empty_release d.entries r c refl
    ∙ ap (λ x. value_at (name_of f) x d.entries) (value_of_empty f)
