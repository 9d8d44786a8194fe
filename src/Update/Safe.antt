-- ===== src/Update/Safe.antt =====
-- Which manifests validateManifest of pkg/update/update.go accepts.
use mini_av.Prelude.{
  ◌*◌, ◌≡◌, ◌≢◌, ◌↔◌, refl, String, some, List, [], ◌∷◌, true, false, not, arith, ok, bind-ok,
  refuse_if-ok, All, Option-cases, inl, inr, length, nat_beq, Bool-cases,
}
use Prim.Native.Char.{code}
use mini_av.Prelude.Equality.{string_eq}
use mini_av.Prelude.Text.{is_blank}
use mini_av.Signatures.Bytes.{Bytes}
use mini_av.Update.{Release, Host}
use mini_av.Update.Manifest.{
  Field, value_of, fields, byte_length, hex_decode, is_hex, check_fields, has_separator,
  safe_path_component, validate_manifest, digest_size,
}

-- Of ASCII characters, two for each byte.
hex_decode-length :
    (s : String) (bytes : Bytes) → hex_decode s ≡ some bytes → byte_length s ≡ 2 * length bytes
unfolding hex_decode byte_length
hex_decode-length String.[] bytes e = ground arith
hex_decode-length (String.◌∷◌ c String.[]) bytes e = absurd (ground arith)
hex_decode-length (String.◌∷◌ c (String.◌∷◌ d s)) bytes e = elim (Option-cases (hex_decode s)) [
  | inl n ↦ absurd (ground arith)
  | inr (rest, f) ↦ ground (arith, hex_decode-length s rest f)
]

check_fields-All :
    (m : Release) (fs : List Field) (u : Unit {0})
    → check_fields m fs ≡ ok u
    → All (λ f. is_blank (value_of f m) ≡ false) fs
unfolding check_fields
check_fields-All m [] u e = tt
check_fields-All m (f ∷ fs) u e = elim (Bool-cases (is_blank (value_of f m))) [
  | inl blank ↦ absurd (ground arith)
  | inr given ↦ (given, check_fields-All m fs u (ground arith))
]

All-check_fields :
    (m : Release) (fs : List Field)
    → All (λ f. is_blank (value_of f m) ≡ false) fs
    → check_fields m fs ≡ ok tt
unfolding check_fields
All-check_fields m [] a = refl
All-check_fields m (f ∷ fs) (a, rest) = rw (a, All-check_fields m fs rest) refl

-- No character is one of the two separators.
unfoldable pub IsPlain : String → Type 0
IsPlain String.[] = Unit
IsPlain (String.◌∷◌ c s) = (code c ≢ b'/') × (code c ≢ b'\\') × IsPlain s

has_separator-IsPlain : (s : String) → (has_separator s ≡ false) ↔ IsPlain s
unfolding has_separator IsPlain
has_separator-IsPlain String.[] = (λ e. tt, λ p. refl)
has_separator-IsPlain (String.◌∷◌ c s) =
    let (to, from) = has_separator-IsPlain s in
    (
      λ e. (ground (arith, e), ground (arith, e), to (ground (arith, e))),
      λ (slash, backslash, rest). ground (arith, slash, backslash, from rest),
    )

module _ (host : Host) where
  -- The text can be the name of one directory: it is neither the directory itself nor the one above,
  -- and has no separator and no volume.
  abbrev pub IsName : String → Type 0
  IsName s = (s ≢ ".") × (s ≢ "..") × IsPlain s × (host.volume_name s ≡ "")

  safe_path_component-IsName : (s : String) → (safe_path_component host s ≡ true) ↔ IsName s
  unfolding safe_path_component
  safe_path_component-IsName s =
      let (to, from) = has_separator-IsPlain s in
      let volume = string_eq.decides (host.volume_name s) "" in
      let here = string_eq.decides s "." in
      let above = string_eq.decides s ".." in
      (
        λ e. (
          ground (arith, e, here),
          ground (arith, e, above),
          to (ground (arith, e)),
          ground (arith, e, volume),
        ),
        λ (a, b, plain, c). ground (arith, a, b, from plain, c, here, above, volume),
      )

  -- Every field is given, the names can be names of directories, and the digest is of 32 bytes.
  pub record IsSafe (m : Release) : Type 0 where
    pub scanner_given : is_blank m.scanner_id ≡ false
    pub version_given : is_blank m.worker_version ≡ false
    pub signature_given : is_blank m.signature_version ≡ false
    pub artifact_given : is_blank m.artifact_path ≡ false
    pub digest_given : is_blank m.sha256 ≡ false
    pub scanner_named : IsName m.scanner_id
    pub version_named : IsName m.worker_version
    pub digest : Bytes
    pub decoded : hex_decode m.sha256 ≡ some digest
    pub size : length digest ≡ 32

  checks-IsSafe :
      (m : Release) (u : Unit {0})
      → check_fields m fields ≡ ok u
      → not (safe_path_component host m.scanner_id) ≡ false
      → not (safe_path_component host m.worker_version) ≡ false
      → not (nat_beq (byte_length m.sha256) (digest_size * 2)) ≡ false
      → not (is_hex (hex_decode m.sha256)) ≡ false
      → IsSafe m
  checks-IsSafe m u a one two size hex = elim (Option-cases (hex_decode m.sha256)) [
    | inl n ↦ absurd (ground (arith, n, hex))
    | inr (digest, f) ↦
        (let (scanner, (version, (signature, (artifact, (given, _))))) =
            check_fields-All m fields u a in
          record {
            scanner_given = scanner;
            version_given = version;
            signature_given = signature;
            artifact_given = artifact;
            digest_given = given;
            scanner_named = (safe_path_component-IsName m.scanner_id).0 (ground (arith, one));
            version_named = (safe_path_component-IsName m.worker_version).0 (ground (arith, two));
            digest = digest;
            decoded = f;
            size = ground (arith, size, hex_decode-length m.sha256 digest f);
          })
  ]

  validate_manifest-means : (m : Release) → validate_manifest host m ≡ ok tt → IsSafe m
  unfolding validate_manifest
  validate_manifest-means m h =
      let (u, a, h1) = bind-ok _ _ h in
      let (_, b, h2) = bind-ok _ _ h1 in
      let (_, c, h3) = bind-ok _ _ h2 in
      let (_, d, h4) = bind-ok _ _ h3 in
      let (_, e, h5) = bind-ok _ _ h4 in
      checks-IsSafe m u a (refuse_if-ok _ _ b) (refuse_if-ok _ _ c) (refuse_if-ok _ _ d)
        (refuse_if-ok _ _ e)

  validate_manifest-accepts : (m : Release) → IsSafe m → validate_manifest host m ≡ ok tt
  unfolding validate_manifest
  validate_manifest-accepts m safe =
      let long : nat_beq (byte_length m.sha256) (digest_size * 2) ≡ true =
        ground (arith, safe.size, hex_decode-length m.sha256 safe.digest safe.decoded) in
      let given : All (λ f. is_blank (value_of f m) ≡ false) fields = (
        safe.scanner_given,
        (
          safe.version_given,
          (safe.signature_given, (safe.artifact_given, (safe.digest_given, tt))),
        ),
      ) in
      let one = (safe_path_component-IsName m.scanner_id).1 safe.scanner_named in
      let two = (safe_path_component-IsName m.worker_version).1 safe.version_named in
      rw (All-check_fields m fields given, one, two, long, safe.decoded) refl

  -- A manifest is accepted exactly when its five fields are not blank, the scanner ID and the version
  -- are neither "." nor ".." and have no slash, no backslash and no volume, and the digest is
  -- hexadecimal and has the 32 bytes of a SHA-256.
  pub validate_manifest-IsSafe : (m : Release) → (validate_manifest host m ≡ ok tt) ↔ IsSafe m
  validate_manifest-IsSafe m = (validate_manifest-means m, validate_manifest-accepts m)
