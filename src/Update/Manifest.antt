-- ===== src/Update/Manifest.antt =====
-- validateManifest, safePathComponent, decodeManifest and isRemoteSource of pkg/update/update.go. A
-- json.Decoder is what its calls answer.
use Prim.Native.Char.{code}
use text.Mathlib.Text.{starts_with}
use mini_av.Prelude.{
  ℕ, ◌+◌, ◌*◌, ◌-◌, String, Option, none, some, List, [], ◌∷◌, Bool, true, false, ◌&&◌, ◌||◌, not,
  if◌then◌else◌, ltb, leb, nat_beq, Result, ok, err, ◌>>=◌, ◌>>◌, refuse_if,
}
use mini_av.Prelude.Equality.{◌==◌, contains, string_eq}
use mini_av.Prelude.Text.{is_blank}
use mini_av.Signatures.Bytes.{Bytes}
use mini_av.Update.{Release, Host}

pub data Field : Type 0 where
  scanner_id worker_version signature_version artifact_path sha256 : Field

pub data ManifestError : Type 0 where
  empty_field unsafe_component : Field → ManifestError
  bad_digest_length bad_digest : ManifestError
  decode_failed : String → ManifestError
  not_an_object bad_key bad_ending multiple_values unexpected_end : ManifestError
  duplicate_field unknown_field : String → ManifestError

-- How many bytes a character has in UTF-8.
abbrev width : ℕ → ℕ
width c = if ltb c 0x80 then 1 else if ltb c 0x800 then 2 else if ltb c 0x10000 then 3 else 4

-- len(s)
unfoldable pub byte_length : String → ℕ
byte_length String.[] = 0
byte_length (String.◌∷◌ c s) = width (code c) + byte_length s

-- strings.ContainsAny(value, `/\\`)
unfoldable pub has_separator : String → Bool
has_separator String.[] = false
has_separator (String.◌∷◌ c s) = nat_beq (code c) b'/' || nat_beq (code c) b'\\' || has_separator s

abbrev pub hex_digit : ℕ → Option ℕ
hex_digit c =
    if leb b'0' c && leb c b'9'
    then some (c - b'0')
    else if leb b'a' c && leb c b'f'
    then some (c - b'a' + 10)
    else if leb b'A' c && leb c b'F'
    then some (c - b'A' + 10)
    else none

abbrev pub pair : Option ℕ → Option ℕ → Option Bytes → Option Bytes
pair (some high) (some low) (some rest) = some ((high * 16 + low) ∷ rest)
pair _ _ _ = none

-- hex.DecodeString, `none` for an error.
unfoldable pub hex_decode : String → Option Bytes
hex_decode String.[] = some []
hex_decode (String.◌∷◌ c String.[]) = none
hex_decode (String.◌∷◌ c (String.◌∷◌ d s)) =
    pair (hex_digit (code c)) (hex_digit (code d)) (hex_decode s)

-- sha256.Size
abbrev pub digest_size : ℕ
digest_size = 32

abbrev pub value_of : Field → Release → String
value_of Field.scanner_id m = m.scanner_id
value_of Field.worker_version m = m.worker_version
value_of Field.signature_version m = m.signature_version
value_of Field.artifact_path m = m.artifact_path
value_of Field.sha256 m = m.sha256

abbrev pub fields : List Field
fields =
    Field.scanner_id ∷ Field.worker_version ∷ Field.signature_version ∷ Field.artifact_path
    ∷ Field.sha256 ∷ []

-- The loop over the fields.
unfoldable pub check_fields : Release → List Field → Result ManifestError (Unit {0})
check_fields m [] = ok tt
check_fields m (f ∷ fs) =
    let rest = check_fields m fs in
    if is_blank (value_of f m) then err (ManifestError.empty_field f) else rest

abbrev pub is_hex : Option Bytes → Bool
is_hex none = false
is_hex (some s) = true

module _ (host : Host) where
  unfoldable pub safe_path_component : String → Bool
  safe_path_component value =
      not (value == ".")
      && not (value == "..")
      && not (has_separator value)
      && host.volume_name value == ""

  unfoldable pub validate_manifest : Release → Result ManifestError (Unit {0})
  validate_manifest m = do
    check_fields m fields
    refuse_if (not (safe_path_component m.scanner_id))
        (ManifestError.unsafe_component Field.scanner_id)
    refuse_if (not (safe_path_component m.worker_version))
        (ManifestError.unsafe_component Field.worker_version)
    refuse_if (not (nat_beq (byte_length m.sha256) (digest_size * 2)))
        ManifestError.bad_digest_length
    refuse_if (not (is_hex (hex_decode m.sha256))) ManifestError.bad_digest
    ok tt

  unfoldable pub is_remote_source : String → Bool
  is_remote_source source =
      let lower = host.to_lower (host.trim_space source) in
      starts_with lower "http://" || starts_with lower "https://"

-- What a call of Token answers.
pub data Token : Type 0 where
  failed : String → Token
  end_of_input open_object close_object other : Token
  string : String → Token

-- A key with what Decode finds after it. The JSON null leaves the text as it is.
pub record Entry : Type 0 where
  pub key : Token
  pub value : Result String (Option String)

-- `entries` are what is read as long as More returns true.
pub record Document : Type 0 where
  pub opening : Token
  pub entries : List Entry
  pub closing : Token
  pub trailing : Token

-- The errors of a Token call, io.EOF included, that the code hands on.
abbrev pub expect : Token → Result ManifestError Token
expect (Token.failed e) = err (ManifestError.decode_failed e)
expect Token.end_of_input = err ManifestError.unexpected_end
expect t = ok t

abbrev pub is_open : Token → Bool
is_open Token.open_object = true
is_open _ = false

abbrev pub is_close : Token → Bool
is_close Token.close_object = true
is_close _ = false

-- The token.(string) of a key.
abbrev pub key_text : Token → Result ManifestError String
key_text (Token.string name) = ok name
key_text _ = err ManifestError.bad_key

-- The switch on the name.
unfoldable pub target : String → Option Field
target name =
    if name == "scannerId"
    then some Field.scanner_id
    else if name == "workerVersion"
    then some Field.worker_version
    else if name == "signatureVersion"
    then some Field.signature_version
    else if name == "artifactPath"
    then some Field.artifact_path
    else if name == "sha256"
    then some Field.sha256
    else none

abbrev pub known : String → Option Field → Result ManifestError Field
known name none = err (ManifestError.unknown_field name)
known name (some f) = ok f

abbrev pub put : Field → String → Release → Release
put Field.scanner_id v m = record m { scanner_id = v }
put Field.worker_version v m = record m { worker_version = v }
put Field.signature_version v m = record m { signature_version = v }
put Field.artifact_path v m = record m { artifact_path = v }
put Field.sha256 v m = record m { sha256 = v }

-- decoder.Decode(target)
abbrev pub store : Field → Result String (Option String) → Release → Result ManifestError Release
store f (err e) m = err (ManifestError.decode_failed e)
store f (ok none) m = ok m
store f (ok (some v)) m = ok (put f v m)

unfoldable pub decode_entries : List String → Release → List Entry → Result ManifestError Release
decode_entries seen m [] = ok m
decode_entries seen m (x ∷ entries) = do
  token ← expect x.key
  name ← key_text token
  refuse_if (contains seen name) (ManifestError.duplicate_field name)
  field ← known name (target name)
  after ← store field x.value m
  decode_entries (name ∷ seen) after entries

abbrev pub empty_release : Release
empty_release = record {
  scanner_id = "";
  worker_version = "";
  signature_version = "";
  artifact_path = "";
  sha256 = "";
}

-- The Token after the object, which must not find one.
abbrev pub at_end : Token → Release → Result ManifestError Release
at_end Token.end_of_input m = ok m
at_end (Token.failed e) m = err (ManifestError.decode_failed e)
at_end _ m = err ManifestError.multiple_values

unfoldable pub decode_manifest : Document → Result ManifestError Release
decode_manifest d = do
  opening ← expect d.opening
  refuse_if (not (is_open opening)) ManifestError.not_an_object
  m ← decode_entries [] empty_release d.entries
  closing ← expect d.closing
  refuse_if (not (is_close closing)) ManifestError.bad_ending
  at_end d.trailing m
