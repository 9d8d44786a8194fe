-- ===== src/Signatures/Load.antt =====
-- `load`, NewStore and Reload of pkg/signatures/signatures.go, and what they make of a file. What
-- os.Stat and os.ReadFile answer is an argument, and so is utf8.Valid.
use mini_av.Prelude.{
  All-snoc, ℕ, ◌≤◌, ◌<◌, ◌≡◌, refl, inl, inr, String, some, List, [], ◌∷◌, ◌++◌, Bool, true, ◌||◌,
  if◌then◌else◌, ltb, nat_beq, length, length-append, All, arith, Bool-cases, Result, ok, err,
  subst,
}
use mini_av.Prelude.Equality.{contains}
use mini_av.Signatures.Bytes.{Bytes, bytes_eq, split, trim_suffix}
use mini_av.Signatures.Match.{Database, Store}

pub data FileAnswer : Type 0 where
  stat_failed read_failed : String → FileAnswer
  not_regular : FileAnswer
  contents : Bytes → FileAnswer

pub data LoadError : Type 0 where
  stat read : String → LoadError
  irregular not_utf8 : LoadError

abbrev pub empty_database : Database
empty_database = record { patterns = []; pattern_set = []; max_pattern_length = 0 }

-- A line that is empty, or a comment.
abbrev pub is_skipped : Bytes → Bool
is_skipped [] = true
is_skipped (b ∷ s) = nat_beq b b'#'

-- The maximum, raised to the length of the line.
abbrev longest : ℕ → Bytes → ℕ
longest max line = if ltb max (length line) then length line else max

-- The body of the loop, with the line already trimmed.
unfoldable pub add_line : Database → Bytes → Database
add_line db line = if is_skipped line || contains db.pattern_set line then db else record {
  patterns = db.patterns ++ line ∷ [];
  pattern_set = line ∷ db.pattern_set;
  max_pattern_length = longest db.max_pattern_length line;
}

unfoldable pub add_lines : Database → List Bytes → Database
unfolding add_line trim_suffix
add_lines db [] = db
add_lines db (line ∷ lines) = add_lines (add_line db (trim_suffix b'\r' line)) lines

module _ (utf8_valid : Bytes → Bool) where
  unfoldable pub load : FileAnswer → Result LoadError Database
  load (FileAnswer.stat_failed e) = err (LoadError.stat e)
  load FileAnswer.not_regular = err LoadError.irregular
  load (FileAnswer.read_failed e) = err (LoadError.read e)
  load (FileAnswer.contents bytes) =
      if utf8_valid bytes
      then ok (add_lines empty_database (split b'\n' bytes))
      else err LoadError.not_utf8

  abbrev stored : Result LoadError Database → Result LoadError Store
  stored (err e) = err e
  stored (ok db) = ok (some db)

  unfoldable pub new_store : FileAnswer → Result LoadError Store
  unfolding load
  new_store file = stored (load file)

  -- The count, or the error, and the store after the call.
  abbrev reloaded : Store → Result LoadError Database → Result LoadError ℕ × Store
  reloaded store (err e) = (err e, store)
  reloaded store (ok db) = (ok (length db.pattern_set), some db)

  unfoldable pub reload : Store → FileAnswer → Result LoadError ℕ × Store
  unfolding load
  reload store file = reloaded store (load file)

-- A pattern that the matching loop can handle: it is not empty, and not longer than the maximum.
abbrev pub Fits : ℕ → Bytes → Type 0
Fits max p = (0 < length p) × (length p ≤ max)

pub record IsWellFormed (db : Database) : Type 0 where
  pub fit : All (Fits db.max_pattern_length) db.patterns
  pub counted : length db.pattern_set ≡ length db.patterns

Fits-mono : {m n : ℕ} (ps : List Bytes) → m ≤ n → All (Fits m) ps → All (Fits n) ps
Fits-mono [] h a = tt
Fits-mono {m} {n} (p ∷ ps) h a = ((a.0.0, omega arith), Fits-mono {m = m} {n = n} ps h a.1)

add_line-IsWellFormed :
    (db : Database) (line : Bytes) → IsWellFormed db → IsWellFormed (add_line db line)
unfolding add_line
add_line-IsWellFormed db [] v = v
add_line-IsWellFormed db (b ∷ s) v =
    elim (Bool-cases (nat_beq b b'#' || contains db.pattern_set (b ∷ s))) [
      | inl skip ↦ rw skip v
      | inr add ↦ rw add (record {
        fit =
            All-snoc (Fits (longest db.max_pattern_length (b ∷ s))) db.patterns (b ∷ s)
              (Fits-mono {m = db.max_pattern_length} db.patterns (ground arith) v.fit)
              (omega arith, ground arith);
        counted = omega (arith, v.counted, length-append db.patterns ((b ∷ s) ∷ []));
      })
    ]

add_lines-IsWellFormed :
    (db : Database) (lines : List Bytes) → IsWellFormed db → IsWellFormed (add_lines db lines)
unfolding add_lines
add_lines-IsWellFormed db [] v = v
add_lines-IsWellFormed db (line ∷ lines) v =
    add_lines-IsWellFormed (add_line db (trim_suffix b'\r' line)) lines
      (add_line-IsWellFormed db (trim_suffix b'\r' line) v)

-- Every database that is loaded is well formed.
pub load-IsWellFormed :
    (utf8_valid : Bytes → Bool) (file : FileAnswer) (db : Database)
    → load utf8_valid file ≡ ok db
    → IsWellFormed db
unfolding load
load-IsWellFormed utf8_valid (FileAnswer.stat_failed e) db h = absurd (ground arith)
load-IsWellFormed utf8_valid (FileAnswer.read_failed e) db h = absurd (ground arith)
load-IsWellFormed utf8_valid FileAnswer.not_regular db h = absurd (ground arith)
load-IsWellFormed utf8_valid (FileAnswer.contents bytes) db h =
    let is : add_lines empty_database (split b'\n' bytes) ≡ db = ground arith in
    subst IsWellFormed is (
      add_lines-IsWellFormed empty_database (split b'\n' bytes)
        (record { fit = tt; counted = refl }))
