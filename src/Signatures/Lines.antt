-- ===== src/Signatures/Lines.antt =====
-- Which patterns `load` of pkg/signatures/signatures.go takes from a file.
use mini_av.Prelude.{
  ◌≡◌, refl, sym, ◌∙◌, subst, ap, List, [], ◌∷◌, ◌++◌, Bool, true, ◌||◌, ◌&&◌, not, arith,
  Bool-cases, inl, inr, ok, map,
}
use mini_av.Prelude.Equality.{◌==◌, contains}
use mini_av.Signatures.Bytes.{Bytes, bytes_eq, bytes_beq_iff, split, trim_suffix}
use mini_av.Signatures.Match.{Database}
use mini_av.Signatures.Load.{FileAnswer, empty_database, is_skipped, add_line, add_lines, load}

-- The patterns and their set agree.
abbrev Agrees : Database → Type 0
Agrees db = (p : Bytes) → contains db.patterns p ≡ contains db.pattern_set p

contains-snoc :
    (xs : List Bytes) (y p : Bytes) → contains (xs ++ y ∷ []) p ≡ (contains xs p || (p == y))
unfolding contains
contains-snoc [] y p = ground arith
contains-snoc (x ∷ xs) y p = ground (arith, contains-snoc xs y p)

abbrev is_taken : Bytes → Bytes → Bool
is_taken p line = not (is_skipped p) && (p == line)

taken_same : (p line : Bytes) → (p == line) ≡ true → is_skipped p ≡ is_skipped line
taken_same p line e = ap is_skipped ((bytes_beq_iff p line).0 e)

contains_same :
    (xs : List Bytes) (p line : Bytes) → (p == line) ≡ true → contains xs p ≡ contains xs line
contains_same xs p line e = ap (contains xs) ((bytes_beq_iff p line).0 e)

add_line-patterns :
    (db : Database) (line p : Bytes)
    → Agrees db
    → contains (add_line db line).patterns p ≡ (contains db.patterns p || is_taken p line)
unfolding add_line
add_line-patterns db line p a = elim (Bool-cases (p == line)) [
  | inl e ↦ ground (
    arith,
    contains-snoc db.patterns line p,
    taken_same p line e,
    contains_same db.pattern_set p line e,
    a p,
  )
  | inr e ↦ ground (arith, contains-snoc db.patterns line p)
]

add_line-pattern_set :
    (db : Database) (line p : Bytes)
    → contains (add_line db line).pattern_set p ≡ (contains db.pattern_set p || is_taken p line)
unfolding add_line contains
add_line-pattern_set db line p = elim (Bool-cases (p == line)) [
  | inl e ↦ ground (arith, taken_same p line e, contains_same db.pattern_set p line e)
  | inr e ↦ ground arith
]

add_line-Agrees : (db : Database) (line : Bytes) → Agrees db → Agrees (add_line db line)
add_line-Agrees db line a p =
    add_line-patterns db line p a
    ∙ ap (λ b. b || is_taken p line) (a p)
    ∙ sym (add_line-pattern_set db line p)

-- The line as the loop trims it.
abbrev pub trimmed : Bytes → Bytes
trimmed line = trim_suffix b'\r' line

add_lines-patterns :
    (db : Database) (lines : List Bytes) (p : Bytes)
    → Agrees db
    → contains (add_lines db lines).patterns p
      ≡ (contains db.patterns p || (not (is_skipped p) && contains (map trimmed lines) p))
unfolding add_lines contains
add_lines-patterns db [] p a = ground arith
add_lines-patterns db (line ∷ lines) p a = ground (
  arith,
  add_lines-patterns (add_line db (trimmed line)) lines p (add_line-Agrees db (trimmed line) a),
  add_line-patterns db (trimmed line) p a,
)

-- The patterns of a database that is loaded are the lines of the file, without a carriage return
-- at the end, that are neither empty nor a comment.
pub load-patterns :
    (utf8_valid : Bytes → Bool) (bytes : Bytes) (db : Database) (p : Bytes)
    → load utf8_valid (FileAnswer.contents bytes) ≡ ok db
    → contains db.patterns p ≡ (not (is_skipped p) && contains (map trimmed (split b'\n' bytes)) p)
unfolding load contains
load-patterns utf8_valid bytes db p h =
    let is : add_lines empty_database (split b'\n' bytes) ≡ db = ground arith in
    subst
      (λ d.
        contains d.patterns p
        ≡ (not (is_skipped p) && contains (map trimmed (split b'\n' bytes)) p))
      is (add_lines-patterns empty_database (split b'\n' bytes) p (λ q. refl))
