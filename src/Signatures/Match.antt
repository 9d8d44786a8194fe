-- ===== src/Signatures/Match.antt =====
-- The database of pkg/signatures/signatures.go, `load` apart, and the loop of its `match`. A reader
-- is the list of what its calls of Read return; the list may end before the loop does.
use mini_av.Prelude.{
  ℕ, ◌-◌, String, Option, none, some, List, [], ◌∷◌, ◌++◌, Bool, true, false, if◌then◌else◌, ltb,
  length, drop, Result, ok, err,
}
use mini_av.Signatures.Bytes.{Bytes, bytes_contains}

pub record Database : Type 0 where
  pub patterns : List Bytes
  pub pattern_set : List Bytes
  pub max_pattern_length : ℕ

-- The error of a Read: nil, io.EOF, or another.
pub data ReadError : Type 0 where
  nil eof : ReadError
  other : String → ReadError

pub record Read : Type 0 where
  pub bytes : Bytes
  pub error : ReadError

pub data MatchResult : Type 0 where
  found : Bytes → MatchResult
  not_found : MatchResult
  read_failed : String → MatchResult
  no_progress : MatchResult
  blocked : MatchResult

-- The loop over the patterns.
unfoldable pub find_pattern : List Bytes → Bytes → Option Bytes
find_pattern [] window = none
find_pattern (p ∷ patterns) window =
    let rest = find_pattern patterns window in if bytes_contains window p then some p else rest

-- `keep`, cut to the window; `maxPatternLength - 1` is -1 where there is no pattern, and keeps
-- nothing, as 0 does.
unfoldable pub next_tail : ℕ → Bytes → Bytes
next_tail max window =
    let keep : ℕ = if ltb (length window) (max - 1) then length window else max - 1 in
    if ltb 0 keep then drop (length window - keep) window else []

abbrev is_nonempty : Bytes → Bool
is_nonempty [] = false
is_nonempty (b ∷ s) = true

-- The end of a round: `rest` is what the loop does next.
abbrev after_read : ReadError → Bytes → MatchResult → MatchResult
after_read ReadError.eof bytes rest = MatchResult.not_found
after_read (ReadError.other e) bytes rest = MatchResult.read_failed e
after_read ReadError.nil [] rest = MatchResult.no_progress
after_read ReadError.nil (b ∷ s) rest = rest

abbrev found_or : Option Bytes → MatchResult → MatchResult
found_or (some p) rest = MatchResult.found p
found_or none rest = rest

unfoldable pub match_from : Database → Bytes → List Read → MatchResult
match_from db tail [] = MatchResult.blocked
match_from db tail (r ∷ reads) =
    let window = tail ++ r.bytes in
    let seen = match_from db (next_tail db.max_pattern_length window) reads in
    if is_nonempty r.bytes
    then found_or (find_pattern db.patterns window) (after_read r.error r.bytes seen)
    else after_read r.error [] MatchResult.no_progress

unfoldable pub match_reader : Database → List Read → MatchResult
unfolding match_from
match_reader db reads = match_from db [] reads

-- Store: the pointer to the database, nil before NewStore.
abbrev pub Store : Type 0
Store = Option Database

unfoldable pub count : Store → ℕ
count none = 0
count (some db) = length db.pattern_set

pub data StoreError : Type 0 where
  nil_reader not_initialized : StoreError

-- Store.Match; `none` is a nil reader.
unfoldable pub match_store : Store → Option (List Read) → Result StoreError MatchResult
unfolding match_reader
match_store store none = err StoreError.nil_reader
match_store none (some reads) = err StoreError.not_initialized
match_store (some db) (some reads) = ok (match_reader db reads)
