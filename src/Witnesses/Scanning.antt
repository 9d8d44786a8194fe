-- ===== src/Witnesses/Scanning.antt =====
-- A database of two patterns, and verdicts of three workers.
use mathlib.Core.List.{Perm, Permᴰ}
use mini_av.Prelude.{
  not, ◌&&◌, map, ◌≡◌, ◌≢◌, refl, ◌↔◌, List, [], ◌∷◌, Bool, true, ok, all, any, All,
}
use mini_av.Protocol
use mini_av.Protocol.{valid_verdict}
use mini_av.Aggregator.{Verdict, aggregate}
use mini_av.Aggregator.Order.{aggregate-perm, aggregate-clean, aggregate-malware, reports_malware}
use mini_av.Signatures.Bytes.{Bytes, bytes_eq, bytes_beq, split}
use mini_av.Prelude.Equality.{contains}
use mini_av.Signatures.Match.{Database, match_reader}
use mini_av.Signatures.Load.{
  is_skipped, FileAnswer, load, IsWellFormed, load-IsWellFormed, add_lines,
}
use mini_av.Signatures.Lines.{load-patterns, trimmed}
use mini_av.Signatures.Search.{Searches, reads_of, content, match_reader-Searches}

abbrev three_verdicts : List Protocol.Verdict
three_verdicts = Protocol.Verdict.clean ∷ Protocol.Verdict.timeout ∷ Protocol.Verdict.malware ∷ []

abbrev three_in_another_order : List Protocol.Verdict
three_in_another_order =
    Protocol.Verdict.timeout ∷ Protocol.Verdict.clean ∷ Protocol.Verdict.malware ∷ []

swapped : Perm three_verdicts three_in_another_order
swapped = ∣ Permᴰ.swap refl refl ∣₁

three_valid : all valid_verdict three_verdicts ≡ true
unfolding all valid_verdict
three_valid = refl

aggregate-perm_example : aggregate three_verdicts ≡ aggregate three_in_another_order
aggregate-perm_example = aggregate-perm three_verdicts three_in_another_order swapped three_valid

abbrev clean_verdicts : List Protocol.Verdict
clean_verdicts = Protocol.Verdict.clean ∷ Protocol.Verdict.clean ∷ []

aggregate-clean_example :
    (aggregate clean_verdicts ≡ ok Verdict.clean)
    ↔ ((clean_verdicts ≢ []) × All (λ v. v ≡ Protocol.Verdict.clean) clean_verdicts)
aggregate-clean_example = aggregate-clean clean_verdicts

aggregate-malware_example :
    (aggregate three_verdicts ≡ ok Verdict.malware) ↔ (any reports_malware three_verdicts ≡ true)
aggregate-malware_example = aggregate-malware three_verdicts three_valid

-- A comment, a pattern with a carriage return, and a pattern that is a part of it.
abbrev pub signature_file : Bytes
signature_file = b'#' ∷ b'x' ∷ b'\n' ∷ b'a' ∷ b'b' ∷ b'c' ∷ b'\r' ∷ b'\n' ∷ b'b' ∷ b'c' ∷ b'\n' ∷ []

abbrev pub two_patterns : Database
two_patterns = record {
  patterns = (b'a' ∷ b'b' ∷ b'c' ∷ []) ∷ (b'b' ∷ b'c' ∷ []) ∷ [];
  pattern_set = (b'b' ∷ b'c' ∷ []) ∷ (b'a' ∷ b'b' ∷ b'c' ∷ []) ∷ [];
  max_pattern_length = 3;
}

abbrev pub accept_all : Bytes → Bool
accept_all s = true

pub two_patterns-loaded : load accept_all (FileAnswer.contents signature_file) ≡ ok two_patterns
unfolding load add_lines split contains bytes_beq
two_patterns-loaded = refl

load-IsWellFormed_example : IsWellFormed two_patterns
load-IsWellFormed_example =
    load-IsWellFormed accept_all (FileAnswer.contents signature_file) two_patterns
      two_patterns-loaded

load-patterns_example : contains two_patterns.patterns (b'b' ∷ b'c' ∷ []) ≡ (
    not (is_skipped (b'b' ∷ b'c' ∷ []))
    && contains (map trimmed (split b'\n' signature_file)) (b'b' ∷ b'c' ∷ []))
load-patterns_example =
    load-patterns accept_all signature_file two_patterns (b'b' ∷ b'c' ∷ []) two_patterns-loaded

-- The pattern abc, cut by two reads.
abbrev pub cut_text : List Bytes
cut_text = (b'x' ∷ b'a' ∷ b'b' ∷ []) ∷ (b'c' ∷ []) ∷ []

two_patterns-IsWellFormed : IsWellFormed two_patterns
two_patterns-IsWellFormed =
    load-IsWellFormed accept_all (FileAnswer.contents signature_file) two_patterns
      two_patterns-loaded

match_reader-Searches_example :
    Searches two_patterns.patterns
      (content cut_text (b'y' ∷ []))
      (match_reader two_patterns (reads_of cut_text (b'y' ∷ [])))
match_reader-Searches_example =
    match_reader-Searches two_patterns cut_text (b'y' ∷ []) two_patterns-IsWellFormed
      (λ e. cc, (λ e. cc, tt))
