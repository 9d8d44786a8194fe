-- ===== src/Aggregator.antt =====
-- pkg/aggregator/aggregator.go: one verdict of those of the workers.
pub mod Order
use mini_av.Prelude.{
  ℕ, suc, ◌≡◌, ◌≢◌, refl, ◌⊎◌, List, [], ◌∷◌, Bool, true, false, ◌||◌, arith, any, All, Result, ok,
  err, if◌then◌else◌,
}
use mini_av.Protocol
use mini_av.Protocol.{valid_verdict}

pub data Verdict : Type 0 where
  clean malware inconclusive : Verdict

pub data AggregateError : Type 0 where
  empty : AggregateError
  invalid : ℕ → Protocol.Verdict → AggregateError

abbrev pub Answer : Type 0
Answer = Result AggregateError Verdict

-- What is returned after the loop.
abbrev pub conclude : Bool → Bool → Verdict
conclude has_malware has_failure =
    if has_malware
    then Verdict.malware
    else if has_failure
    then Verdict.inconclusive
    else Verdict.clean

-- The loop from the index on, with its two flags.
unfoldable pub aggregate_from : ℕ → Bool → Bool → List Protocol.Verdict → Answer
aggregate_from i has_malware has_failure [] = ok (conclude has_malware has_failure)
aggregate_from i has_malware has_failure (Protocol.Verdict.clean ∷ rest) =
    aggregate_from (suc i) has_malware has_failure rest
aggregate_from i has_malware has_failure (Protocol.Verdict.malware ∷ rest) =
    aggregate_from (suc i) true has_failure rest
aggregate_from i has_malware has_failure (Protocol.Verdict.error ∷ rest) =
    aggregate_from (suc i) has_malware true rest
aggregate_from i has_malware has_failure (Protocol.Verdict.timeout ∷ rest) =
    aggregate_from (suc i) has_malware true rest
aggregate_from i has_malware has_failure (Protocol.Verdict.unavailable ∷ rest) =
    aggregate_from (suc i) has_malware true rest
aggregate_from i has_malware has_failure (v ∷ rest) = err (AggregateError.invalid i v)

unfoldable pub aggregate : List Protocol.Verdict → Answer
unfolding aggregate_from
aggregate [] = err AggregateError.empty
aggregate verdicts = aggregate_from 0 false false verdicts
