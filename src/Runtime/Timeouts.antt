-- ===== src/Runtime/Timeouts.antt =====
-- What timeoutScan of pkg/coordinator/runtime.go answers.
use mini_av.Prelude.{
  ℕ, String, ◌≡◌, ◌≢◌, refl, some, List, [], ◌∷◌, true, arith, is_some, ok, All, Bool-cases, inl,
  inr,
}
use mini_av.Prelude.Equality.{nat_eq}
use mini_av.Prelude.Table.{Table, lookup, find_entry, map_values}
use mini_av.Protocol
use mini_av.Protocol.{Message, MessageType, type_unset}
use mini_av.Aggregator.{Verdict, aggregate}
use mini_av.Aggregator.Order.{aggregate-clean}
use mini_av.Coordinator.State.{WorkerKey, key_eq}
use mini_av.Runtime.State.{RuntimeRequest, RuntimeState, ScanResult, Effect, initial}
use mini_av.Runtime.Requests.{verdicts, complete_request, awaits}
use mini_av.Runtime.Scans.{fill, cut_short, timeout_scan}
use mini_av.Runtime.Loop.{Texts, Turn, run}
use mini_av.Runtime.Runs.{is_awaited, run-Sound}

-- A result that is awaited gets the verdict of the cut.
filled_unclean :
    (id : ℕ) (v : Protocol.Verdict) (error : String) (t : Table WorkerKey Message)
    → v ≢ Protocol.Verdict.clean
    → is_some (find_entry is_awaited t) ≡ true
    → All (λ u. u ≡ Protocol.Verdict.clean) (verdicts (map_values (fill id v error) t))
    → ⊥
unfolding find_entry map_values
filled_unclean id v error [] n h a = ground arith
filled_unclean id v error ((k, m) ∷ t) n h a = elim (Bool-cases (type_unset m.type)) [
  | inl unset ↦ n (ground arith)
  | inr set ↦ filled_unclean id v error t n (ground arith) a.1
]

cut_short_unclean :
    (id : ℕ) (v : Protocol.Verdict) (error : String) (r : RuntimeRequest)
    → v ≢ Protocol.Verdict.clean
    → awaits r ≡ true
    → aggregate (verdicts (cut_short id v error r).results) ≢ ok Verdict.clean
unfolding awaits
cut_short_unclean id v error r n h clean =
    filled_unclean id v error r.results n h ((aggregate-clean _).0 clean).1

timeout_scan-found :
    (id : ℕ) (r : RuntimeRequest) (s : RuntimeState)
    → lookup id s.requests ≡ some r
    → timeout_scan id s
      ≡ complete_request (cut_short id Protocol.Verdict.timeout "scan timed out" r) s
unfolding timeout_scan complete_request
timeout_scan-found id r s e = rw (timeout_scan, e) refl

-- After any turns of the loop and of the writers, a scan that is in flight and times out is
-- answered on its channel, and not with CLEAN.
pub timeout_scan-unclean :
    (texts : Texts) (ts : List Turn) (id : ℕ) (r : RuntimeRequest)
    → lookup id (run texts ts initial).requests ≡ some r
    → (result : ScanResult) × (log : List Effect) × ((timeout_scan id (run texts ts initial)).log
        ≡ Effect.reply_scan r.reply result ∷ log)
      × (result.answer ≢ ok Verdict.clean)
unfolding complete_request
timeout_scan-unclean texts ts id r e =
    let waits = (run-Sound texts ts).2 id r e in
    rw (timeout_scan-found id r (run texts ts initial) e)
      (_, _, refl, cut_short_unclean id Protocol.Verdict.timeout "scan timed out" r (λ f. cc) waits)
