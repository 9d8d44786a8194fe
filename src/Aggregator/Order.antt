-- ===== src/Aggregator/Order.antt =====
-- What the verdict of pkg/aggregator/aggregator.go depends on: Core collects the workers' verdicts
-- from a map, in any order.
use mathlib.Core.List.{Perm, Permᴰ}
use mathlib.Core.Path.{ap₂}
use mathlib.Core.Bool.{Bool-set}
use mathlib.Core.Logic.{∥∥₁_elim}
use mini_av.Prelude.{
  ℕ, suc, ◌≡◌, ◌≢◌, refl, sym, ◌∙◌, ap, ◌↔◌, List, [], ◌∷◌, Bool, true, false, ◌||◌, ◌&&◌, arith,
  any, all, All, ok, err, if◌then◌else◌,
}
use mini_av.Protocol
use mini_av.Protocol.{valid_verdict}
use mini_av.Aggregator.{Verdict, AggregateError, conclude, aggregate_from, aggregate}

abbrev pub reports_malware : Protocol.Verdict → Bool
reports_malware Protocol.Verdict.malware = true
reports_malware _ = false

abbrev pub reports_failure : Protocol.Verdict → Bool
reports_failure Protocol.Verdict.error = true
reports_failure Protocol.Verdict.timeout = true
reports_failure Protocol.Verdict.unavailable = true
reports_failure _ = false

aggregate_from-conclude :
    (i : ℕ) (m f : Bool) (vs : List Protocol.Verdict)
    → all valid_verdict vs ≡ true
    → aggregate_from i m f vs
      ≡ ok (conclude (m || any reports_malware vs) (f || any reports_failure vs))
unfolding aggregate_from any all valid_verdict
aggregate_from-conclude i m f [] h = ground arith
aggregate_from-conclude i m f (Protocol.Verdict.clean ∷ vs) h =
    aggregate_from-conclude (suc i) m f vs h
aggregate_from-conclude i m f (Protocol.Verdict.malware ∷ vs) h =
    ground (arith, aggregate_from-conclude (suc i) true f vs h)
aggregate_from-conclude i m f (Protocol.Verdict.unset ∷ vs) h = absurd (ground arith)
aggregate_from-conclude i m f (Protocol.Verdict.other s ∷ vs) h = absurd (ground arith)
aggregate_from-conclude i m f (v ∷ vs) h =
    ground (arith, aggregate_from-conclude (suc i) m true vs h)

-- Of valid verdicts the answer is a function of three tests on the list.
aggregate-any :
    (vs : List Protocol.Verdict)
    → all valid_verdict vs ≡ true
    → aggregate vs ≡ (
        if any (λ v. true) vs
        then ok (conclude (any reports_malware vs) (any reports_failure vs))
        else err AggregateError.empty)
unfolding aggregate any
aggregate-any [] h = refl
aggregate-any (v ∷ vs) h = aggregate_from-conclude 0 false false (v ∷ vs) h

module _ {ℓ} {A : Type ℓ} (p : A → Bool) where
  any-permᴰ : {xs ys : List A} → Permᴰ xs ys → any p xs ≡ any p ys
  unfolding any
  any-permᴰ Permᴰ.nil = refl
  any-permᴰ (Permᴰ.cons e r) = ap₂ ◌||◌ (ap p e) (any-permᴰ r)
  any-permᴰ (Permᴰ.swap {a = a} {b = b} {l = l} e f) = ground (arith, ap p e, ap p f)
  any-permᴰ (Permᴰ.trans r q) = any-permᴰ r ∙ any-permᴰ q

  all-permᴰ : {xs ys : List A} → Permᴰ xs ys → all p xs ≡ all p ys
  unfolding all
  all-permᴰ Permᴰ.nil = refl
  all-permᴰ (Permᴰ.cons e r) = ap₂ ◌&&◌ (ap p e) (all-permᴰ r)
  all-permᴰ (Permᴰ.swap e f) = ground (arith, ap p e, ap p f)
  all-permᴰ (Permᴰ.trans r q) = all-permᴰ r ∙ all-permᴰ q

  any-perm : {xs ys : List A} → Perm xs ys → any p xs ≡ any p ys
  any-perm r = ∥∥₁_elim r (Bool-set _ _) any-permᴰ

  all-perm : {xs ys : List A} → Perm xs ys → all p xs ≡ all p ys
  all-perm r = ∥∥₁_elim r (Bool-set _ _) all-permᴰ

-- Of verdicts that the protocol knows the order does not matter: Core may collect them as it likes.
pub aggregate-perm :
    (xs ys : List Protocol.Verdict)
    → Perm xs ys
    → all valid_verdict xs ≡ true
    → aggregate xs ≡ aggregate ys
aggregate-perm xs ys r h = rw (
  aggregate-any xs h,
  aggregate-any ys (sym (all-perm valid_verdict r) ∙ h),
  any-perm (λ v. true) r,
  any-perm reports_malware r,
  any-perm reports_failure r,
)

abbrev IsClean : Protocol.Verdict → Type 0
IsClean v = v ≡ Protocol.Verdict.clean

clean_means :
    (i : ℕ) (m f : Bool) (vs : List Protocol.Verdict)
    → aggregate_from i m f vs ≡ ok Verdict.clean
    → (m ≡ false) × (f ≡ false) × All IsClean vs
unfolding aggregate_from
clean_means i m f [] h = (ground arith, ground arith, tt)
clean_means i m f (Protocol.Verdict.clean ∷ vs) h =
    let (a, b, c) = clean_means (suc i) m f vs h in (a, b, (refl, c))
clean_means i m f (Protocol.Verdict.malware ∷ vs) h =
    absurd (ground (arith, clean_means (suc i) true f vs h))
clean_means i m f (Protocol.Verdict.error ∷ vs) h =
    absurd (ground (arith, clean_means (suc i) m true vs h))
clean_means i m f (Protocol.Verdict.timeout ∷ vs) h =
    absurd (ground (arith, clean_means (suc i) m true vs h))
clean_means i m f (Protocol.Verdict.unavailable ∷ vs) h =
    absurd (ground (arith, clean_means (suc i) m true vs h))
clean_means i m f (v ∷ vs) h = absurd (ground arith)

ends_clean :
    (i : ℕ) (vs : List Protocol.Verdict)
    → All IsClean vs
    → aggregate_from i false false vs ≡ ok Verdict.clean
unfolding aggregate_from
ends_clean i [] h = refl
ends_clean i (v ∷ vs) (e, h) = rw e (ends_clean (suc i) vs h)

-- CLEAN is reported exactly when there is a verdict, and every worker's verdict is CLEAN.
pub aggregate-clean :
    (vs : List Protocol.Verdict)
    → (aggregate vs ≡ ok Verdict.clean) ↔ ((vs ≢ []) × All (λ v. v ≡ Protocol.Verdict.clean) vs)
unfolding aggregate
aggregate-clean [] = (λ h. absurd (ground arith), λ (n, _). absurd (n refl))
aggregate-clean (v ∷ vs) =
    (λ h. (λ e. cc, (clean_means 0 false false (v ∷ vs) h).2), λ (_, h). ends_clean 0 (v ∷ vs) h)

any_some : (vs : List Protocol.Verdict) → any reports_malware vs ≡ true → any (λ v. true) vs ≡ true
unfolding any
any_some [] h = h
any_some (v ∷ vs) h = refl

-- Of verdicts that the protocol knows, MALWARE is reported exactly when one worker reports it,
-- whatever fails at the others.
pub aggregate-malware :
    (vs : List Protocol.Verdict)
    → all valid_verdict vs ≡ true
    → (aggregate vs ≡ ok Verdict.malware) ↔ (any reports_malware vs ≡ true)
aggregate-malware vs h =
    let is = aggregate-any vs h in (λ m. ground (arith, is), λ m. ground (arith, is, any_some vs m))
