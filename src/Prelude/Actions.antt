-- ===== src/Prelude/Actions.antt =====
-- Functions of the program that call what lies outside it: an action returns its result with the
-- calls that were made, the last one first. What a call answers is any function of those before.
use mathlib.Core.Path.{◌≡◌, refl}
use mathlib.Core.Bool.{Bool, true, false}
use mathlib.Core.List.{List, ◌∷◌}
use native.Mathlib.Omega.{arith}
use Prim.Native.String.{String}
use mini_av.Prelude.Tests.{Result, ok, err}

abbrev pub Action {κ λ' ℓ} : Type κ → Type λ' → Type ℓ → Type (κ ⊔ (λ' ⊔ ℓ))
Action C E A = List C → Result E A × List C

abbrev pub next {κ λ' ℓ μ} :
    {C : Type κ} {E : Type λ'} {A : Type ℓ} {B : Type μ}
    → (A → Action C E B)
    → Result E A × List C
    → Result E B × List C
next f (ok a, h) = f a h
next f (err e, h) = (err e, h)

infixl 5 ◌>>=◌ ◌>>◌
abbrev pub ◌>>=◌ {κ λ' ℓ μ} :
    {C : Type κ} {E : Type λ'} {A : Type ℓ} {B : Type μ}
    → Action C E A
    → (A → Action C E B)
    → Action C E B
(m >>= f) h = next f (m h)

abbrev pub ◌>>◌ {κ λ' μ} :
    {C : Type κ} {E : Type λ'} {B : Type μ} → Action C E (Unit {0}) → Action C E B → Action C E B
m >> k = m >>= λ _. k

abbrev pub done {κ λ' ℓ} : {C : Type κ} {E : Type λ'} {A : Type ℓ} → A → Action C E A
done a h = (ok a, h)

abbrev pub refuse {κ λ' ℓ} : {C : Type κ} {E : Type λ'} {A : Type ℓ} → E → Action C E A
refuse e h = (err e, h)

abbrev pub returned {κ λ' ℓ} : {C : Type κ} {E : Type λ'} {A : Type ℓ} → Result E A → Action C E A
returned r h = (r, h)

abbrev pub refuse_when {κ λ'} : {C : Type κ} {E : Type λ'} → Bool → E → Action C E (Unit {0})
refuse_when true e h = (err e, h)
refuse_when false e h = (ok tt, h)

-- A call with what it answers.
abbrev pub ask {κ λ' ℓ} : {C : Type κ} {E : Type λ'} {A : Type ℓ} → (List C → A) → C → Action C E A
ask answer call h = (ok (answer h), call ∷ h)

-- Which case of a select is taken: the reply, ctx.Done() or the `done` of a loop that has ended.
pub data Await {ℓ} (A : Type ℓ) : Type ℓ where
  answered : A → Await A
  expired : String → Await A
  stopped : Await A

-- An action that returns a value, taken apart at its first step.
pub next-ok {κ λ' ℓ μ} :
    {C : Type κ} {E : Type λ'} {A : Type ℓ} {B : Type μ} (f : A → Action C E B)
    (r : Result E A × List C) {b : B} {after : List C}
    → next f r ≡ (ok b, after)
    → (a : A) × (mid : List C) × (r ≡ (ok a, mid)) × (f a mid ≡ (ok b, after))
next-ok f (ok a, h) e = (a, h, refl, e)
next-ok f (err x, h) e = absurd (ground arith)

-- The same, with what follows as a function.
pub on_next {κ λ' ℓ μ ν} :
    {C : Type κ} {E : Type λ'} {A : Type ℓ} {B : Type μ} {P : Type ν} (f : A → Action C E B)
    (r : Result E A × List C) {b : B} {after : List C}
    → next f r ≡ (ok b, after)
    → ((a : A) (mid : List C) → r ≡ (ok a, mid) → f a mid ≡ (ok b, after) → P)
    → P
on_next f r e rest = let (a, mid, is, e') = next-ok f r e in rest a mid is e'
