-- ===== src/Signatures/Window.antt =====
-- Why the overlap that `match` of pkg/signatures/signatures.go keeps between two reads is enough.
use mini_av.Prelude.{
  ℕ, zero, suc, ◌+◌, ◌-◌, ◌≤◌, ◌<◌, ◌≡◌, refl, sym, ◌∙◌, ap, [], ◌∷◌, ◌++◌, append_assoc, length,
  drop, length-append, length-drop, arith,
}
use mathlib.Core.Path.{◌≡⟨◌⟩◌, ◌∎}
use native.Mathlib.Decide.{dec_lt}
use mini_av.Signatures.Bytes.{Bytes, Occurs}
use mini_av.Signatures.Match.{next_tail}

drop-append : (n : ℕ) (xs ys : Bytes) → n ≤ length xs → drop n (xs ++ ys) ≡ drop n xs ++ ys
drop-append zero xs ys h = refl
drop-append (suc n) [] ys h = absurd (omega arith)
drop-append (suc n) (x ∷ xs) ys h = drop-append n xs ys (omega arith)

pub drop_nil : (n : ℕ) → drop {A = ℕ} n [] ≡ []
drop_nil zero = refl
drop_nil (suc n) = refl

drop-drop : (m n k : ℕ) (xs : Bytes) → k ≡ n + m → drop m (drop n xs) ≡ drop k xs
drop-drop m zero k xs e = ap (λ i. drop i xs) (omega arith)
drop-drop m (suc n) zero xs e = absurd (omega arith)
drop-drop m (suc n) (suc k) [] e = drop_nil m
drop-drop m (suc n) (suc k) (x ∷ xs) e = drop-drop m n k xs (omega arith)

drop_all : (n : ℕ) (xs : Bytes) → length xs ≤ n → drop n xs ≡ []
drop_all zero [] h = refl
drop_all zero (x ∷ xs) h = absurd (omega arith)
drop_all (suc n) [] h = refl
drop_all (suc n) (x ∷ xs) h = drop_all n xs (omega arith)

-- Two ways to cut one text: the shorter first part begins the longer one.
first_part :
    (xs ys s t : Bytes)
    → xs ++ ys ≡ s ++ t
    → length xs ≤ length s
    → (rest : Bytes) × (s ≡ xs ++ rest)
first_part [] ys s t e h = (s, refl)
first_part (x ∷ xs) ys [] t e h = absurd (omega arith)
first_part (x ∷ xs) ys (b ∷ s) t e h =
    let (rest, f) = first_part xs ys s t (ground arith) (omega arith) in (rest, ground arith)

-- The last bytes of what was seen, as many as the overlap has.
abbrev pub overlap : ℕ → Bytes → Bytes
overlap max seen = drop (length seen - (max - 1)) seen

-- A pattern that is new ends past what was seen.
not_within :
    (before p after seen chunk : Bytes)
    → seen ++ chunk ≡ before ++ (p ++ after)
    → (Occurs p seen → ⊥)
    → length seen < length (before ++ p)
not_within before p after seen chunk e new = elim (dec_lt (length seen) (length (before ++ p))) [
  | yes late ↦ late
  | no early ↦
      (let (rest, f) =
          first_part (before ++ p) after seen chunk (append_assoc before p after ∙ sym e)
            (omega arith) in
        absurd (new (before, rest, f ∙ append_assoc before p rest)))
]

-- A pattern that stands in the text, and not in what was seen, stands in the overlap and the rest.
pub Occurs-overlap :
    (max : ℕ) (p seen chunk : Bytes)
    → 0 < length p
    → length p ≤ max
    → (Occurs p seen → ⊥)
    → Occurs p (seen ++ chunk)
    → Occurs p (overlap max seen ++ chunk)
Occurs-overlap max p seen chunk pos fits new (before, after, e) =
    let cut : ℕ = length seen - (max - 1) in
    let late : length seen < length (before ++ p) = not_within before p after seen chunk e new in
    let early : cut ≤ length before = omega (arith, late, length-append before p) in
    (
      drop cut before,
      after,
      (overlap max seen ++ chunk
          ≡⟨ sym (drop-append cut seen chunk (omega arith)) ⟩ drop cut (seen ++ chunk)
          ≡⟨ ap (drop cut) e ⟩ drop cut (before ++ (p ++ after))
          ≡⟨ drop-append cut before (p ++ after) early ⟩ drop cut before ++ (p ++ after) ∎),
    )

next_tail-drop : (max : ℕ) (w : Bytes) → next_tail max w ≡ drop (length w - (max - 1)) w
unfolding next_tail
next_tail-drop max w = ground (arith, drop_all (length w - (max - 1)) w)

-- The overlap of a longer text is the tail that the loop keeps of its window.
pub next_tail-overlap :
    (max : ℕ) (seen chunk : Bytes)
    → next_tail max (overlap max seen ++ chunk) ≡ overlap max (seen ++ chunk)
next_tail-overlap max seen chunk =
    let cut : ℕ = length seen - (max - 1) in
    let whole : Bytes = seen ++ chunk in
    let window : overlap max seen ++ chunk ≡ drop cut whole =
      sym (drop-append cut seen chunk (omega arith)) in
    ap (next_tail max) window
    ∙ next_tail-drop max (drop cut whole)
    ∙ drop-drop (length (drop cut whole) - (max - 1)) cut (length whole - (max - 1)) whole
        (omega (arith, length-drop cut whole, length-append seen chunk))
