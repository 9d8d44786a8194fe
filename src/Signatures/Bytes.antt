-- ===== src/Signatures/Bytes.antt =====
-- What pkg/signatures/signatures.go uses of the package bytes.
use mini_av.Prelude.{
  ℕ, ◌≡◌, ◌↔◌, refl, List, [], ◌∷◌, ◌++◌, Bool, true, false, ◌&&◌, ◌||◌, arith, nat_beq,
  if◌then◌else◌, ap, Bool-cases, inl, inr,
}
use mini_av.Prelude.Equality.{Eq}

abbrev pub Bytes : Type 0
Bytes = List ℕ

unfoldable pub bytes_beq : Bytes → Bytes → Bool
bytes_beq [] [] = true
bytes_beq (a ∷ s) (b ∷ t) = nat_beq a b && bytes_beq s t
bytes_beq _ _ = false

pub bytes_beq_iff : (s t : Bytes) → (bytes_beq s t ≡ true) ↔ (s ≡ t)
unfolding bytes_beq
bytes_beq_iff [] [] = ground arith
bytes_beq_iff [] (b ∷ t) = ground arith
bytes_beq_iff (a ∷ s) [] = ground arith
bytes_beq_iff (a ∷ s) (b ∷ t) = ground (arith, bytes_beq_iff s t)

instance abbrev pub bytes_eq : Eq Bytes
bytes_eq = record { same = bytes_beq; decides = bytes_beq_iff }

-- bytes.HasPrefix(s, p)
unfoldable pub has_prefix : Bytes → Bytes → Bool
has_prefix s [] = true
has_prefix [] (c ∷ p) = false
has_prefix (b ∷ s) (c ∷ p) = nat_beq b c && has_prefix s p

-- bytes.Contains(s, p)
unfoldable pub bytes_contains : Bytes → Bytes → Bool
unfolding has_prefix
bytes_contains [] p = has_prefix [] p
bytes_contains (b ∷ s) p = has_prefix (b ∷ s) p || bytes_contains s p

abbrev cons_head : ℕ → List Bytes → List Bytes
cons_head b [] = (b ∷ []) ∷ []
cons_head b (line ∷ lines) = (b ∷ line) ∷ lines

-- bytes.Split(s, {sep})
unfoldable pub split : ℕ → Bytes → List Bytes
split sep [] = [] ∷ []
split sep (b ∷ s) = let rest = split sep s in if nat_beq b sep then [] ∷ rest else cons_head b rest

-- bytes.TrimSuffix(s, {c})
unfoldable pub trim_suffix : ℕ → Bytes → Bytes
trim_suffix c [] = []
trim_suffix c (b ∷ []) = if nat_beq b c then [] else b ∷ []
trim_suffix c (b ∷ d ∷ s) = b ∷ trim_suffix c (d ∷ s)

-- The pattern stands somewhere in the text.
abbrev pub Occurs : Bytes → Bytes → Type 0
Occurs p s = (before : Bytes) × (after : Bytes) × (s ≡ before ++ (p ++ after))

has_prefix-Occurs : (s p : Bytes) → has_prefix s p ≡ true → (after : Bytes) × (s ≡ p ++ after)
unfolding has_prefix
has_prefix-Occurs s [] h = (s, refl)
has_prefix-Occurs [] (c ∷ p) h = absurd (ground arith)
has_prefix-Occurs (b ∷ s) (c ∷ p) h =
    let (after, e) = has_prefix-Occurs s p (ground arith) in (after, ground arith)

prefix-has_prefix : (p after : Bytes) → has_prefix (p ++ after) p ≡ true
unfolding has_prefix
prefix-has_prefix [] after = refl
prefix-has_prefix (c ∷ p) after = ground (arith, prefix-has_prefix p after)

-- bytes.Contains decides it.
pub bytes_contains-Occurs : (s p : Bytes) → bytes_contains s p ≡ true → Occurs p s
unfolding bytes_contains
bytes_contains-Occurs [] p h = let (after, e) = has_prefix-Occurs [] p h in ([], after, e)
bytes_contains-Occurs (b ∷ s) p h = elim (Bool-cases (has_prefix (b ∷ s) p)) [
  | inl here ↦ (let (after, e) = has_prefix-Occurs (b ∷ s) p here in ([], after, e))
  | inr later ↦
      (let (before, after, e) = bytes_contains-Occurs s p (ground arith) in
        (b ∷ before, after, ap (◌∷◌ b) e))
]

at_start : (p after : Bytes) → bytes_contains (p ++ after) p ≡ true
unfolding bytes_contains
at_start [] [] = refl
at_start [] (b ∷ after) = refl
at_start (c ∷ p) after = ground (arith, prefix-has_prefix (c ∷ p) after)

after_start : (before p after : Bytes) → bytes_contains (before ++ (p ++ after)) p ≡ true
unfolding bytes_contains
after_start [] p after = at_start p after
after_start (b ∷ before) p after = ground (arith, after_start before p after)

pub Occurs-bytes_contains : (s p : Bytes) → Occurs p s → bytes_contains s p ≡ true
Occurs-bytes_contains s p (before, after, e) = rw e (after_start before p after)
