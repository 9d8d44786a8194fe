-- ===== src/Update/Digest.antt =====
-- equalDigest of pkg/update/update.go, with ^ and | of a byte written out bit by bit.
use mini_av.Prelude.{
  ℕ, zero, suc, ◌+◌, ◌*◌, ◌/◌, ◌%◌, ◌^◌, ◌<◌, ◌≡◌, ◌↔◌, [], ◌∷◌, Bool, true, false, not, arith,
  nat_beq, length, if◌then◌else◌, All, Bool-cases, inl, inr, ap,
}
use mini_av.Signatures.Bytes.{Bytes}

abbrev xor_bit : ℕ → ℕ → ℕ
xor_bit a b = if nat_beq a b then 0 else 1

abbrev or_bit : ℕ → ℕ → ℕ
or_bit a b = if nat_beq a 0 then b else 1

-- left ^ right, of as many bits.
unfoldable pub xor : ℕ → ℕ → ℕ → ℕ
xor zero a b = 0
xor (suc bits) a b = xor_bit (a % 2) (b % 2) + 2 * xor bits (a / 2) (b / 2)

unfoldable pub or : ℕ → ℕ → ℕ → ℕ
or zero a b = 0
or (suc bits) a b = or_bit (a % 2) (b % 2) + 2 * or bits (a / 2) (b / 2)

-- The loop, on the rest of the slices, which have one length.
unfoldable pub differs : ℕ → Bytes → Bytes → ℕ
unfolding xor or
differs difference (a ∷ left) (b ∷ right) = differs (or 8 difference (xor 8 a b)) left right
differs difference left right = difference

unfoldable pub equal_digest : Bytes → Bytes → Bool
unfolding differs
equal_digest left right =
    if not (nat_beq (length left) (length right)) then false else nat_beq (differs 0 left right) 0

xor-zero : (bits a b : ℕ) → a < 2 ^ bits → b < 2 ^ bits → (xor bits a b ≡ 0) ↔ (a ≡ b)
unfolding xor
xor-zero zero a b x y = ground arith
xor-zero (suc bits) a b x y =
    ground (arith, xor-zero bits (a / 2) (b / 2) (omega arith) (omega arith))

xor-bound : (bits a b : ℕ) → xor bits a b < 2 ^ bits
unfolding xor
xor-bound zero a b = omega arith
xor-bound (suc bits) a b = ground (arith, xor-bound bits (a / 2) (b / 2))

or-bound : (bits a b : ℕ) → or bits a b < 2 ^ bits
unfolding or
or-bound zero a b = omega arith
or-bound (suc bits) a b = ground (arith, or-bound bits (a / 2) (b / 2))

or-zero : (bits a b : ℕ) → a < 2 ^ bits → b < 2 ^ bits → (or bits a b ≡ 0) ↔ ((a ≡ 0) × (b ≡ 0))
unfolding or
or-zero zero a b x y = ground arith
or-zero (suc bits) a b x y =
    ground (arith, or-zero bits (a / 2) (b / 2) (omega arith) (omega arith))

abbrev IsByte : ℕ → Type 0
IsByte b = b < 256

differs-zero :
    (difference : ℕ) (left right : Bytes)
    → difference < 256
    → All IsByte left
    → All IsByte right
    → length left ≡ length right
    → (differs difference left right ≡ 0) ↔ ((difference ≡ 0) × (left ≡ right))
unfolding differs
differs-zero difference [] [] d x y l = ground arith
differs-zero difference [] (b ∷ right) d x y l = absurd (ground arith)
differs-zero difference (a ∷ left) [] d x y l = absurd (ground arith)
differs-zero difference (a ∷ left) (b ∷ right) d x y l =
    let e = xor 8 a b in
    let all =
      differs-zero (or 8 difference e) left right (or-bound 8 difference e) x.1 y.1 (omega arith) in
    ground (arith, all, or-zero 8 difference e d (xor-bound 8 a b), xor-zero 8 a b x.0 y.0)

-- Slices of bytes are found equal exactly when they are, although every byte is looked at.
pub equal_digest-equal :
    (left right : Bytes)
    → All (λ b. b < 256) left
    → All (λ b. b < 256) right
    → (equal_digest left right ≡ true) ↔ (left ≡ right)
unfolding equal_digest
equal_digest-equal left right x y = elim (Bool-cases (nat_beq (length left) (length right))) [
  | inl e ↦ ground (arith, differs-zero 0 left right (omega arith) x y (ground arith))
  | inr e ↦ ground (arith, λ (same : left ≡ right). ap (λ (s : Bytes). length s) same)
]
