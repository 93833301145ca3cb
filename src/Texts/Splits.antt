-- ===== src/Texts/Splits.antt =====
-- strings.Split: the parts of a text that was put together with the separator.
use linq_b2b.Prelude.{
  ℕ, ◌<◌, ◌≡◌, refl, ap, ◌∙◌, false, List, [], ◌∷◌, ◌++◌, arith, ◌==◌, Bool-cases, inl, inr,
  contains, length,
}
use linq_b2b.Texts.{Bytes, cons_first, split}

cons_first-append :
    (c : ℕ) (ps qs : List Bytes) → 0 < length ps → cons_first c (ps ++ qs) ≡ cons_first c ps ++ qs
unfolding cons_first
cons_first-append c [] qs h = absurd (omega arith)
cons_first-append c (p ∷ ps) qs h = refl

length-cons_first : (c : ℕ) (ps : List Bytes) → 0 < length (cons_first c ps)
unfolding cons_first
length-cons_first c [] = omega arith
length-cons_first c (p ∷ ps) = omega arith

pub length-split : (sep : ℕ) (s : Bytes) → 0 < length (split sep s)
unfolding split
length-split sep [] = omega arith
length-split sep (c ∷ s) = elim (Bool-cases (c == sep)) [
  | inl e ↦ rw e (omega arith)
  | inr e ↦ rw e (length-cons_first c (split sep s))
]

-- A separator ends a part.
pub split-append : (sep : ℕ) (a b : Bytes) → split sep (a ++ sep ∷ b) ≡ split sep a ++ split sep b
unfolding split
split-append sep [] b = ground arith
split-append sep (c ∷ a) b = elim (Bool-cases (c == sep)) [
  | inl e ↦ rw e (ap (◌∷◌ []) (split-append sep a b))
  | inr e ↦ rw e (
      ap (cons_first c) (split-append sep a b)
      ∙ cons_first-append c (split sep a) (split sep b) (length-split sep a))
]

-- A text without the separator is one part.
pub split-whole : (sep : ℕ) (s : Bytes) → contains sep s ≡ false → split sep s ≡ s ∷ []
unfolding split cons_first
split-whole sep [] h = refl
split-whole sep (c ∷ s) h =
    let other : (c == sep) ≡ false = ground arith in
    rw (other, split-whole sep s (ground arith)) refl
