-- ===== src/Prelude/Lists.antt =====
-- Lists measured and indexed by native numbers, and the list of consecutive numbers.
use Prim.Native.Nat.{ℕ, zero, suc, ◌+◌, ◌-◌, ◌≤◌}
use mathlib.Core.Path.{◌≡◌, refl, ap, sym, ◌∙◌}
use mathlib.Core.Bool.{Bool, false, ◌&&◌, ◌||◌}
use mathlib.Core.List.{List, [], ◌∷◌, ◌++◌, Memᴰ}
use mathlib.Core.Option.{Option, none, some}
use native.Mathlib.Omega.{arith}
use linq_b2b.Prelude.Tests.{◌==◌, leb, ltb}

module _ {ℓ} {A : Type ℓ} where
  abbrev pub length : List A → ℕ
  length [] = 0
  length (x ∷ xs) = suc (length xs)

  abbrev pub get_elem? : List A → ℕ → Option A
  get_elem? [] i = none
  get_elem? (x ∷ xs) zero = some x
  get_elem? (x ∷ xs) (suc i) = get_elem? xs i

  abbrev pub set : List A → ℕ → A → List A
  set [] i v = []
  set (x ∷ xs) zero v = v ∷ xs
  set (x ∷ xs) (suc i) v = x ∷ set xs i v

  abbrev pub take : ℕ → List A → List A
  take zero xs = []
  take (suc n) [] = []
  take (suc n) (x ∷ xs) = x ∷ take n xs

  abbrev pub drop : ℕ → List A → List A
  drop zero xs = xs
  drop (suc n) [] = []
  drop (suc n) (x ∷ xs) = drop n xs

  pub length-append : (xs ys : List A) → length (xs ++ ys) ≡ length xs + length ys
  length-append [] ys = omega arith
  length-append (x ∷ xs) ys = omega (arith, length-append xs ys)

  pub length-drop : (n : ℕ) (xs : List A) → length (drop n xs) ≡ length xs - n
  length-drop zero xs = omega arith
  length-drop (suc n) [] = omega arith
  length-drop (suc n) (x ∷ xs) = omega (arith, length-drop n xs)

  pub length-set : (xs : List A) (i : ℕ) (v : A) → length (set xs i v) ≡ length xs
  length-set [] i v = refl
  length-set (x ∷ xs) zero v = refl
  length-set (x ∷ xs) (suc i) v = ap suc (length-set xs i v)

  -- A predicate on every member, by recursion.
  abbrev pub All {κ} : (A → Type κ) → List A → Type κ
  All P [] = Unit
  All P (x ∷ xs) = P x × All P xs

-- `count` consecutive numbers from `from` on.
abbrev pub seq : ℕ → ℕ → List ℕ
seq from zero = []
seq from (suc count) = from ∷ seq (suc from) count

seq-cong : {a b m n : ℕ} → a ≡ b → m ≡ n → seq a m ≡ seq b n
seq-cong e f = cc

pub seq-append : (from m n : ℕ) → seq from (m + n) ≡ seq from m ++ seq (from + m) n
seq-append from zero n =
    seq-cong {a = from} {b = from + 0} {m = 0 + n} {n = n} (omega arith) (omega arith)
seq-append from (suc m) n =
    seq-cong {a = from} {b = from} {m = suc m + n} {n = suc (m + n)} refl (omega arith)
    ∙ ap (◌∷◌ from) (
        seq-append (suc from) m n
        ∙ ap (λ a. seq (suc from) m ++ seq a n) {x = suc from + m} {y = from + suc m} (omega arith))

-- The numbers from `lo` up to, and without, `hi`.
unfoldable pub span : ℕ → ℕ → List ℕ
span lo hi = seq lo (hi - lo)

pub span-append : (a b c : ℕ) → a ≤ b → b ≤ c → span a b ++ span b c ≡ span a c
unfolding span
span-append a b c h k =
    ap (λ x. seq a (b - a) ++ seq x (c - b)) {x = b} {y = a + (b - a)} (omega arith)
    ∙ sym (seq-append a (b - a) (c - b))
    ∙ ap (seq a) (omega arith)

pub span-empty : (a b : ℕ) → b ≤ a → span a b ≡ []
unfolding span
span-empty a b h = seq-cong {a = a} {b = a} {m = b - a} {n = 0} refl (omega arith)

pub span-one : (a : ℕ) → span a (suc a) ≡ a ∷ []
unfolding span
span-one a = seq-cong {a = a} {b = a} {m = suc a - a} {n = 1} refl (omega arith)

pub length-span : (a b : ℕ) → length (span a b) ≡ b - a
unfolding span
length-span a b = go a (b - a)
  where
    go : (from count : ℕ) → length (seq from count) ≡ count
    go from zero = refl
    go from (suc count) = ap suc (go (suc from) count)

-- The membership test on lists of numbers.
abbrev pub contains : ℕ → List ℕ → Bool
contains n [] = false
contains n (x ∷ xs) = x == n || contains n xs

pub contains-append :
    (n : ℕ) (xs ys : List ℕ) → contains n (xs ++ ys) ≡ (contains n xs || contains n ys)
contains-append n [] ys = refl
contains-append n (x ∷ xs) ys = ground (arith, contains-append n xs ys)

contains-seq : (n a k : ℕ) → contains n (seq a k) ≡ (leb a n && ltb n (a + k))
contains-seq n a zero = ground arith
contains-seq n a (suc k) = ground (arith, contains-seq n (suc a) k)

pub contains-span : (n a b : ℕ) → contains n (span a b) ≡ (leb a n && ltb n b)
unfolding span
contains-span n a b = ground (arith, contains-seq n a (b - a))

module _ {ℓ} {A : Type ℓ} where
  pub memᴰ-append_left : {a : A} {xs : List A} (ys : List A) → Memᴰ a xs → Memᴰ a (xs ++ ys)
  memᴰ-append_left ys (Memᴰ.head e) = Memᴰ.head e
  memᴰ-append_left ys (Memᴰ.tail m) = Memᴰ.tail (memᴰ-append_left ys m)

  pub memᴰ-append_right : {a : A} (xs : List A) {ys : List A} → Memᴰ a ys → Memᴰ a (xs ++ ys)
  memᴰ-append_right [] m = m
  memᴰ-append_right (x ∷ xs) m = Memᴰ.tail (memᴰ-append_right xs m)
