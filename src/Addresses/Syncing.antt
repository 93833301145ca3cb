-- ===== src/Addresses/Syncing.antt =====
-- Batches of the table of addresses, for indexer/internal/worker/bloom_sync.go and default_db_loader.go.
use mathlib.Core.List.{Memᴰ}
use mathlib.Core.List.Memᴰ
use linq_b2b.Prelude.{
  ℕ, zero, suc, ◌<◌, ◌≤◌, ◌≡◌, refl, sym, ap, ◌∙◌, subst, arith, inl, inr, ◌⊎◌, true, List, [], ◌∷◌,
  String, ltb, length, take, All, Bool-cases,
}
use linq_b2b.Addresses.{
  BloomFilter, LoadedAddress, created_after, last_created, AddressFilter, add_address, add_batch,
  contains_address,
}

abbrev pub Ordered : List LoadedAddress → Type 0
Ordered [] = Unit
Ordered (r ∷ rs) = All (λ q. r.created_at ≤ q.created_at) rs × Ordered rs

member :
    (P : LoadedAddress → Type 0) (r : LoadedAddress) (rs : List LoadedAddress)
    → All P rs
    → Memᴰ r rs
    → P r
member P r [] a m = absurd (Memᴰ.not-nil m)
member P r (x ∷ rs) (p, a) (Memᴰ.head e) = subst P (sym e) p
member P r (x ∷ rs) (p, a) (Memᴰ.tail m) = member P r rs a m

All-created_after :
    (t after : ℕ) (rs : List LoadedAddress)
    → All (λ q. t ≤ q.created_at) rs
    → All (λ q. t ≤ q.created_at) (created_after after rs)
unfolding created_after
All-created_after t after [] a = tt
All-created_after t after (r ∷ rs) (h, a) = elim (Bool-cases (ltb after r.created_at)) [
  | inl new ↦ rw new (h, All-created_after t after rs a)
  | inr old ↦ rw old (All-created_after t after rs a)
]

pub Ordered-created_after :
    (after : ℕ) (rs : List LoadedAddress) → Ordered rs → Ordered (created_after after rs)
unfolding created_after
Ordered-created_after after [] o = tt
Ordered-created_after after (r ∷ rs) (h, o) = elim (Bool-cases (ltb after r.created_at)) [
  | inl new ↦ rw new (All-created_after r.created_at after rs h, Ordered-created_after after rs o)
  | inr old ↦ rw old (Ordered-created_after after rs o)
]

pub mem-created_after :
    (after : ℕ) (r : LoadedAddress) (rs : List LoadedAddress)
    → after < r.created_at
    → Memᴰ r rs
    → Memᴰ r (created_after after rs)
unfolding created_after
mem-created_after after r [] h m = absurd (Memᴰ.not-nil m)
mem-created_after after r (x ∷ rs) h (Memᴰ.head e) =
    let new : ltb after x.created_at ≡ true =
      ap (λ q. ltb after q.created_at) (sym e) ∙ ground arith in
    rw new (Memᴰ.head e)
mem-created_after after r (x ∷ rs) h (Memᴰ.tail m) = elim (Bool-cases (ltb after x.created_at)) [
  | inl new ↦ rw new (Memᴰ.tail (mem-created_after after r rs h m))
  | inr old ↦ rw old (mem-created_after after r rs h m)
]

-- A row is among the first `n`, or not older than the last of them.
taken_or_later :
    (n t : ℕ) (r : LoadedAddress) (rs : List LoadedAddress)
    → All (λ q. t ≤ q.created_at) rs
    → Ordered rs
    → Memᴰ r rs
    → Memᴰ r (take n rs) ⊎ (last_created t (take n rs) ≤ r.created_at)
unfolding last_created
taken_or_later n t r [] a o m = absurd (Memᴰ.not-nil m)
taken_or_later zero t r (x ∷ rs) a o m = inr (member (λ q. t ≤ q.created_at) r (x ∷ rs) a m)
taken_or_later (suc n) t r (x ∷ rs) a o (Memᴰ.head e) = inl (Memᴰ.head e)
taken_or_later (suc n) t r (x ∷ rs) (h, a) (before, o) (Memᴰ.tail m) =
    elim (taken_or_later n x.created_at r rs before o m) [
      | inl there ↦ inl (Memᴰ.tail there)
      | inr later ↦ inr later
    ]

pub first_taken_or_later :
    (n t : ℕ) (r : LoadedAddress) (rs : List LoadedAddress)
    → 0 < n
    → Ordered rs
    → Memᴰ r rs
    → Memᴰ r (take n rs) ⊎ (last_created t (take n rs) ≤ r.created_at)
unfolding last_created
first_taken_or_later zero t r rs p o m = absurd (omega arith)
first_taken_or_later (suc n) t r [] p o m = absurd (Memᴰ.not-nil m)
first_taken_or_later (suc n) t r (x ∷ rs) p o (Memᴰ.head e) = inl (Memᴰ.head e)
first_taken_or_later (suc n) t r (x ∷ rs) p (before, o) (Memᴰ.tail m) =
    elim (taken_or_later n x.created_at r rs before o m) [
      | inl there ↦ inl (Memᴰ.tail there)
      | inr later ↦ inr later
    ]

pub take_short : (n : ℕ) (rs : List LoadedAddress) → length (take n rs) < n → take n rs ≡ rs
take_short zero rs h = absurd (omega arith)
take_short (suc n) [] h = refl
take_short (suc n) (x ∷ rs) h = ap (◌∷◌ x) (take_short n rs (omega (arith, h)))

module _ (b : BloomFilter) where
  pub add_batch-keeps :
      (a : String) (rs : List LoadedAddress) (f : AddressFilter b)
      → contains_address b a f ≡ true
      → contains_address b a (add_batch b rs f) ≡ true
  unfolding contains_address add_batch add_address
  add_batch-keeps a [] f h = h
  add_batch-keeps a (r ∷ rs) f h =
      add_batch-keeps a rs (add_address b r.address f) (b.test-keeps a r.address f.filter h)

  pub add_batch-adds :
      (r : LoadedAddress) (rs : List LoadedAddress) (f : AddressFilter b)
      → Memᴰ r rs
      → contains_address b r.address (add_batch b rs f) ≡ true
  unfolding contains_address add_batch add_address
  add_batch-adds r [] f m = absurd (Memᴰ.not-nil m)
  add_batch-adds r (x ∷ rs) f (Memᴰ.head e) =
      add_batch-keeps r.address rs (add_address b x.address f)
        (ap (λ q. b.test q.address (b.add x.address f.filter)) e ∙ b.test-add x.address f.filter)
  add_batch-adds r (x ∷ rs) f (Memᴰ.tail m) = add_batch-adds r rs (add_address b x.address f) m
