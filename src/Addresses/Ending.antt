-- ===== src/Addresses/Ending.antt =====
-- The rounds of syncNetwork of indexer/internal/worker/bloom_sync.go.
use mathlib.Core.List.{Memᴰ}
use mathlib.Core.List.Memᴰ
use linq_b2b.Prelude.{
  ℕ, zero, suc, ◌-◌, ◌<◌, ◌≤◌, ◌≡◌, refl, sym, ap, subst, arith, inl, inr, ◌⊎◌, true, false, List,
  [], ◌∷◌, some, ltb, length, take, Bool-cases,
}
use linq_b2b.Addresses.{
  BloomFilter, LoadedAddress, second, created_after, load_addresses, last_created, contains_address,
  Sync, after_batch, is_nil, sync_network,
}
use linq_b2b.Addresses.Syncing.{Ordered}
use linq_b2b.Addresses.Complete.{sync_network_complete, Due}

last_row :
    (t : ℕ) (batch : List LoadedAddress)
    → (last_created t batch ≡ t)
      ⊎ ((r : LoadedAddress) × Memᴰ r batch × (r.created_at ≡ last_created t batch))
unfolding last_created
last_row t [] = inl refl
last_row t (x ∷ xs) = elim (last_row x.created_at xs) [
  | inl e ↦ inr (x, Memᴰ.head refl, sym e)
  | inr p ↦ inr (p.0, Memᴰ.tail p.1, p.2)
]

mem-take : (n : ℕ) (r : LoadedAddress) (rs : List LoadedAddress) → Memᴰ r (take n rs) → Memᴰ r rs
mem-take zero r rs m = absurd (Memᴰ.not-nil m)
mem-take (suc n) r [] m = absurd (Memᴰ.not-nil m)
mem-take (suc n) r (x ∷ rs) (Memᴰ.head e) = Memᴰ.head e
mem-take (suc n) r (x ∷ rs) (Memᴰ.tail m) = Memᴰ.tail (mem-take n r rs m)

loaded_row :
    (after : ℕ) (r : LoadedAddress) (rs : List LoadedAddress)
    → Memᴰ r (created_after after rs)
    → Memᴰ r rs
unfolding created_after
loaded_row after r [] m = absurd (Memᴰ.not-nil m)
loaded_row after r (x ∷ rs) m = elim (Bool-cases (ltb after x.created_at)) [
  | inl new ↦ kept (loaded_row after r rs) (subst (Memᴰ r) (shown new) m)
  | inr old ↦ Memᴰ.tail (loaded_row after r rs (subst (Memᴰ r) (left_out old) m))
]
  where
    shown :
        ltb after x.created_at ≡ true → created_after after (x ∷ rs) ≡ x ∷ created_after after rs
    shown new = rw new refl

    left_out :
        ltb after x.created_at ≡ false → created_after after (x ∷ rs) ≡ created_after after rs
    left_out old = rw old refl

    kept :
        (Memᴰ r (created_after after rs) → Memᴰ r rs)
        → Memᴰ r (x ∷ created_after after rs)
        → Memᴰ r (x ∷ rs)
    kept go (Memᴰ.head e) = Memᴰ.head e
    kept go (Memᴰ.tail q) = Memᴰ.tail (go q)

newer_fewer :
    (t u : ℕ) (rs : List LoadedAddress)
    → t ≤ u
    → length (created_after u rs) ≤ length (created_after t rs)
unfolding created_after
newer_fewer t u [] h = omega arith
newer_fewer t u (x ∷ rs) h = let rest = newer_fewer t u rs h in ground (arith, rest, h)

newer_drops :
    (t : ℕ) (r : LoadedAddress) (rs : List LoadedAddress)
    → t < r.created_at
    → Memᴰ r rs
    → length (created_after r.created_at rs) < length (created_after t rs)
unfolding created_after
newer_drops t r [] h m = absurd (Memᴰ.not-nil m)
newer_drops t r (x ∷ rs) h (Memᴰ.head e) =
    let rest = newer_fewer t r.created_at rs (omega (arith, h)) in
    let same : r.created_at ≡ x.created_at = ap (λ q. q.created_at) e in
    ground (arith, rest, h, same)
newer_drops t r (x ∷ rs) h (Memᴰ.tail m) =
    let rest = newer_drops t r rs h m in ground (arith, rest, h)

newer_after_last :
    (t since n : ℕ) (rows : List LoadedAddress)
    → t < last_created t (load_addresses since n rows)
    → length (created_after (last_created t (load_addresses since n rows)) rows)
      < length (created_after t rows)
unfolding load_addresses
newer_after_last t since n rows h = elim (last_row t (take n (created_after since rows))) [
  | inl e ↦ absurd (omega (arith, h, e))
  | inr p ↦
      subst (λ u. length (created_after u rows) < length (created_after t rows)) p.2
        (newer_drops t p.0 rows (omega (arith, h, p.2))
          (loaded_row since p.0 rows (mem-take n p.0 (created_after since rows) p.1)))
]

-- A batch that is full ends after the time of the last synchronization.
abbrev pub MovesOn : ℕ → List LoadedAddress → Type 0
MovesOn n rows =
    (t : ℕ)
    → n ≤ length (load_addresses (t - second) n rows)
    → t < last_created t (load_addresses (t - second) n rows)

module _ (b : BloomFilter) (n : ℕ) (rows : List LoadedAddress) (moves : MovesOn n rows) where
  sync_network_ends :
      (fuel : ℕ) (s : Sync b)
      → length (created_after s.last_synced rows) < fuel
      → (after : Sync b) × (sync_network b fuel n rows s ≡ some after)
  unfolding sync_network after_batch
  sync_network_ends zero s enough = absurd (omega (arith, enough))
  sync_network_ends (suc fuel) s enough =
      let batch = load_addresses (s.last_synced - second) n rows in
      elim (Bool-cases (is_nil b batch)) [
        | inl nothing ↦ (s, rw nothing refl)
        | inr some_left ↦ elim (Bool-cases (ltb (length batch) n)) [
          | inl short ↦ (after_batch b batch s, rw (some_left, short) refl)
          | inr full ↦
              let later = moves s.last_synced (ground arith) in
              let fewer = newer_after_last s.last_synced (s.last_synced - second) n rows later in
              let rest =
                sync_network_ends fuel (after_batch b batch s) (omega (arith, fewer, enough)) in
              (rest.0, rw (some_left, full) rest.1)
        ]
      ]

  -- With a positive batch size, a table in the order of creation and full batches that each end after
  -- the time of the last synchronization, syncNetwork ends when it may take more rounds than there are
  -- rows newer than that time. A row that was in the filter, or newer than one second before that
  -- time, is in the filter then.
  pub sync_network_catches_up :
      (fuel : ℕ) (s : Sync b) (r : LoadedAddress)
      → 0 < n
      → Ordered rows
      → Memᴰ r rows
      → Due b r s
      → length (created_after s.last_synced rows) < fuel
      → (after : Sync b) × (sync_network b fuel n rows s ≡ some after)
        × (contains_address b r.address after.addresses ≡ true)
  sync_network_catches_up fuel s r positive ordered row due enough =
      let ends = sync_network_ends fuel s enough in
      (ends.0, ends.1, sync_network_complete b n rows r positive ordered row fuel s ends.1 due)
