-- ===== src/Addresses/Complete.antt =====
-- The addresses that syncNetwork of indexer/internal/worker/bloom_sync.go adds.
use mathlib.Core.List.{Memᴰ}
use linq_b2b.Prelude.{
  ℕ, zero, suc, ◌-◌, ◌<◌, ◌≡◌, refl, sym, ap, ◌∙◌, subst, arith, inl, inr, ◌⊎◌, true, List, [], ◌∷◌,
  some, ltb, length, take, Bool-cases,
}
use linq_b2b.Addresses.{
  BloomFilter, LoadedAddress, second, created_after, load_addresses, contains_address, Sync,
  after_batch, add_batch, is_nil, sync_network,
}
use linq_b2b.Addresses.Syncing.{
  Ordered, Ordered-created_after, mem-created_after, first_taken_or_later, take_short,
  add_batch-keeps, add_batch-adds,
}

module _ (b : BloomFilter) (r : LoadedAddress) where
  -- The address is in the filter, or it is among those to be loaded.
  abbrev pub Due : Sync b → Type 0
  Due s =
      (contains_address b r.address s.addresses ≡ true) ⊎ (s.last_synced - second < r.created_at)

module _ (b : BloomFilter) (n : ℕ) (rows : List LoadedAddress) (r : LoadedAddress)
    (positive : 0 < n) (ordered : Ordered rows) (row : Memᴰ r rows) where
  Due-after_batch :
      (s : Sync b)
      → Due b r s
      → Due b r (after_batch b (load_addresses (s.last_synced - second) n rows) s)
  unfolding after_batch load_addresses
  Due-after_batch s (inl known) = inl (
      add_batch-keeps b r.address (take n (created_after (s.last_synced - second) rows)) s.addresses
        known)
  Due-after_batch s (inr due) =
      let since = s.last_synced - second in
      elim (first_taken_or_later n s.last_synced r (created_after since rows) positive
        (Ordered-created_after since rows ordered) (mem-created_after since r rows due row)) [
          | inl there ↦
              inl (add_batch-adds b r (take n (created_after since rows)) s.addresses there)
          | inr later ↦ inr (omega (arith, later, due))
        ]

  Due-last_batch :
      (s : Sync b)
      → length (load_addresses (s.last_synced - second) n rows) < n
      → Due b r s
      → contains_address b r.address
          (after_batch b (load_addresses (s.last_synced - second) n rows) s).addresses
        ≡ true
  unfolding after_batch load_addresses
  Due-last_batch s short (inl known) =
      add_batch-keeps b r.address (take n (created_after (s.last_synced - second) rows)) s.addresses
        known
  Due-last_batch s short (inr due) =
      let since = s.last_synced - second in
      add_batch-adds b r _ s.addresses (
        subst (Memᴰ r) (sym (take_short n (created_after since rows) short))
          (mem-created_after since r rows due row))

  add_batch-nil :
      (s : Sync b) (batch : List LoadedAddress)
      → is_nil b batch ≡ true
      → (after_batch b batch s).addresses ≡ s.addresses
  unfolding after_batch add_batch
  add_batch-nil s [] e = refl
  add_batch-nil s (x ∷ xs) e = absurd (ground arith)

  length-nil : (batch : List LoadedAddress) → is_nil b batch ≡ true → length batch < n
  length-nil [] e = omega (arith, positive)
  length-nil (x ∷ xs) e = absurd (ground arith)

  -- When syncNetwork ends, a row that was in the filter, or newer than one second before the last
  -- synchronization, is in the filter.
  pub sync_network_complete :
      (fuel : ℕ) (s : Sync b) {after : Sync b}
      → sync_network b fuel n rows s ≡ some after
      → Due b r s
      → contains_address b r.address after.addresses ≡ true
  unfolding sync_network
  sync_network_complete zero s e due = absurd (ground (arith, e))
  sync_network_complete (suc fuel) s {after} e due =
      let batch = load_addresses (s.last_synced - second) n rows in
      elim (Bool-cases (is_nil b batch)) [
        | inl nothing ↦
            let same : after ≡ s = ground (arith, e, nothing) in
            ap (λ x. contains_address b r.address x.addresses) same
            ∙ ap (contains_address b r.address) (sym (add_batch-nil s batch nothing))
            ∙ Due-last_batch s (length-nil batch nothing) due
        | inr some_left ↦ elim (Bool-cases (ltb (length batch) n)) [
          | inl short ↦
              let same : after ≡ after_batch b batch s = ground (arith, e, some_left, short) in
              ap (λ x. contains_address b r.address x.addresses) same
              ∙ Due-last_batch s (ground arith) due
          | inr full ↦
              let goes_on : sync_network b fuel n rows (after_batch b batch s) ≡ some after =
                ground (arith, e, some_left, full) in
              sync_network_complete fuel (after_batch b batch s) goes_on (Due-after_batch s due)
        ]
      ]
