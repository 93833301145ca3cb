-- ===== src/Addresses/Missing.antt =====
-- The overlap of syncNetwork of indexer/internal/worker/bloom_sync.go.
use linq_b2b.Prelude.{
  ℕ, zero, suc, ◌-◌, ◌<◌, ◌≡◌, refl, sym, ap, ◌∙◌, subst, arith, false, List, [], ◌∷◌, none, some,
  ltb, if◌then◌else◌, length,
}
use linq_b2b.Addresses.{
  BloomFilter, LoadedAddress, second, load_addresses, last_created, Sync, after_batch, is_nil,
  sync_network,
}

module _ (b : BloomFilter) where
  sync_step :
      (fuel n : ℕ) (rows : List LoadedAddress) (s : Sync b)
      → 0 < n
      → length (load_addresses (s.last_synced - second) n rows) ≡ n
      → sync_network b (suc fuel) n rows s
        ≡ sync_network b fuel n rows
            (after_batch b (load_addresses (s.last_synced - second) n rows) s)
  unfolding sync_network
  sync_step fuel n rows s positive full = go (load_addresses (s.last_synced - second) n rows) full
    where
      go :
          (batch : List LoadedAddress)
          → length batch ≡ n
          → (if is_nil b batch
              then some s
              else if ltb (length batch) n
              then some (after_batch b batch s)
              else sync_network b fuel n rows (after_batch b batch s))
            ≡ sync_network b fuel n rows (after_batch b batch s)
      go [] e = absurd (omega (arith, e))
      go (r ∷ rs) e = let short : ltb (suc (length rs)) n ≡ false = ground arith in rw short refl

  -- When the batch from one second before the last synchronization is full and ends at the time of that
  -- synchronization, syncNetwork does not end, whatever the number of rounds.
  pub sync_network_stuck :
      (fuel n : ℕ) (rows : List LoadedAddress) (s : Sync b)
      → 0 < n
      → length (load_addresses (s.last_synced - second) n rows) ≡ n
      → last_created s.last_synced (load_addresses (s.last_synced - second) n rows) ≡ s.last_synced
      → sync_network b fuel n rows s ≡ none
  unfolding sync_network after_batch
  sync_network_stuck zero n rows s positive full same = refl
  sync_network_stuck (suc fuel) n rows s positive full same =
      let batch = load_addresses (s.last_synced - second) n rows in
      sync_step fuel n rows s positive full
      ∙ sync_network_stuck fuel n rows (after_batch b batch s) positive
          (ap (λ t. length (load_addresses (t - second) n rows)) same ∙ full)
          (subst (λ t. last_created t (load_addresses (t - second) n rows) ≡ t) (sym same) same)
