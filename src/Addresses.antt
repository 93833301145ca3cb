-- ===== src/Addresses.antt =====
-- The watched addresses: indexer/pkg/store/pubkeystore/store.go,
-- indexer/pkg/addressbloomfilter/inmemory.go, and the worker that keeps them up to date,
-- indexer/internal/worker/bloom_sync.go with default_db_loader.go, for one network type. The Bloom filter
-- is a parameter that has no false negatives. Times are nanoseconds since 1970, after its first second.
pub mod Syncing
pub mod Complete
pub mod Ending
pub mod Missing
use linq_b2b.Prelude.{
  ℕ, zero, suc, ◌+◌, ◌-◌, ◌*◌, ◌≡◌, Bool, true, false, not, ◌&&◌, ◌||◌, List, [], ◌∷◌, ◌++◌, Option,
  none, some, String, ltb, leb, ◌==◌, if◌then◌else◌, length, take, drop,
}

pub record BloomFilter : Type 1 where
  pub Filter : Type 0
  pub empty : Filter
  pub add : String → Filter → Filter
  pub test : String → Filter → Bool
  pub test-add : (a : String) (f : Filter) → test a (add a f) ≡ true
  pub test-keeps : (a b : String) (f : Filter) → test a f ≡ true → test a (add b f) ≡ true

abbrev pub second : ℕ
second = 1000000000

-- A row of wallet_addresses. The table is kept in the order of `created_at`.
pub record LoadedAddress : Type 0 where
  pub address : String
  pub created_at : ℕ

unfoldable pub created_after : ℕ → List LoadedAddress → List LoadedAddress
created_after after [] = []
created_after after (r ∷ rs) =
    if ltb after r.created_at then r ∷ created_after after rs else created_after after rs

-- LoadAddresses
unfoldable pub load_addresses : ℕ → ℕ → List LoadedAddress → List LoadedAddress
unfolding created_after
load_addresses after limit rows = take limit (created_after after rows)

unfoldable pub last_created : ℕ → List LoadedAddress → ℕ
last_created t [] = t
last_created t (r ∷ rs) = last_created r.created_at rs

module _ (b : BloomFilter) where
  -- The filter, and how many addresses were added to it.
  pub record AddressFilter : Type 0 where
    pub filter : b.Filter
    pub address_count : ℕ

  unfoldable pub add_address : String → AddressFilter → AddressFilter
  add_address a f = record { filter = b.add a f.filter; address_count = suc f.address_count }

  unfoldable pub add_batch : List LoadedAddress → AddressFilter → AddressFilter
  unfolding add_address
  add_batch [] f = f
  add_batch (r ∷ rs) f = add_batch rs (add_address r.address f)

  unfoldable pub contains_address : String → AddressFilter → Bool
  contains_address a f = b.test a f.filter

  unfoldable pub clear_addresses : AddressFilter → AddressFilter
  clear_addresses f = record { filter = b.empty; address_count = 0 }

  -- Exist of the store; `none` stands for a store without a filter.
  unfoldable pub exist_address : Option AddressFilter → String → Bool
  unfolding contains_address
  exist_address none a = false
  exist_address (some f) a = contains_address a f

  pub record Sync : Type 0 where
    pub addresses : AddressFilter
    pub last_synced : ℕ
    pub total_synced : ℕ

  -- What a batch that is not empty leaves.
  unfoldable pub after_batch : List LoadedAddress → Sync → Sync
  unfolding add_batch last_created
  after_batch rows s = record {
    addresses = add_batch rows s.addresses;
    last_synced = last_created s.last_synced rows;
    total_synced = s.total_synced + length rows;
  }

  abbrev is_nil : List LoadedAddress → Bool
  is_nil [] = true
  is_nil (r ∷ rs) = false

  -- syncNetwork over a table that does not change meanwhile. `none` means that the fuel ran out.
  unfoldable pub sync_network : ℕ → ℕ → List LoadedAddress → Sync → Option Sync
  unfolding load_addresses after_batch
  sync_network zero batch_size rows s = none
  sync_network (suc fuel) batch_size rows s =
      let batch = load_addresses (s.last_synced - second) batch_size rows in
      let rest = sync_network fuel batch_size rows (after_batch batch s) in
      if is_nil batch
      then some s
      else if ltb (length batch) batch_size
      then some (after_batch batch s)
      else rest
