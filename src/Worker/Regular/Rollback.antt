-- ===== src/Worker/Regular/Rollback.antt =====
-- Reorgs in indexer/internal/worker/regular.go, and the bound on the cache of block hashes.
use linq_b2b.Prelude.{
  ℕ, Option, String, suc, ◌-◌, ◌≤◌, ◌<◌, ◌≡◌, true, false, List, [], none, some, str_eq, arith,
  length, length-drop, u64_mod, sub64_exact, ◌++◌, ◌∷◌,
}
use linq_b2b.Chain.{Block}
use linq_b2b.Store.{BlockHashEntry, get_block_hashes, number_required, save_latest_block}
use linq_b2b.Worker.{Config}
use linq_b2b.Worker.Regular.{Regular, max_block_hash_size}
use linq_b2b.Worker.Regular.Hashes.{
  newest, loaded, add_block_hash, load_block_hashes, flush_block_hashes,
}
use linq_b2b.Worker.Regular.Reorg.{rollback_window_of, is_reorg, detect_and_handle_reorg}

-- A reorg within the rollback window of the start of the chain, at a block other than 0 and under
-- a chain name, is not rolled back: the store refuses block 0 and keeps its latest block, the
-- cursor stays, and the cached hashes, by which the reorg was seen, are gone.
pub detect_and_handle_reorg_stuck :
    (c : Config) (block : Block) (w : Regular)
    → is_reorg block w ≡ true
    → str_eq c.internal_code "" ≡ false
    → 0 < block.number
    → block.number ≤ suc (rollback_window_of c)
    → block.number < u64_mod
    → let check = detect_and_handle_reorg c block w in
      (check.error ≡ some number_required)
      × (check.worker.current_block ≡ w.current_block)
      × (check.worker.block_hashes ≡ [])
      × (check.worker.store.latest_block ≡ w.store.latest_block)
unfolding detect_and_handle_reorg save_latest_block
detect_and_handle_reorg_stuck c block w reorg named pos window bound =
    ground (arith, sub64_exact block.number 1, sub64_exact 1 1)

newest_bound : (hs : List BlockHashEntry) → length (newest hs) ≤ max_block_hash_size
newest_bound hs = ground (arith, length-drop (length hs - max_block_hash_size) hs)

loaded_bound :
    (hashes : Option (List BlockHashEntry)) → length (loaded hashes) ≤ max_block_hash_size
unfolding loaded
loaded_bound none = omega arith
loaded_bound (some hs) = newest_bound hs

-- However many hashes the store or the cache holds: adding one, and loading the stored ones, leaves
-- at most the fixed number in the cache, and writing them back changes none of them.
pub block_hashes_bound :
    (c : Config) (n : ℕ) (hash : String) (w : Regular)
    → (length (add_block_hash n hash w).block_hashes ≤ max_block_hash_size)
      × (length (load_block_hashes c w).block_hashes ≤ max_block_hash_size)
      × ((flush_block_hashes c w).block_hashes ≡ w.block_hashes)
unfolding add_block_hash load_block_hashes flush_block_hashes
block_hashes_bound c n hash w = (
  newest_bound (w.block_hashes ++ record { block_number = n; hash = hash } ∷ []),
  loaded_bound (get_block_hashes c.internal_code w.store).0,
  ground arith,
)
