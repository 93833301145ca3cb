-- ===== src/Examples/Stores.antt =====
-- The theorems on ranges and on the block store at concrete ranges and stores.
use linq_b2b.Prelude.{
  ℕ, ◌≡◌, refl, not, ◌&&◌, [], ◌∷◌, none, some, arith, contains, ◌==◌, if◌then◌else◌,
}
use linq_b2b.Examples.{seven_blocks, fresh_blocks, small_store, faulty_store}
use linq_b2b.Ranges.Partition.{IsRange, IsChunk, Partitions, split_catchup_range_partition}
use linq_b2b.Store.{
  save_failed_block, remove_failed_blocks, save_catchup_progress, delete_catchup_range,
}
use linq_b2b.Store.FailedBlocks.{
  failed, IsHealthy, KeepsRest, remove_failed_blocks_removes, save_failed_block_overwrites,
}
use linq_b2b.Store.Progress.{Reads, progress_of, save_delete_progress}

pub small_store-IsHealthy : IsHealthy "ETH" small_store
small_store-IsHealthy = record { named = refl; reliable = refl; ordered = (omega arith, tt) }

seven_blocks-IsRange : IsRange seven_blocks
seven_blocks-IsRange = record {
  positive = omega arith;
  ordered = omega arith;
  progress_low = omega arith;
  progress_high = omega arith;
}

split_catchup_range_partition_example : Partitions seven_blocks 3 (IsChunk 3)
split_catchup_range_partition_example =
    split_catchup_range_partition seven_blocks 3 seven_blocks-IsRange (omega arith) (omega arith)

remove_failed_blocks_removes_example :
    let s = (remove_failed_blocks "ETH" (8 ∷ 4 ∷ []) small_store).1 in
    ((n : ℕ) → contains n (failed s) ≡ (contains n (3 ∷ 8 ∷ []) && not (contains n (8 ∷ 4 ∷ []))))
    × IsHealthy "ETH" s
    × KeepsRest small_store s
remove_failed_blocks_removes_example =
    remove_failed_blocks_removes "ETH" (8 ∷ 4 ∷ []) small_store small_store-IsHealthy

save_failed_block_overwrites_example :
    (failed (save_failed_block "ETH" 5 faulty_store).1 ≡ 5 ∷ [])
    × ((save_failed_block "ETH" 5 faulty_store).0 ≡ none)
save_failed_block_overwrites_example =
    save_failed_block_overwrites "ETH" 5 faulty_store refl (λ e. omega (arith, e)) refl

save_delete_progress_example :
    let saved = (save_catchup_progress "ETH" fresh_blocks small_store).1 in
    let deleted = (delete_catchup_range "ETH" 20 22 small_store).1 in
    Reads "ETH" saved (λ start end.
      if 20 == start && 22 == end then some 19 else progress_of start end small_store.catchup)
    × Reads "ETH" deleted (λ start end.
      if 20 == start && 22 == end then none else progress_of start end small_store.catchup)
unfolding progress_of
save_delete_progress_example =
    save_delete_progress "ETH" fresh_blocks small_store refl refl (refl, tt)
      ((omega arith, omega arith, omega arith, omega arith), tt)
      (omega arith, omega arith, omega arith, omega arith)
