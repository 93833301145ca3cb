-- ===== src/MissingBlocks/Numbers.antt =====
-- The script of indexer/pkg/store/missingblockstore/store.go that adds a range, on numbers below 10^14.
use linq_b2b.Prelude.{
  ℕ, suc, ◌+◌, ◌-◌, ◌≤◌, ◌<◌, ◌≡◌, refl, min, arith, true, max, ◌&&◌, leb, if◌then◌else◌,
}
use linq_b2b.MissingBlocks.{
  BlockRange, SortedSet, LuaNumbers, max_blocks_per_range, merge_one, merge_loop, split_ranges,
  add_ranges_script,
}
use linq_b2b.MissingBlocks.Queues.{IsShort, max_written}

module _ (n : LuaNumbers) (z : SortedSet) where
  open z use {Db, zadd, zrem, by_score}

  exact : (m : ℕ) → m ≤ max_written + max_blocks_per_range → n.round m ≡ m
  exact m h = n.round-exact m (omega (arith, h))

  -- A round on numbers that are exact.
  pub merge_one_eq :
      (new_start new_end : ℕ) (r : BlockRange) (fs fe : ℕ) (s : Db)
      → new_end < max_written
      → IsShort r
      → merge_one n z new_start new_end r (fs, fe, s) ≡ (
          if leb new_start (r.end_block + 1) && leb r.start_block (new_end + 1)
          then (min r.start_block fs, max r.end_block fe, zrem r s)
          else (fs, fe, s))
  unfolding merge_one
  merge_one_eq new_start new_end r fs fe s below (nonzero, nonempty, short, digits) =
      rw
        (
          exact r.start_block (omega arith),
          exact r.end_block (omega arith),
          exact (r.end_block + 1) (omega arith),
          exact (new_end + 1) (omega arith),
        )
        refl

  pub split_ranges_eq :
      (fuel from final_end : ℕ) (s : Db)
      → from ≤ final_end
      → final_end < max_written
      → let to = min (from + max_blocks_per_range - 1) final_end in
        split_ranges n z (suc fuel) from final_end s
        ≡ split_ranges n z fuel
            (to + 1)
            final_end
            (zadd from (record { start_block = from; end_block = to }) s)
  unfolding split_ranges
  split_ranges_eq fuel from final_end s more below =
      let to = min (from + max_blocks_per_range - 1) final_end in
      let goes_on : leb from final_end ≡ true = ground arith in
      rw
        (
          exact (from + max_blocks_per_range) (omega arith),
          exact (from + max_blocks_per_range - 1) (omega arith),
          exact (to + 1) (omega arith),
          n.written-exact from to (omega arith) (omega arith),
          goes_on,
        )
        refl

  pub add_ranges_script_eq :
      (start end : ℕ) (s : Db)
      → start ≤ end
      → end < max_written
      → let merged = merge_loop n z start end (by_score (start - 1) (end + 1) s) (start, end, s) in
        add_ranges_script n z start end s
        ≡ split_ranges n z (suc (suc merged.1 - merged.0)) merged.0 merged.1 merged.2
  unfolding add_ranges_script
  add_ranges_script_eq start end s h below =
      rw
        (
          exact start (omega arith),
          exact end (omega arith),
          exact (start - 1) (omega arith),
          exact (end + 1) (omega arith),
        )
        refl
