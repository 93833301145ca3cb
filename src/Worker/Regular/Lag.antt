-- ===== src/Worker/Regular/Lag.antt =====
-- skipAheadIfLagging of indexer/internal/worker/regular.go.
use linq_b2b.Prelude.{
  ℕ, Bool, true, false, not, ◌||◌, List, [], none, some, leb, ◌==◌, if◌then◌else◌, sub64,
}
use linq_b2b.Ranges.{CatchupRange, split_catchup_range}
use linq_b2b.Store.{save_latest_block, save_catchup_ranges}
use linq_b2b.Worker.{Config}
use linq_b2b.Worker.Regular.{Regular, max_range_size, default_max_lag, with_store}
use linq_b2b.Worker.Regular.Hashes.{clear_block_hashes}

-- A range whose blocks are all to be done, in chunks. Its fuel is enough (Ranges.Pending), so the
-- last clause is not reached on the ranges that the workers build.
unfoldable pub fresh_chunks : ℕ → ℕ → List CatchupRange
fresh_chunks start end =
    elim (split_catchup_range (record { start = start; end = end; current = sub64 start 1 })
      max_range_size) [ some rs ↦ rs | none ↦ [] ]

abbrev pub max_lag_of : Config → ℕ
max_lag_of c = if c.max_lag == 0 then default_max_lag else c.max_lag

abbrev pub is_lagging : Config → ℕ → ℕ → Bool
is_lagging c current latest = not (leb latest current || leb (sub64 latest current) (max_lag_of c))

-- The jump to the head, with the blocks that are passed over queued for catchup.
unfoldable pub skip_ahead : Config → ℕ → Regular → Regular
skip_ahead c latest w =
    let s =
      (save_catchup_ranges c.internal_code (fresh_chunks w.current_block (sub64 latest 1))
        w.store).1 in
    let t = (save_latest_block c.internal_code (sub64 latest 1) s).1 in
    clear_block_hashes (record (with_store t w) { current_block = latest })

unfoldable pub skip_ahead_if_lagging : Config → ℕ → Regular → Bool × Regular
unfolding skip_ahead
skip_ahead_if_lagging c latest w =
    if is_lagging c w.current_block latest then (true, skip_ahead c latest w) else (false, w)
