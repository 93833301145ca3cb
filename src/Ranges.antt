-- ===== src/Ranges.antt =====
-- indexer/pkg/store/blockstore/store.go (CatchupRange) and splitCatchupRange of
-- indexer/internal/worker/regular.go. A range's blocks are `start` to `end`; `current` is the
-- last block that is done. All are uint64.
pub mod Partition
pub mod Pending
use linq_b2b.Prelude.{
  ℕ, zero, suc, min, Bool, List, [], ◌∷◌, Option, none, some, ◌||◌, ltb, leb, ◌==◌, if◌then◌else◌,
  add64, sub64,
}
use mathlib.Core.Option

pub record CatchupRange : Type 0 where
  pub start : ℕ
  pub end : ℕ
  pub current : ℕ

-- `newCurrent`: the progress of the whole, cut to the chunk from `lo` to `hi`.
pub new_current : ℕ → ℕ → ℕ → ℕ
new_current current lo hi =
    if ltb current lo then sub64 lo 1 else if ltb hi current then hi else current

pub chunk_end : CatchupRange → ℕ → ℕ → ℕ
chunk_end r max_size current = min (sub64 (add64 current max_size) 1) r.end

pub chunk : CatchupRange → ℕ → ℕ → CatchupRange
chunk r max_size current =
    let hi = chunk_end r max_size current in
    record { start = current; end = hi; current = new_current r.current current hi }

-- The `for current <= r.End` loop. `none` means that the fuel ran out.
split_loop : ℕ → CatchupRange → ℕ → ℕ → Option (List CatchupRange)
split_loop zero r max_size current = none
split_loop (suc fuel) r max_size current =
    let rest =
      Option.map (λ rs. chunk r max_size current ∷ rs)
        (split_loop fuel r max_size (add64 (chunk_end r max_size current) 1)) in
    if leb current r.end then rest else some []

pub split_catchup_range : CatchupRange → ℕ → Option (List CatchupRange)
split_catchup_range r max_size =
    if leb r.end r.start
    then some (r ∷ [])
    else if max_size == 0 || leb (add64 (sub64 r.end r.start) 1) max_size
    then some (r ∷ [])
    else split_loop (suc (suc (sub64 r.end r.start))) r max_size r.start
