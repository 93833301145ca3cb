-- ===== src/Worker/Manual.antt =====
-- indexer/internal/worker/manual.go: a worker that takes ranges from the queue of missing blocks.
-- One round of the loop is a step; sleeping is left out.
pub mod Visits
use linq_b2b.Prelude.{
  ℕ, suc, ◌+◌, ◌&&◌, Bool, true, false, List, [], ◌∷◌, Option, none, some, leb, ◌==◌, if◌then◌else◌,
  sub64,
}
use linq_b2b.Chain.{BlockResult}
use linq_b2b.MissingBlocks.{
  BlockRange, SortedSet, Keys, Queue, get_next_range, remove_range, set_range_processed,
}
use linq_b2b.Worker.{Config, Base, handle_block_result}

-- What the round meets: whether each call of the queue reaches Redis, and the answer of GetBlocks.
pub record Visit : Type 0 where
  pub next_up : Bool
  pub progress_up : Bool
  pub remove_up : Bool
  pub blocks : ℕ → ℕ → Option (List BlockResult)

-- `lastSuccess` after the results, the last one that was handled.
unfoldable pub handle_results : Config → List BlockResult → ℕ → Base → ℕ × Base
handle_results c [] last b = (last, b)
handle_results c (r ∷ rs) last b =
    let handled = handle_block_result c r b in
    handle_results c rs (if handled.0 then r.number else last) handled.1

module _ (z : SortedSet) (l p : Keys) where
  pub record Manual : Type 0 where
    pub base : Base
    pub queue : Queue z l p
    pub empty_attempts : ℕ

  -- SetRangeProcessed, then RemoveRange.
  unfoldable pub finish_range : Visit → BlockRange → ℕ → Queue z l p → Queue z l p
  finish_range v r last q =
      let noted =
        if leb r.start_block last
        then (set_range_processed z l p v.progress_up r last q).1
        else q in
      if leb r.end_block last then (remove_range z l p v.remove_up r noted).1 else noted

  unfoldable pub handle_range : Config → Visit → BlockRange → Manual → Manual
  handle_range c v r m = elim (v.blocks r.start_block r.end_block) [
    | none ↦ m
    | some results ↦
        let (last, after) = handle_results c results (sub64 r.start_block 1) m.base in
        record m { base = after; queue = finish_range v r last m.queue }
  ]

  -- One round of the loop.
  unfoldable pub round : ℕ → Config → Visit → Manual → Manual
  round max_empty_attempts c v m =
      let next = get_next_range z l p v.next_up m.queue in
      let claimed = record m { queue = next.1 } in
      elim next.0 [
        | none ↦ claimed
        | some bounds ↦
            if bounds.0 == 0 && bounds.1 == 0
            then record claimed {
              empty_attempts =
                  if leb max_empty_attempts (m.empty_attempts + 1) then 0 else m.empty_attempts + 1;
            }
            else handle_range c v (record { start_block = bounds.0; end_block = bounds.1 })
                (record claimed { empty_attempts = 0 })
      ]
