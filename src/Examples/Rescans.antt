-- ===== src/Examples/Rescans.antt =====
-- The theorems on the rescanner at a worker with one block in its last retry.
use linq_b2b.Prelude.{ℕ, ◌≡◌, refl, not, ◌&&◌, ◌||◌, [], ◌∷◌, some, none, arith, contains, ◌==◌}
use linq_b2b.Examples.{eth, idle, bad_result}
use linq_b2b.Store.FailedBlocks.{failed, IsHealthy}
use linq_b2b.Worker.Rescanner.{Rescanner, count_of, flush, rescan_results, listen, is_skipped}
use linq_b2b.Worker.Rescanner.Flushing.{flush_failed}
use linq_b2b.Worker.Rescanner.Retrying.{give_up_returns}

abbrev last_try : Rescanner
last_try = record {
  base = idle;
  tracked = (102, 2) ∷ [];
  pending_saves = 4 ∷ 9 ∷ [];
  pending_removes = 3 ∷ 9 ∷ [];
}

flush_failed_example :
    let w = flush eth last_try in
    ((n : ℕ)
      → contains n (failed w.store) ≡ (
          (contains n (3 ∷ 8 ∷ []) || (not (n == 0) && contains n (4 ∷ 9 ∷ [])))
          && not (contains n (3 ∷ 9 ∷ []))))
    × IsHealthy "ETH" w.store
    × (w.pending_saves ≡ [])
    × (w.pending_removes ≡ [])
    × (w.tracked ≡ (102, 2) ∷ [])
flush_failed_example =
    flush_failed eth last_try
      (record { named = refl; reliable = refl; ordered = (omega arith, tt) })

give_up_returns_example :
    let w = (rescan_results eth (bad_result ∷ []) [] last_try).1 in
    (count_of 102 w.tracked ≡ none) × (count_of 102 (listen eth w).tracked ≡ some 0)
unfolding is_skipped count_of
give_up_returns_example = give_up_returns eth bad_result last_try refl refl refl refl (omega arith)
