-- ===== src/Worker/Manual/Visits.antt =====
-- What a visit of indexer/internal/worker/manual.go to a range leaves behind.
use linq_b2b.Prelude.{
  ℕ, ◌<◌, ◌≡◌, refl, sym, ◌∙◌, ap, subst, inl, inr, ◌⊎◌, arith, Bool, true, not, ◌&&◌, ◌||◌, List,
  [], ◌∷◌, ◌++◌, none, some, leb, if◌then◌else◌, All, contains, contains-append, sub64,
}
use linq_b2b.Chain.{Block, BlockResult, Error}
use linq_b2b.Store.FailedBlocks.{failed, IsHealthy}
use linq_b2b.Worker.{Config, Base, processed, handle_block_result}
use linq_b2b.Worker.Results.{
  processed_blocks, processed_blocks-append, handle_block_result_block, handle_block_result_error,
  handle_block_result-trace,
}
use linq_b2b.Worker.Manual.{Visit, handle_results, Manual}
use linq_b2b.MissingBlocks.{BlockRange, same, mem, SortedSet, Keys}

-- The numbers of the blocks that came, and of the results with an error.
unfoldable pub arrived : List BlockResult → List ℕ
arrived [] = []
arrived (r ∷ rs) = elim r.error [ none ↦ r.number ∷ arrived rs | some e ↦ arrived rs ]

unfoldable pub erred : List BlockResult → List ℕ
erred [] = []
erred (r ∷ rs) = elim r.error [ none ↦ erred rs | some e ↦ r.number ∷ erred rs ]

unfoldable pub last_of : ℕ → List ℕ → ℕ
last_of d [] = d
last_of d (n ∷ ns) = last_of n ns

-- A result holds a block or an error, and is not for block 0.
abbrev pub IsAnswer : BlockResult → Type 0
IsAnswer r =
    (0 < r.number)
    × (((block : Block) × (r.error ≡ none) × (r.block ≡ some block))
        ⊎ ((e : Error) × (r.error ≡ some e)))

-- The blocks that the observer was told to be processed.
abbrev pub told : Base → List ℕ
told b = processed_blocks b.observed

arrived_block :
    (r : BlockResult) (rs : List BlockResult)
    → r.error ≡ none
    → (arrived (r ∷ rs) ≡ r.number ∷ arrived rs) × (erred (r ∷ rs) ≡ erred rs)
unfolding arrived erred
arrived_block r rs e = (rw e refl, rw e refl)

arrived_error :
    (r : BlockResult) (rs : List BlockResult) {e : Error}
    → r.error ≡ some e
    → (arrived (r ∷ rs) ≡ arrived rs) × (erred (r ∷ rs) ≡ r.number ∷ erred rs)
unfolding arrived erred
arrived_error r rs e = (rw e refl, rw e refl)

module _ (c : Config) (watching : c.has_observer ≡ true) where
  -- The blocks `good` are processed, and the blocks `bad`, and no others, are stored as failed.
  pub record Accounts (good bad : List ℕ) (before after : Base) : Type 0 where
    pub processed_in :
        (n : ℕ) → contains n (told after) ≡ (contains n (told before) || contains n good)
    pub failed_in :
        (n : ℕ)
        → contains n (failed after.store) ≡ (contains n (failed before.store) || contains n bad)
    pub healthy : IsHealthy c.internal_code after.store

  told-block :
      (r : BlockResult) (b : Base) {block : Block}
      → r.error ≡ none
      → r.block ≡ some block
      → told (handle_block_result c r b).1 ≡ told b ++ r.number ∷ []
  unfolding processed_blocks
  told-block r b e f =
      let (done, store, chan, observed) = handle_block_result_block c r b e f in
      rw (observed, watching) (processed_blocks-append b.observed ((r.number, processed) ∷ []))

  handle_results_step :
      (r : BlockResult) (rs : List BlockResult) (last : ℕ) (b : Base) {done : Bool}
      → (handle_block_result c r b).0 ≡ done
      → handle_results c (r ∷ rs) last b
        ≡ handle_results c rs (if done then r.number else last) (handle_block_result c r b).1
  unfolding handle_results
  handle_results_step r rs last b e =
      ap (λ d. handle_results c rs (if d then r.number else last) (handle_block_result c r b).1) e

  abbrev pub Handled : List ℕ → List ℕ → ℕ → Base → ℕ × Base → Type 0
  Handled good bad last b end = (end.0 ≡ last_of last good) × Accounts good bad b end.1

  carry :
      {good good' bad bad' : List ℕ} (last : ℕ) {b : Base} {end end' : ℕ × Base}
      → (good' ≡ good) × (bad' ≡ bad)
      → end' ≡ end
      → Handled good bad last b end
      → Handled good' bad' last b end'
  carry {good} {good'} {bad} {bad'} last {b} {end} {end'} (e, f) g h =
      subst (λ x. Handled x bad' last b end') (sym e)
        (subst (λ x. Handled good x last b end') (sym f)
          (subst (Handled good bad last b) (sym g) h))

  pub handle_results_lem :
      (rs : List BlockResult) (last : ℕ) (b : Base)
      → IsHealthy c.internal_code b.store
      → All IsAnswer rs
      → Handled (arrived rs) (erred rs) last b (handle_results c rs last b)
  unfolding handle_results arrived erred last_of
  handle_results_lem [] last b v a = (
    refl,
    record { processed_in = λ n. ground arith; failed_in = λ n. ground arith; healthy = v },
  )
  handle_results_lem (r ∷ rs) last b v ((pos, inl (block, e, f)), a) =
      let after = (handle_block_result c r b).1 in
      let (done, store, chan, observed) = handle_block_result_block c r b e f in
      let (reached, rest) =
        handle_results_lem rs r.number after (subst (IsHealthy c.internal_code) (sym store) v) a in
      carry _ (arrived_block r rs e) (handle_results_step r rs last b done) (
        reached,
        record {
          processed_in = λ n. ground (
            arith,
            rest.processed_in n,
            told-block r b e f,
            contains-append n (told b) (r.number ∷ []),
          );
          failed_in = λ n.
              rest.failed_in n ∙ ap (λ s. contains n (failed s) || contains n (erred rs)) store;
          healthy = rest.healthy;
        },
      )
  handle_results_lem (r ∷ rs) last b v ((pos, inr (e, f)), a) =
      let after = (handle_block_result c r b).1 in
      let (done, emitted, adds, healthy, chan) = handle_block_result_error c r b v f pos in
      let (reached, rest) = handle_results_lem rs last after healthy a in
      carry _ (arrived_error r rs f) (handle_results_step r rs last b done) (
        reached,
        record {
          processed_in = λ n.
              rest.processed_in n
              ∙ ap (λ t. contains n t || contains n (arrived rs))
                  (handle_block_result-trace c r b f);
          failed_in = λ n. ground (arith, rest.failed_in n, adds n);
          healthy = rest.healthy;
        },
      )

  module _ (z : SortedSet) (l p : Keys) where
    -- The visit to a range: the accounts of its blocks, and which ranges are left in the queue.
    pub record Visited (v : Visit) (r : BlockRange) (rs : List BlockResult)
        (before after : Manual z l p) : Type 0 where
      pub accounts : Accounts (arrived rs) (erred rs) before.base after.base
      pub left :
          (x : BlockRange)
          → mem x (z.zrange after.queue.ranges) ≡ (
              mem x (z.zrange before.queue.ranges)
              && not (
                  same r x
                  && (v.remove_up
                      && leb r.end_block (last_of (sub64 r.start_block 1) (arrived rs)))))
