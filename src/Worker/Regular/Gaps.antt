-- ===== src/Worker/Regular/Gaps.antt =====
-- The regular worker leaves no gap on a chain that is checked for reorgs.
mod Recoveries
mod Batches
use linq_b2b.Prelude.{
  ℕ, zero, suc, ◌+◌, ◌-◌, ◌≤◌, ◌<◌, ◌≡◌, refl, sym, ap, ◌∙◌, Bool, true, false, List, [], ◌∷◌, ◌++◌,
  Option, none, some, String, arith, ltb, leb, ◌==◌, if◌then◌else◌, span, span-append, span-empty,
  span-one, subst, append-nil, append_assoc, add64, sub64, inl, inr, ◌⊎◌, Bool-cases, Option-cases,
  u64_mod, add64_exact, sub64_exact,
}
use linq_b2b.Chain.{Block, BlockResult, Error}
use linq_b2b.Store.{StoreError}
use linq_b2b.Worker.{Config}
use linq_b2b.Worker.Regular.{
  Regular, Answers, TickError, save_latest, recover_block, get_latest, get_blocks,
  regular_gap_retry_attempts,
}
use linq_b2b.Worker.Regular.Hashes.{add_block_hash}
use linq_b2b.Worker.Regular.Lag.{skip_ahead, skip_ahead_if_lagging}
use linq_b2b.Worker.Regular.Reorg.{is_reorg_check_required, detect_and_handle_reorg}
use linq_b2b.Worker.Regular.Recovery.{
  Outcome, handled, is_linked, Recovery, recovered, reorg_handled, failed, recover_regular_block,
  gap_error, recover_regular_gap,
}
use linq_b2b.Worker.Regular.Attempts.{
  trace, detect_cases, handled_block, handled_gap, BlockOf, recover_regular_block-BlockOf,
}
use linq_b2b.Worker.Regular.Tick.{
  resolved, recover_rest, Round, ends, goes_on, outcome_of, check_block, batch_round,
  process_reorg_checked_batch, process_batch, advance, finish_tick, batch_end, follow_head,
  process_regular_blocks,
}
use linq_b2b.Worker.Regular.Gaps.Recoveries.{
  Continues, Continues-end, Continues-step, recover_rest-Continues,
}
use linq_b2b.Worker.Regular.Gaps.Batches.{process_reorg_checked_batch-Continues}

module _ (c : Config) (watching : c.has_observer ≡ true) where
  -- Where the cursor stands after a tick that processed the blocks up to `last`.
  abbrev pub CursorAfter : ℕ → Regular → Type 0
  CursorAfter last w' = (w'.current_block ≡ suc last) ⊎ (w'.block_hashes ≡ [])

  finish_tick_cursor :
      (last limit : ℕ) (w : Regular) (o : Outcome)
      → suc limit < u64_mod
      → w.current_block ≡ suc last
      → Continues c watching last limit w o
      → let w' = (finish_tick c o).1 in (trace w' ≡ trace o.worker) × CursorAfter o.last_success w'
  unfolding finish_tick advance add_block_hash
  finish_tick_cursor last limit w o room e v = ground (arith, add64_exact o.last_success 1)

  skip_cases :
      (latest : ℕ) (w : Regular)
      → let (skipped, w') = skip_ahead_if_lagging c latest w in
        (trace w' ≡ trace w) × ((skipped ≡ false) ⊎ (w'.block_hashes ≡ []))
  unfolding skip_ahead_if_lagging skip_ahead
  skip_cases latest w = ground arith

  batch_end_bounds :
      (current latest : ℕ)
      → 0 < current
      → 0 < c.batch_size
      → current + c.batch_size < u64_mod
      → current ≤ latest
      → (current ≤ batch_end c current latest) × (suc (batch_end c current latest) < u64_mod)
  unfolding batch_end add64 sub64
  batch_end_bounds current latest pos size room h = (omega arith, omega arith)

  -- The blocks that a tick processes, and where it leaves the cursor.
  abbrev pub NoGap : Regular → Regular → Type 0
  NoGap w w' =
      (last : ℕ) × (w.current_block ≤ suc last)
      × (trace w' ≡ trace w ++ span w.current_block (suc last))
      × CursorAfter last w'

  NoGap-idle :
      (w w' : Regular)
      → 0 < w.current_block
      → trace w' ≡ trace w
      → (w'.current_block ≡ w.current_block) ⊎ (w'.block_hashes ≡ [])
      → NoGap w w'
  NoGap-idle w w' pos t k = (
    w.current_block - 1,
    omega arith,
    t
        ∙ sym (append-nil (trace w))
        ∙ ap (λ l. trace w ++ l)
            (sym (span-empty w.current_block (suc (w.current_block - 1)) (omega arith))),
    ground arith,
  )

  module _ (checked : is_reorg_check_required c ≡ true) (a : Answers) (w : Regular)
      (pos : 0 < w.current_block) (size : 0 < c.batch_size)
      (room : w.current_block + c.batch_size < u64_mod) where
    process_batch-NoGap :
        (latest : ℕ) (results : List BlockResult)
        → w.current_block ≤ latest
        → NoGap w
            (finish_tick c (process_batch c a (batch_end c w.current_block latest) results w)).1
    unfolding process_batch
    process_batch-NoGap latest results h =
        let limit = batch_end c w.current_block latest in
        let last = sub64 w.current_block 1 in
        let behind : w.current_block ≡ suc last = ground (arith, sub64_exact w.current_block 1) in
        let (low, high) = batch_end_bounds w.current_block latest pos size room h in
        let o = process_reorg_checked_batch c a limit results w.current_block last "" w in
        let v =
          process_reorg_checked_batch-Continues c watching a limit high results w.current_block last
            "" w behind (omega arith) in
        let (t, k) = finish_tick_cursor last limit w o high behind v in
        rw checked (
          o.last_success,
          omega (arith, v.grows),
          t ∙ v.traced ∙ ap (λ n. trace w ++ span n (suc o.last_success)) (sym behind),
          k,
        )

    follow_head_ok :
        (latest : ℕ) (results : List BlockResult)
        → a.blocks w.current_block (batch_end c w.current_block latest) ≡ some results
        → follow_head c a latest w
          ≡ finish_tick c (process_batch c a (batch_end c w.current_block latest) results w)
    unfolding follow_head
    follow_head_ok latest results e = rw (e, follow_head)

    follow_head_failed :
        (latest : ℕ)
        → a.blocks w.current_block (batch_end c w.current_block latest) ≡ none
        → follow_head c a latest w ≡ (some get_blocks, w)
    unfolding follow_head
    follow_head_failed latest e = rw (e, follow_head)

    follow_head-NoGap :
        (latest : ℕ) → w.current_block ≤ latest → NoGap w (follow_head c a latest w).1
    follow_head-NoGap latest h =
        elim (Option-cases (a.blocks w.current_block (batch_end c w.current_block latest))) [
          | inl e ↦ rw (follow_head_failed latest e) (NoGap-idle w w pos refl (inl refl))
          | inr (results, e) ↦
              rw (follow_head_ok latest results e) (process_batch-NoGap latest results h)
        ]

    tick_at :
        (latest : ℕ)
        → a.latest ≡ some latest
        → process_regular_blocks c a w ≡ (
            let (skipped, w') = skip_ahead_if_lagging c latest w in
            if skipped
            then (none, w')
            else if ltb latest w.current_block
            then (none, w)
            else follow_head c a latest w)
    unfolding process_regular_blocks
    tick_at latest e = rw e

    tick_failed : a.latest ≡ none → process_regular_blocks c a w ≡ (some get_latest, w)
    unfolding process_regular_blocks
    tick_failed e = rw e

    tick-NoGap : (latest : ℕ) → a.latest ≡ some latest → NoGap w (process_regular_blocks c a w).1
    tick-NoGap latest e =
        let w' = (skip_ahead_if_lagging c latest w).1 in
        rw (tick_at latest e) (elim (Bool-cases (skip_ahead_if_lagging c latest w).0) [
          | inl skipped ↦
              rw skipped
                (NoGap-idle w w' pos (skip_cases latest w).0 (ground (arith, skip_cases latest w)))
          | inr stays ↦ elim (Bool-cases (ltb latest w.current_block)) [
            | inl ahead ↦ rw (stays, ahead) (NoGap-idle w w pos refl (inl refl))
            | inr behind ↦ rw (stays, behind) (follow_head-NoGap latest (ground arith))
          ]
        ])

    -- On a chain that is checked for reorgs, with an observer, from a positive cursor, with a
    -- positive batch size and below 2^64: whatever the chain client answers, one tick processes
    -- the blocks from the cursor on in order, each once and none left out, up to some `last`; and
    -- it leaves the cursor right behind `last`, unless it cleared the cached hashes (which a reorg
    -- and a jump to the head do).
    pub process_regular_blocks-NoGap : NoGap w (process_regular_blocks c a w).1
    process_regular_blocks-NoGap = elim (Option-cases a.latest) [
      | inl e ↦ rw (tick_failed e) (NoGap-idle w w pos refl (inl refl))
      | inr (latest, e) ↦ tick-NoGap latest e
    ]
