-- ===== src/Worker/Regular/Gaps/Batches.antt =====
-- A batch of indexer/internal/worker/regular.go that is checked for reorgs goes on without a gap.
use linq_b2b.Prelude.{
  ℕ, suc, ◌≤◌, ◌<◌, ◌≡◌, refl, sym, ap, ◌∙◌, true, false, List, [], ◌∷◌, ◌++◌, Option, none, some,
  String, arith, ltb, leb, ◌==◌, if◌then◌else◌, subst, add64, inl, inr, ◌⊎◌, Bool-cases, u64_mod,
  add64_exact,
}
use linq_b2b.Chain.{Block, BlockResult, Error}
use linq_b2b.Store.{StoreError}
use linq_b2b.Worker.{Config}
use linq_b2b.Worker.Regular.{Regular, Answers, save_latest}
use linq_b2b.Worker.Regular.Reorg.{detect_and_handle_reorg}
use linq_b2b.Worker.Regular.Recovery.{handled, is_linked}
use linq_b2b.Worker.Regular.Attempts.{trace, detect_cases, handled_block}
use linq_b2b.Worker.Regular.Tick.{
  resolved, recover_rest, Round, ends, goes_on, outcome_of, check_block, batch_round,
  process_reorg_checked_batch,
}
use linq_b2b.Worker.Regular.Gaps.Recoveries.{
  Continues, Continues-end, Continues-step, recover_rest-Continues,
}

module _ (c : Config) (watching : c.has_observer ≡ true) where
  module _ (a : Answers) (limit : ℕ) (room : suc limit < u64_mod) where
    -- What one round of the batch can do.
    RoundOf : ℕ → Regular → Round → Type 0
    RoundOf last w (ends o) = Continues c watching last limit w o
    RoundOf last w (goes_on expected' last' hash w') =
        (last' ≡ suc last)
        × (expected' ≡ suc last')
        × (trace w' ≡ trace w ++ suc last ∷ [])
        × (w'.current_block ≡ w.current_block)
        × (last' ≤ limit)

    check_no_reorg :
        (r : BlockResult) (expected last : ℕ) (last_hash : String) (w : Regular) (block : Block)
        → r.error ≡ none
        → r.block ≡ some block
        → (detect_and_handle_reorg c block w).reorg ≡ false
        → (detect_and_handle_reorg c block w).error ≡ none
        → (detect_and_handle_reorg c block w).worker ≡ w
        → check_block c a limit r block expected last last_hash w ≡ (
            if is_linked last_hash block
            then goes_on (add64 r.number 1) r.number block.hash (handled c r w).1
            else ends (recover_rest c a limit expected last last_hash w))
    unfolding check_block
    check_no_reorg r expected last last_hash w block e f no_reorg ok same =
        ground (arith, handled_block c watching r w e f)

    check_reorg :
        (r : BlockResult) (expected last : ℕ) (last_hash : String) (w : Regular) (block : Block)
        → let check = detect_and_handle_reorg c block w in
          check.reorg ≡ true
          → check_block c a limit r block expected last last_hash w
            ≡ ends (elim check.error [
              | none ↦ outcome_of true none last last_hash check.worker
              | some e ↦ outcome_of false (some (save_latest e)) last last_hash check.worker
            ])
    unfolding check_block
    check_reorg r expected last last_hash w block yes_reorg = ground arith

    ends_by_reorg :
        (last : ℕ) (last_hash : String) (w : Regular) (e : Option StoreError) (w' : Regular)
        → last ≤ limit
        → trace w' ≡ trace w
        → w'.block_hashes ≡ []
        → (e ≡ none) ⊎ (w'.current_block ≡ w.current_block)
        → Continues c watching last limit w (elim e [
          | none ↦ outcome_of true none last last_hash w'
          | some e ↦ outcome_of false (some (save_latest e)) last last_hash w'
        ])
    ends_by_reorg last last_hash w none w' h t z k =
        Continues-end c watching true none last limit last_hash w w' h t (inl (refl, z))
    ends_by_reorg last last_hash w (some e) w' h t z k =
        Continues-end c watching false _ last limit last_hash w w' h t (inr (refl, ground arith))

    check_block-RoundOf :
        (r : BlockResult) (expected last : ℕ) (last_hash : String) (w : Regular) (block : Block)
        → r.error ≡ none
        → r.block ≡ some block
        → r.number ≡ expected
        → expected ≡ suc last
        → expected ≤ limit
        → RoundOf last w (check_block c a limit r block expected last last_hash w)
    unfolding RoundOf
    check_block-RoundOf r expected last last_hash w block no_error is_block number e h =
        elim (detect_cases c block w) [
          | inl (no_reorg, ok, same) ↦
              rw
                (check_no_reorg r expected last last_hash w block no_error is_block no_reorg ok
                  same)
                (elim (Bool-cases (is_linked last_hash block)) [
                  | inr unlinked ↦ rw unlinked (
                      recover_rest-Continues c watching a limit room expected last last_hash w e
                        (omega arith))
                  | inl linked ↦
                      let (done, traced, kept) = handled_block c watching r w no_error is_block in
                      rw linked (
                        number ∙ e,
                        ground (arith, add64_exact r.number 1),
                        traced ∙ ap (λ k. trace w ++ k ∷ []) (number ∙ e),
                        kept,
                        ground arith,
                      )
                ])
          | inr (yes_reorg, same_trace, cleared, moved) ↦
              rw (check_reorg r expected last last_hash w block yes_reorg) (
                ends_by_reorg last last_hash w _ (detect_and_handle_reorg c block w).worker
                  (omega arith) same_trace cleared moved)
        ]

    resolved_cases :
        (e : Option Error) (b : Option Block)
        → (resolved e b ≡ none)
          ⊎ ((block : Block) × (e ≡ none) × (b ≡ some block) × (resolved e b ≡ some block))
    unfolding resolved
    resolved_cases (some e) b = inl refl
    resolved_cases none none = inl refl
    resolved_cases none (some block) = inr (block, refl, refl, refl)

    batch_round-resolved :
        (r : BlockResult) (expected last : ℕ) (last_hash : String) (w : Regular)
        → ltb limit expected ≡ false
        → (r.number == expected) ≡ true
        → batch_round c a limit r expected last last_hash w ≡ (elim (resolved r.error r.block) [
          | none ↦ ends (recover_rest c a limit expected last last_hash w)
          | some block ↦ check_block c a limit r block expected last last_hash w
        ])
    unfolding batch_round
    batch_round-resolved r expected last last_hash w h k = rw (h, k)

    batch_round-RoundOf :
        (r : BlockResult) (expected last : ℕ) (last_hash : String) (w : Regular)
        → expected ≡ suc last
        → last ≤ limit
        → RoundOf last w (batch_round c a limit r expected last last_hash w)
    unfolding batch_round RoundOf
    batch_round-RoundOf r expected last last_hash w e h = elim (Bool-cases (ltb limit expected)) [
      | inl over ↦
          rw over
            (Continues-end c watching false none last limit last_hash w w h refl (inr (refl, refl)))
      | inr in_range ↦ elim (Bool-cases (r.number == expected)) [
        | inr other ↦
            rw (in_range, other)
              (recover_rest-Continues c watching a limit room expected last last_hash w e h)
        | inl number ↦
            subst (RoundOf last w)
              (sym (batch_round-resolved r expected last last_hash w in_range number))
              (elim (resolved_cases r.error r.block) [
                | inl unresolved ↦
                    subst
                      (λ o. RoundOf last w (elim o [
                        | none ↦ ends (recover_rest c a limit expected last last_hash w)
                        | some block ↦ check_block c a limit r block expected last last_hash w
                      ]))
                      (sym unresolved)
                      (recover_rest-Continues c watching a limit room expected last last_hash w e h)
                | inr (block, no_error, is_block, good) ↦
                    subst
                      (λ o. RoundOf last w (elim o [
                        | none ↦ ends (recover_rest c a limit expected last last_hash w)
                        | some block ↦ check_block c a limit r block expected last last_hash w
                      ]))
                      (sym good)
                      (check_block-RoundOf r expected last last_hash w block no_error is_block
                        (ground arith) e (ground arith))
              ])
      ]
    ]

    -- The rest of the batch, from where the round left off.
    batch_next :
        (rs : List BlockResult) (last : ℕ) (w : Regular) (round : Round)
        → RoundOf last w round
        → ((expected' last' : ℕ) (hash : String) (w' : Regular)
            → expected' ≡ suc last'
            → last' ≤ limit
            → Continues c watching last' limit w'
                (process_reorg_checked_batch c a limit rs expected' last' hash w'))
        → Continues c watching last limit w (elim round [
          | ends o ↦ o
          | goes_on expected' last' hash w' ↦
              process_reorg_checked_batch c a limit rs expected' last' hash w'
        ])
    unfolding RoundOf
    batch_next rs last w (ends o) h next = h
    batch_next rs last w (goes_on expected' last' hash w') h next =
        Continues-step c watching last limit w w' _ h.2 h.3 (
          subst
            (λ k.
              Continues c watching k limit w'
                (process_reorg_checked_batch c a limit rs expected' last' hash w'))
            h.0 (next expected' last' hash w' h.1 h.4))

    pub process_reorg_checked_batch-Continues :
        (rs : List BlockResult) (expected last : ℕ) (last_hash : String) (w : Regular)
        → expected ≡ suc last
        → last ≤ limit
        → Continues c watching last limit w
            (process_reorg_checked_batch c a limit rs expected last last_hash w)
    unfolding process_reorg_checked_batch
    process_reorg_checked_batch-Continues [] expected last last_hash w e h =
        elim (Bool-cases (leb expected limit)) [
          | inl more ↦
              rw more (recover_rest-Continues c watching a limit room expected last last_hash w e h)
          | inr over ↦ rw over (
              Continues-end c watching false none last limit last_hash w w h refl
                (inr (refl, refl)))
        ]
    process_reorg_checked_batch-Continues (r ∷ rs) expected last last_hash w e h =
        batch_next rs last w (batch_round c a limit r expected last last_hash w)
          (batch_round-RoundOf r expected last last_hash w e h)
          (process_reorg_checked_batch-Continues rs)
