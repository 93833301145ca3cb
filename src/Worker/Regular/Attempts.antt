-- ===== src/Worker/Regular/Attempts.antt =====
-- Single blocks in indexer/internal/worker/regular.go: what the reorg check, one attempt and all
-- attempts at a block do to the blocks processed so far and to the cursor.
use linq_b2b.Prelude.{
  ℕ, zero, suc, ◌≡◌, refl, ap, ◌∙◌, true, false, ◌||◌, List, [], ◌∷◌, ◌++◌, Option, none, some,
  String, arith, ◌==◌, if◌then◌else◌, inl, inr, ◌⊎◌, Bool-cases,
}
use linq_b2b.Chain.{Block, BlockResult}
use linq_b2b.Store.{StoreError}
use linq_b2b.Worker.{Config, processed}
use linq_b2b.Worker.Results.{
  processed_blocks, processed_blocks-append, handle_block_result_block, handle_block_result-trace,
}
use linq_b2b.Worker.Regular.{Regular, Answers}
use linq_b2b.Worker.Regular.Reorg.{is_reorg, detect_and_handle_reorg}
use linq_b2b.Worker.Regular.Recovery.{
  handled, is_linked, Recovery, recovered, reorg_handled, failed, result_of, recover_attempt,
  recover_regular_block, gap_error,
}

-- The numbers of the blocks that were processed, oldest first.
abbrev pub trace : Regular → List ℕ
trace w = processed_blocks w.observed

-- Nothing was processed, and the cursor stands where it stood.
pub record IsIdle (w w' : Regular) : Type 0 where
  pub trace_kept : trace w' ≡ trace w
  pub cursor_kept : w'.current_block ≡ w.current_block

-- The check either changes nothing or reports a reorg; it processes no block, and it moves the
-- cursor only where it reports no error.
pub detect_cases :
    (c : Config) (block : Block) (w : Regular)
    → let check = detect_and_handle_reorg c block w in
      ((check.reorg ≡ false) × (check.error ≡ none) × (check.worker ≡ w))
      ⊎ ((check.reorg ≡ true)
          × (trace check.worker ≡ trace w)
          × (check.worker.block_hashes ≡ [])
          × ((check.error ≡ none) ⊎ (check.worker.current_block ≡ w.current_block)))
unfolding detect_and_handle_reorg
detect_cases c block w = elim (Bool-cases (is_reorg block w)) [
  | inr no_reorg ↦ inl (ground arith)
  | inl yes_reorg ↦ inr (ground arith)
]

module _ (c : Config) (watching : c.has_observer ≡ true) where
  -- A good block adds its number to the trace.
  pub handled_block :
      (r : BlockResult) (w : Regular) {block : Block}
      → r.error ≡ none
      → r.block ≡ some block
      → let (done, w') = handled c r w in
        (done ≡ true) × (trace w' ≡ trace w ++ r.number ∷ []) × (w'.current_block ≡ w.current_block)
  unfolding processed_blocks
  handled_block r w {block} e f =
      let (done, _, _, o) = handle_block_result_block c r w.base e f in
      (
        done,
        ap processed_blocks (
              o
              ∙ ap (λ b. if b then w.observed ++ (r.number, processed) ∷ [] else w.observed)
                  watching)
            ∙ processed_blocks-append w.observed ((r.number, processed) ∷ []),
        refl,
      )

  pub handled_gap : (number : ℕ) (w : Regular) → IsIdle w (handled c (gap_error number) w).1
  handled_gap number w = record {
    trace_kept = handle_block_result-trace c (gap_error number) w.base refl;
    cursor_kept = refl;
  }

  -- What one attempt can do to the trace and the cursor.
  abbrev pub Attempted : ℕ → Regular → Option Recovery → Regular → Type 0
  Attempted number w none w' = IsIdle w w'
  Attempted number w (some failed) w' = IsIdle w w'
  Attempted number w (some reorg_handled) w' = (trace w' ≡ trace w) × (w'.block_hashes ≡ [])
  Attempted number w (some (recovered n hash)) w' =
      (n ≡ number) × (trace w' ≡ trace w ++ number ∷ []) × (w'.current_block ≡ w.current_block)

  abbrev AttemptOf : ℕ → Regular → Option Recovery × Regular → Type 0
  AttemptOf number w p = Attempted number w p.0 p.1

  after_reorg :
      (number : ℕ) (w : Regular) (e : Option StoreError) (w' : Regular)
      → trace w' ≡ trace w
      → w'.block_hashes ≡ []
      → (e ≡ none) ⊎ (w'.current_block ≡ w.current_block)
      → Attempted number w (elim e [ none ↦ some reorg_handled | some _ ↦ some failed ]) w'
  after_reorg number w none w' h z k = (h, z)
  after_reorg number w (some e) w' h z k = record { trace_kept = h; cursor_kept = ground arith }

  attempt_no_reorg :
      (number : ℕ) (last_hash : String) (block : Block) (w : Regular)
      → (detect_and_handle_reorg c block w).reorg ≡ false
      → (detect_and_handle_reorg c block w).error ≡ none
      → (detect_and_handle_reorg c block w).worker ≡ w
      → recover_attempt c number last_hash (some (some block)) w ≡ (
          if is_linked last_hash block
          then (some (recovered number block.hash), (handled c (result_of number block) w).1)
          else (none, w))
  unfolding recover_attempt
  attempt_no_reorg number last_hash block w r e s =
      ground (arith, handled_block (result_of number block) w refl refl)

  attempt_reorg :
      (number : ℕ) (last_hash : String) (block : Block) (w : Regular)
      → let check = detect_and_handle_reorg c block w in
        check.reorg ≡ true
        → recover_attempt c number last_hash (some (some block)) w
          ≡ (elim check.error [ none ↦ some reorg_handled | some _ ↦ some failed ], check.worker)
  unfolding recover_attempt
  attempt_reorg number last_hash block w r = ground arith

  Attempted-block :
      (number : ℕ) (last_hash : String) (block : Block) (w : Regular)
      → AttemptOf number w (recover_attempt c number last_hash (some (some block)) w)
  Attempted-block number last_hash block w = elim (detect_cases c block w) [
    | inl (no_reorg, no_error, same) ↦
        rw (attempt_no_reorg number last_hash block w no_reorg no_error same)
          (elim (Bool-cases (is_linked last_hash block)) [
            | inr unlinked ↦ rw unlinked (record { trace_kept = refl; cursor_kept = refl })
            | inl linked ↦
                let (done, traced, kept) = handled_block (result_of number block) w refl refl in
                rw linked (refl, traced, kept)
          ])
    | inr (yes_reorg, same_trace, cleared, moved) ↦
        rw (attempt_reorg number last_hash block w yes_reorg) (
          after_reorg number w _ (detect_and_handle_reorg c block w).worker same_trace cleared
            moved)
  ]

  Attempted-any :
      (number : ℕ) (last_hash : String) (answer : Option (Option Block)) (w : Regular)
      → AttemptOf number w (recover_attempt c number last_hash answer w)
  Attempted-any number last_hash none w =
      unfold recover_attempt in record { trace_kept = refl; cursor_kept = refl }
  Attempted-any number last_hash (some none) w =
      unfold recover_attempt in record { trace_kept = refl; cursor_kept = refl }
  Attempted-any number last_hash (some (some block)) w = Attempted-block number last_hash block w

  -- The same for all attempts at a block.
  abbrev pub BlockOf : ℕ → Regular → Recovery × Regular → Type 0
  BlockOf number w p = Attempted number w (some p.0) p.1

  Attempted-idle :
      (number : ℕ) (w w' w'' : Regular) (r : Recovery)
      → IsIdle w w'
      → Attempted number w' (some r) w''
      → Attempted number w (some r) w''
  Attempted-idle number w w' w'' failed h k = record {
    trace_kept = k.trace_kept ∙ h.trace_kept;
    cursor_kept = k.cursor_kept ∙ h.cursor_kept;
  }
  Attempted-idle number w w' w'' reorg_handled h k = (k.0 ∙ h.trace_kept, k.1)
  Attempted-idle number w w' w'' (recovered n hash) h k =
      (k.0, k.1 ∙ ap (λ t. t ++ number ∷ []) h.trace_kept, k.2 ∙ h.cursor_kept)

  attempt_next :
      (a : Answers) (left attempt number : ℕ) (w : Regular) (first : Option Recovery) (w' : Regular)
      (more : Recovery × Regular)
      → AttemptOf number w (first, w')
      → BlockOf number w' more
      → BlockOf number w (elim first [
        | some r ↦ (r, w')
        | none ↦ if left == 0 || a.stopped number attempt then (failed, w') else more
      ])
  attempt_next a left attempt number w (some r) w' more h k = h
  attempt_next a left attempt number w none w' (r, w'') h k =
      elim (Bool-cases (left == 0 || a.stopped number attempt)) [
        | inl over ↦ rw over h
        | inr go_on ↦ rw go_on (Attempted-idle number w w' w'' r h k)
      ]

  pub recover_regular_block-BlockOf :
      (a : Answers) (left attempt number : ℕ) (last_hash : String) (w : Regular)
      → BlockOf number w (recover_regular_block c a left attempt number last_hash w)
  unfolding recover_regular_block
  recover_regular_block-BlockOf a zero attempt number last_hash w = record {
    trace_kept = refl;
    cursor_kept = refl;
  }
  recover_regular_block-BlockOf a (suc left) attempt number last_hash w =
      let w' = (recover_attempt c number last_hash (a.block number attempt) w).1 in
      attempt_next a left attempt number w _ w' _
        (Attempted-any number last_hash (a.block number attempt) w)
        (recover_regular_block-BlockOf a left (suc attempt) number last_hash w')
