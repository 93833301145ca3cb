-- ===== src/Worker/Results.antt =====
-- handleBlockResult of indexer/internal/worker/base.go: what a result leaves behind.
use linq_b2b.Prelude.{
  ℕ, ◌≡◌, ◌<◌, refl, Bool, true, false, ◌||◌, List, [], ◌∷◌, ◌++◌, none, some, String, arith, ◌∙◌,
  inl, inr, Option-cases, append-nil, ltb, ◌==◌, if◌then◌else◌, length, contains,
}
use linq_b2b.Chain.{
  Block, Transaction, UtxoEvent, BlockResult, Error, ErrorType, block_unmarshal, block_not_found,
  block_nil, timeout, unknown,
}
use linq_b2b.Store.FailedBlocks.{failed, IsHealthy, save_failed_block_adds}
use linq_b2b.Worker.{
  Config, Base, BlockStatus, processed, status_of, emit_block, emit_transactions, emit_utxo_events,
  emit_utxos, handle_block_result,
}

-- The numbers that the observer was told to be processed, oldest first.
unfoldable pub processed_blocks : List (ℕ × BlockStatus) → List ℕ
processed_blocks [] = []
processed_blocks ((n, BlockStatus.processed) ∷ rest) = n ∷ processed_blocks rest
processed_blocks ((n, BlockStatus.not_found) ∷ rest) = processed_blocks rest
processed_blocks ((n, BlockStatus.failed) ∷ rest) = processed_blocks rest

pub processed_blocks-append :
    (xs ys : List (ℕ × BlockStatus))
    → processed_blocks (xs ++ ys) ≡ processed_blocks xs ++ processed_blocks ys
unfolding processed_blocks
processed_blocks-append [] ys = refl
processed_blocks-append ((n, BlockStatus.processed) ∷ rest) ys =
    cc (processed_blocks-append rest ys)
processed_blocks-append ((n, BlockStatus.not_found) ∷ rest) ys = processed_blocks-append rest ys
processed_blocks-append ((n, BlockStatus.failed) ∷ rest) ys = processed_blocks-append rest ys

-- The parts of a worker that emitting leaves alone.
abbrev pub EmitsOnly : Base → Base → Type 0
EmitsOnly b b' =
    (b'.store ≡ b.store) × (b'.failed_chan ≡ b.failed_chan) × (b'.observed ≡ b.observed)

EmitsOnly-trans : (a b c : Base) → EmitsOnly a b → EmitsOnly b c → EmitsOnly a c
EmitsOnly-trans a b c h k = (k.0 ∙ h.0, k.1 ∙ h.1, k.2 ∙ h.2)

emit_transactions-EmitsOnly :
    (c : Config) (exist : String → Bool) (ts : List Transaction) (b : Base)
    → EmitsOnly b (emit_transactions c exist ts b)
unfolding emit_transactions
emit_transactions-EmitsOnly c exist [] b = (refl, refl, refl)
emit_transactions-EmitsOnly c exist (t ∷ ts) b = emit_transactions-EmitsOnly c exist ts _

emit_utxo_events-EmitsOnly :
    (exist : String → Bool) (es : List UtxoEvent) (b : Base)
    → EmitsOnly b (emit_utxo_events exist es b)
unfolding emit_utxo_events
emit_utxo_events-EmitsOnly exist [] b = (refl, refl, refl)
emit_utxo_events-EmitsOnly exist (e ∷ es) b = emit_utxo_events-EmitsOnly exist es _

emit_utxos-EmitsOnly :
    (c : Config) (exist : String → Bool) (block : Block) (b : Base)
    → EmitsOnly b (emit_utxos c exist block b)
unfolding emit_utxos
emit_utxos-EmitsOnly c exist block b = elim (Option-cases block.utxo_events) [
  | inl e ↦ ground arith
  | inr (es, e) ↦ ground (arith, emit_utxo_events-EmitsOnly exist es b)
]

pub emit_block-EmitsOnly :
    (c : Config) (block : Block) (b : Base) → EmitsOnly b (emit_block c block b)
unfolding emit_block
emit_block-EmitsOnly c block b = elim (Option-cases c.exist) [
  | inl e ↦ ground arith
  | inr (exist, e) ↦
      let b' = emit_transactions c exist block.transactions b in
      ground (
        arith,
        emit_transactions-EmitsOnly c exist block.transactions b,
        emit_utxos-EmitsOnly c exist block b',
      )
]

-- A block without an error is processed: the observer is told, and neither the block store nor the
-- channel of failed blocks changes.
pub handle_block_result_block :
    (c : Config) (r : BlockResult) (b : Base) {block : Block}
    → r.error ≡ none
    → r.block ≡ some block
    → let (done, b') = handle_block_result c r b in
      (done ≡ true)
      × (b'.store ≡ b.store)
      × (b'.failed_chan ≡ b.failed_chan)
      × (b'.observed
          ≡ (if c.has_observer then b.observed ++ (r.number, processed) ∷ [] else b.observed))
unfolding handle_block_result
handle_block_result_block c r b {block} e f = ground (arith, emit_block-EmitsOnly c block b)

-- A result with an error, in a healthy block store, for a block other than 0: it is not processed
-- and emits nothing; its block, and no other, is added to the stored failed blocks; an event for
-- it goes to the channel of failed blocks unless that is full.
pub handle_block_result_error :
    (c : Config) (r : BlockResult) (b : Base) {e : Error}
    → IsHealthy c.internal_code b.store
    → r.error ≡ some e
    → 0 < r.number
    → let (done, b') = handle_block_result c r b in
      (done ≡ false)
      × (b'.emitted ≡ b.emitted)
      × ((n : ℕ) → contains n (failed b'.store) ≡ (contains n (failed b.store) || r.number == n))
      × IsHealthy c.internal_code b'.store
      × (b'.failed_chan ≡ (
          if ltb (length b.failed_chan) c.chan_capacity
          then b.failed_chan ++ record { chain = c.name; block = r.number; attempt = 1 } ∷ []
          else b.failed_chan))
unfolding handle_block_result
handle_block_result_error c r b v f pos =
    let (adds, healthy, _) = save_failed_block_adds c.internal_code r.number b.store v in
    (
      ground arith,
      ground arith,
      (λ n. ground (arith, adds n)),
      ground (arith, healthy),
      ground arith,
    )

-- A result with neither a block nor an error leaves no trace but the observer's: it is not
-- processed, and yet its block is not stored as failed and no event is sent for it.
pub handle_block_result_nil :
    (c : Config) (r : BlockResult) (b : Base)
    → r.error ≡ none
    → r.block ≡ none
    → let (done, b') = handle_block_result c r b in
      (done ≡ false)
      × (b'.emitted ≡ b.emitted)
      × (b'.store ≡ b.store)
      × (b'.failed_chan ≡ b.failed_chan)
unfolding handle_block_result
handle_block_result_nil c r b e f = ground arith

trace-snoc :
    (xs : List (ℕ × BlockStatus)) (n : ℕ) (t : ErrorType)
    → processed_blocks (xs ++ (n, status_of t) ∷ []) ≡ processed_blocks xs
unfolding status_of processed_blocks
trace-snoc xs n block_unmarshal = processed_blocks-append xs _ ∙ append-nil _
trace-snoc xs n block_not_found = processed_blocks-append xs _ ∙ append-nil _
trace-snoc xs n block_nil = processed_blocks-append xs _ ∙ append-nil _
trace-snoc xs n timeout = processed_blocks-append xs _ ∙ append-nil _
trace-snoc xs n unknown = processed_blocks-append xs _ ∙ append-nil _

-- A result with an error processes no block.
pub handle_block_result-trace :
    (c : Config) (r : BlockResult) (b : Base) {e : Error}
    → r.error ≡ some e
    → processed_blocks (handle_block_result c r b).1.observed ≡ processed_blocks b.observed
unfolding handle_block_result
handle_block_result-trace c r b {e} f = ground (arith, trace-snoc b.observed r.number e.error_type)
