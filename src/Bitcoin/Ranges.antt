-- ===== src/Bitcoin/Ranges.antt =====
-- GetBlocks of indexer/internal/indexer/bitcoin.go as the client of the catchup worker.
use linq_b2b.Prelude.{
  ℕ, suc, ◌<◌, ◌≡◌, refl, ap, ◌∙◌, arith, inl, inr, false, List, [], ◌∷◌, Option, none, some, ◌==◌,
  span, Option-cases,
}
use linq_b2b.Chain.{BlockResult}
use linq_b2b.Worker.Catchup.{Client}
use linq_b2b.Worker.Catchup.Visits.Batches.{numbers, IsAnswering}
use linq_b2b.Bitcoin.{Numbers, BtcTransaction, BtcBlock}
use linq_b2b.Bitcoin.Addresses.{Codecs}
use linq_b2b.Bitcoin.Blocks.{
  BitcoinConfig, get_block, results_of, first_error, get_blocks_by_numbers, get_blocks,
}

-- A caller drops the results when there is an error.
abbrev pub answer_of : List BlockResult × Option ℕ → Option (List BlockResult)
answer_of (rs, none) = some rs
answer_of (rs, some n) = none

module _ (v : Numbers) (k : Codecs) where
  numbers-results_of :
      (f : ℕ → BlockResult) (ns : List ℕ)
      → ((n : ℕ) → (f n).number ≡ n)
      → numbers (results_of v k f ns) ≡ ns
  unfolding results_of numbers
  numbers-results_of f [] h = refl
  numbers-results_of f (n ∷ ns) h =
      ap (λ x. x ∷ numbers (results_of v k f ns)) (h n) ∙ ap (◌∷◌ n) (numbers-results_of f ns h)

  first_error-results_of :
      (f : ℕ → BlockResult) (ns : List ℕ)
      → ((n : ℕ) → (f n).error ≡ none)
      → first_error v k (results_of v k f ns) ≡ none
  unfolding results_of first_error
  first_error-results_of f [] h = refl
  first_error-results_of f (n ∷ ns) h = rw (first_error, h n) (first_error-results_of f ns h)

  module _ (c : BitcoinConfig) (resolve : ℕ → ℕ → Option (BtcTransaction v)) where
    get_block_number :
        (node : ℕ → Option (BtcBlock v)) (n : ℕ) → (get_block v k c resolve node n).number ≡ n
    unfolding get_block
    get_block_number node n = elim (Option-cases (node n)) [
      | inl missing ↦ rw (get_block, missing) refl
      | inr (b, given) ↦ rw (get_block, given) refl
    ]

    get_block_error :
        (node : ℕ → Option (BtcBlock v)) (n : ℕ) {b : BtcBlock v}
        → node n ≡ some b
        → (get_block v k c resolve node n).error ≡ none
    unfolding get_block
    get_block_error node n given = rw (get_block, given) refl

    -- The client of the workers: what the node gives in call `call`, and the head that it tells.
    unfoldable pub bitcoin_client : Option ℕ → (ℕ → ℕ → Option (BtcBlock v)) → Client
    bitcoin_client head node = record {
      head = head;
      blocks = λ call from to. answer_of (get_blocks v k c resolve (node call) from to);
      cancelled = λ call. false;
    }

    -- When the node gives every block and there is a worker, the Bitcoin client is one that
    -- answers for exactly the blocks it is asked for, in order, as the catchup worker wants it.
    pub bitcoin_client-IsAnswering :
        (head : Option ℕ) (node : ℕ → ℕ → Option (BtcBlock v))
        → 0 < c.concurrency
        → ((call n : ℕ) → (b : BtcBlock v) × (node call n ≡ some b))
        → IsAnswering (bitcoin_client head node)
    unfolding bitcoin_client get_blocks get_blocks_by_numbers
    bitcoin_client-IsAnswering head node running gives =
        let works : (c.concurrency == 0) ≡ false = ground arith in
        record {
          runs = λ call. refl;
          answers = λ call from to.
              let ns = span from (suc to) in
              let f = get_block v k c resolve (node call) in
              let clean : first_error v k (results_of v k f ns) ≡ none =
                first_error-results_of f ns (λ n. get_block_error (node call) n (gives call n).1) in
              (
                results_of v k f ns,
                rw (works, clean) refl,
                numbers-results_of f ns (get_block_number (node call)),
              );
        }
