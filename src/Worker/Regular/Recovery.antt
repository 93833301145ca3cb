-- ===== src/Worker/Regular/Recovery.antt =====
-- The single-block recovery of indexer/internal/worker/regular.go.
use linq_b2b.Prelude.{
  ℕ, zero, suc, Bool, true, false, not, ◌||◌, Option, none, some, String, str_eq, ◌==◌,
  if◌then◌else◌, add64,
}
use linq_b2b.Chain.{Block, unknown, BlockResult}
use linq_b2b.Worker.{Config, handle_block_result}
use linq_b2b.Worker.Regular.{Regular, Answers, TickError, recover_block, regular_gap_retry_attempts}
use linq_b2b.Worker.Regular.Reorg.{detect_and_handle_reorg}

-- How the part of a tick that handles blocks ends: `stop` is `stopTick`.
pub record Outcome : Type 0 where
  pub stop : Bool
  pub error : Option TickError
  pub last_success : ℕ
  pub last_success_hash : String
  pub worker : Regular

abbrev pub handled : Config → BlockResult → Regular → Bool × Regular
handled c r w = let (done, b) = handle_block_result c r w.base in (done, record w { base = b })

-- The link to the block handled before: `lastSuccessHash` is empty or the parent hash.
abbrev pub is_linked : String → Block → Bool
is_linked last_hash block = str_eq last_hash "" || str_eq last_hash block.parent_hash

pub data Recovery : Type 0 where
  recovered : ℕ → String → Recovery
  reorg_handled failed : Recovery

abbrev pub result_of : ℕ → Block → BlockResult
result_of number block = record { number = number; block = some block; error = none }

-- One answer of fetchRegularBlock, checked and handled. `none` asks for another attempt.
unfoldable pub recover_attempt :
    Config → ℕ → String → Option (Option Block) → Regular → Option Recovery × Regular
recover_attempt c number last_hash none w = (none, w)
recover_attempt c number last_hash (some none) w = (none, w)
recover_attempt c number last_hash (some (some block)) w =
    let check = detect_and_handle_reorg c block w in
    elim check.error [
      | some _ ↦ (some failed, check.worker)
      | none ↦
          if check.reorg
          then (some reorg_handled, check.worker)
          else if not (is_linked last_hash block)
          then (none, check.worker)
          else let (done, w') = handled c (result_of number block) check.worker in
            if done then (some (recovered number block.hash), w') else (none, w')
    ]

-- `left` attempts are to be made; attempts count from 1.
unfoldable pub recover_regular_block :
    Config → Answers → ℕ → ℕ → ℕ → String → Regular → Recovery × Regular
unfolding recover_attempt
recover_regular_block c a zero attempt number last_hash w = (failed, w)
recover_regular_block c a (suc left) attempt number last_hash w =
    let (done, w') = recover_attempt c number last_hash (a.block number attempt) w in
    let more = recover_regular_block c a left (suc attempt) number last_hash w' in
    elim done [
      | some r ↦ (r, w')
      | none ↦ if left == 0 || a.stopped number attempt then (failed, w') else more
    ]

-- The error result that recoverRegularGap reports for a block.
abbrev pub gap_error : ℕ → BlockResult
gap_error number = record {
  number = number;
  block = none;
  error = some (record { error_type = unknown });
}

-- `count` blocks from `number` on.
unfoldable pub recover_regular_gap : Config → Answers → ℕ → ℕ → ℕ → String → Regular → Outcome
unfolding recover_regular_block
recover_regular_gap c a zero number last last_hash w = record {
  stop = false;
  error = none;
  last_success = last;
  last_success_hash = last_hash;
  worker = w;
}
recover_regular_gap c a (suc count) number last last_hash w =
    let (r, w') = recover_regular_block c a regular_gap_retry_attempts 1 number last_hash w in
    elim r [
      | recovered n hash ↦ recover_regular_gap c a count (add64 number 1) n hash w'
      | reorg_handled ↦ record {
        stop = true;
        error = none;
        last_success = last;
        last_success_hash = last_hash;
        worker = w';
      }
      | failed ↦ record {
        stop = false;
        error = some (recover_block number);
        last_success = last;
        last_success_hash = last_hash;
        worker = (handled c (gap_error number) w').1;
      }
    ]
