-- ===== src/Examples/Queues.antt =====
-- The theorems on the queue of missing blocks and on the manual worker at a concrete queue.
use linq_b2b.Prelude.{ℕ, ◌≡◌, true, List, [], ◌∷◌, Option, none, some, arith}
use linq_b2b.Examples.{idle, good_result, bad_result}
use linq_b2b.Texts.{codes}
use linq_b2b.MissingBlocks.{BlockRange, Queue, get_next_range, add_missing_block_range}
use linq_b2b.MissingBlocks.Lists.{list_set, function_keys, doubles}
use linq_b2b.MissingBlocks.Queues.{IsQueue}
use linq_b2b.MissingBlocks.Merging.{Added, add_missing_block_range_adds}
use linq_b2b.MissingBlocks.Claims.{HoldsRanges, Next, get_next_range_claims}
use linq_b2b.Worker.Manual.{Visit, Manual}
use linq_b2b.Store.Keys.{extract_range_from_key, catchup_key, extract_range_from_key-catchup_key}

abbrev low : BlockRange
low = record { start_block = 10; end_block = 14 }

abbrev high : BlockRange
high = record { start_block = 20; end_block = 21 }

abbrev two_ranges : List BlockRange × (BlockRange → ℕ)
two_ranges = (low ∷ high ∷ [], λ x. x.start_block)

two_ranges-IsQueue : IsQueue list_set two_ranges
two_ranges-IsQueue x m = ground arith

add_missing_block_range_adds_example :
    (after : List BlockRange × (BlockRange → ℕ)) × (add_missing_block_range doubles list_set true 15
        22 two_ranges
      ≡ some (true, after))
    × Added doubles list_set true 15 22 two_ranges after
add_missing_block_range_adds_example =
    add_missing_block_range_adds doubles list_set true 15 22 two_ranges (omega arith)
      two_ranges-IsQueue

abbrev no_locks : BlockRange → Option ℕ
no_locks x = none

abbrev waiting : Queue list_set function_keys function_keys
waiting = record { ranges = two_ranges; locks = no_locks; processed = no_locks }

two_ranges-HoldsRanges : HoldsRanges list_set function_keys function_keys two_ranges
two_ranges-HoldsRanges x m = ground arith

get_next_range_claims_example :
    Next list_set function_keys function_keys waiting
      (get_next_range list_set function_keys function_keys true waiting)
get_next_range_claims_example =
    get_next_range_claims list_set function_keys function_keys waiting two_ranges-HoldsRanges

extract_range_from_key-catchup_key_example :
    extract_range_from_key (catchup_key (codes "ETH") 10 16) ≡ (10, 16)
extract_range_from_key-catchup_key_example =
    extract_range_from_key-catchup_key (codes "ETH") 10 16 (omega arith) (omega arith)

abbrev halves : Manual list_set function_keys function_keys
halves = record { base = idle; queue = waiting; empty_attempts = 0 }

abbrev at_101 : BlockRange
at_101 = record { start_block = 101; end_block = 102 }

abbrev visit : Visit
visit = record {
  next_up = true;
  progress_up = true;
  remove_up = true;
  blocks = λ a b. some (good_result ∷ bad_result ∷ []);
}
