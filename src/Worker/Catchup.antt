-- ===== src/Worker/Catchup.antt =====
-- indexer/internal/worker/catchup.go: the worker that does the ranges left behind by the regular
-- one. The pool of three goroutines is left out: a range is one run of processRange. Panics, the
-- log and the waiting between tries are left out.
pub mod Visits
use linq_b2b.Prelude.{
  ℕ, zero, suc, ◌-◌, min, Bool, true, false, not, ◌&&◌, ◌||◌, List, [], ◌∷◌, ◌++◌, Option, none,
  some, ltb, leb, ◌==◌, if◌then◌else◌, add64, sub64, map,
}
use linq_b2b.Ranges.{CatchupRange, split_catchup_range}
use linq_b2b.Chain.{NetworkType, sol, ErrorType, block_not_found, Error, BlockResult}
use linq_b2b.Store.{
  BlockStates, get_latest_block, get_catchup_progress, save_catchup_progress, save_catchup_ranges,
  delete_catchup_range,
}
use linq_b2b.Worker.{Config, Base, not_found, notify_observer, handle_block_result}

pub record Catchup : Type 0 where
  pub base : Base
  pub open base use *
  pub block_ranges : List CatchupRange

-- `blocks k` is what GetBlocks answers in round k of the loop, and `cancelled k` whether the context
-- is done at the start of that round.
pub record Client : Type 0 where
  pub head : Option ℕ
  pub blocks : ℕ → ℕ → ℕ → Option (List BlockResult)
  pub cancelled : ℕ → Bool

abbrev pub max_range_size : ℕ
max_range_size = 20

abbrev pub is_not_found : ErrorType → Bool
is_not_found block_not_found = true
is_not_found _ = false

abbrev pub is_sol : NetworkType → Bool
is_sol sol = true
is_sol _ = false

-- A slot in which Solana made no block.
unfoldable pub is_skipped_slot : Config → Option Error → Bool
is_skipped_slot c none = false
is_skipped_slot c (some e) = is_not_found e.error_type && is_sol c.network_type

-- One result of a batch: the largest number so far that is done with, and the worker after it.
unfoldable pub catch_up_result : Config → BlockResult → ℕ → Base → ℕ × Base
unfolding is_skipped_slot
catch_up_result c r best b =
    let (done, b') = handle_block_result c r b in
    let further = if ltb best r.number then r.number else best in
    if is_skipped_slot c r.error
    then (further, notify_observer c r.number not_found b)
    else (if done then further else best, b')

unfoldable pub catch_up_results : Config → List BlockResult → ℕ → Base → ℕ × Base
unfolding catch_up_result
catch_up_results c [] best b = (best, b)
catch_up_results c (r ∷ rs) best b =
    let (best', b') = catch_up_result c r best b in catch_up_results c rs best' b'

abbrev pub on_store : (BlockStates → BlockStates) → Base → Base
on_store g b = record b { store = g b.store }

unfoldable pub save_progress : Config → CatchupRange → ℕ → Base → Base
save_progress c r current =
    on_store (λ s. (save_catchup_progress c.internal_code (record r { current = current }) s).1)

unfoldable pub without_range : CatchupRange → List CatchupRange → List CatchupRange
without_range r [] = []
without_range r (q ∷ qs) =
    if q.start == r.start && q.end == r.end then qs else q ∷ without_range r qs

unfoldable pub complete_range : Config → CatchupRange → Catchup → Catchup
unfolding without_range
complete_range c r w = record {
  base = on_store (λ s. (delete_catchup_range c.internal_code r.start r.end s).1) w.base;
  block_ranges = without_range r w.block_ranges;
}

pub data RangeEnd : Type 0 where
  completed stopped out_of_fuel : RangeEnd

-- One round of the loop: the loop is over, or goes on with `current` and `lastSuccess`.
pub data Round : Type 0 where
  cancels : Round
  goes_on : ℕ → ℕ → Base → Round

abbrev pub batch_end : Config → CatchupRange → ℕ → ℕ
batch_end c r current = min (sub64 (add64 current c.batch_size) 1) r.end

-- After a batch whose largest success is `best`.
unfoldable pub after_batch : Config → CatchupRange → ℕ → ℕ → ℕ × Base → Round
unfolding save_progress
after_batch c r current last (best, b) =
    if leb current best
    then goes_on (add64 best 1) best (save_progress c r (min best r.end) b)
    else goes_on (add64 (batch_end c r current) 1) last (save_progress c r (min last r.end) b)

unfoldable pub catchup_round : Config → Client → CatchupRange → ℕ → ℕ → ℕ → Base → Round
unfolding after_batch catch_up_results
catchup_round c a r k current last b =
    if a.cancelled k then cancels else elim (a.blocks k current (batch_end c r current)) [
      | none ↦ goes_on current last b
      | some results ↦ after_batch c r current last (catch_up_results c results (sub64 current 1) b)
    ]

unfoldable pub catchup_loop :
    ℕ → Config → Client → CatchupRange → ℕ → ℕ → ℕ → Base → RangeEnd × Base
unfolding save_progress catchup_round
catchup_loop zero c a r k current last b = (out_of_fuel, b)
catchup_loop (suc fuel) c a r k current last b = elim (ltb r.end current) [
  | true ↦ (completed, save_progress c r (min last r.end) b)
  | false ↦ elim (catchup_round c a r k current last b) [
    | cancels ↦ (stopped, save_progress c r last b)
    | goes_on current' last' b' ↦ catchup_loop fuel c a r (suc k) current' last' b'
  ]
]

unfoldable pub close_range :
    Config → CatchupRange → List CatchupRange → RangeEnd × Base → RangeEnd × Catchup
unfolding complete_range
close_range c r ranges (completed, b) =
    (completed, complete_range c r (record { base = b; block_ranges = ranges }))
close_range c r ranges (stopped, b) = (stopped, record { base = b; block_ranges = ranges })
close_range c r ranges (out_of_fuel, b) = (out_of_fuel, record { base = b; block_ranges = ranges })

unfoldable pub process_range : ℕ → Config → Client → CatchupRange → Catchup → RangeEnd × Catchup
unfolding complete_range catchup_loop close_range
process_range fuel c a r w =
    let current = add64 r.current 1 in
    if ltb r.end current
    then (completed, complete_range c r w)
    else close_range c r w.block_ranges (catchup_loop fuel c a r 0 current (sub64 current 1) w.base)

-- The ranges in the store, or else the blocks between the stored latest block and the head, split
-- and saved. `none` stands for a split that ran out of fuel.
unfoldable pub new_ranges : Config → Client → BlockStates → List CatchupRange × BlockStates
new_ranges c a s =
    let (latest, s') = get_latest_block s in
    elim latest [
      | none ↦ ([], s')
      | some n ↦ elim a.head [
        | none ↦ ([], s')
        | some h ↦
            if not (ltb n h)
            then ([], s')
            else elim (split_catchup_range
                (record { start = add64 n 1; end = h; current = sub64 (add64 n 1) 1 })
                max_range_size) [
                  | none ↦ ([], s')
                  | some rs ↦ (rs, (save_catchup_ranges c.internal_code rs s').1)
                ]
      ]
    ]

unfoldable pub or_none {ℓ} : {A : Type ℓ} → Option (List A) → List A
or_none none = []
or_none (some xs) = xs

abbrev pub is_nil {ℓ} : {A : Type ℓ} → List A → Bool
is_nil [] = true
is_nil (x ∷ xs) = false

unfoldable pub load_catchup_progress :
    Config → Client → BlockStates → List CatchupRange × BlockStates
unfolding new_ranges or_none
load_catchup_progress c a s =
    let (progress, s') = get_catchup_progress c.internal_code s in
    let found = or_none progress in if is_nil found then new_ranges c a s' else (found, s')

unfoldable pub close : Config → Catchup → Catchup
close c w =
    if is_nil w.block_ranges
    then w
    else let capped =
        map {A = CatchupRange} {B = CatchupRange} (λ r. record r { current = min r.current r.end })
          w.block_ranges in
      record w { base = on_store (λ s. (save_catchup_ranges c.internal_code capped s).1) w.base }
