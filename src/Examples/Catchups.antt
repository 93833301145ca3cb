-- ===== src/Examples/Catchups.antt =====
-- The theorem on catchup at a range of seven blocks.
use linq_b2b.Prelude.{
  ℕ, suc, ◌≡◌, refl, ap, true, not, ◌||◌, List, [], ◌∷◌, some, none, false, arith, contains, span,
}
use linq_b2b.Chain.{BlockResult}
use linq_b2b.Ranges.Pending.{pends}
use linq_b2b.Examples.{seven_blocks, eth, idle, block_101}
use linq_b2b.Worker.Catchup.{Catchup, Client, completed, process_range}
use linq_b2b.Worker.Catchup.Visits.Batches.{seen, numbers, IsAnswering}
use linq_b2b.Worker.Catchup.Visits.{process_range_visits}

abbrev results_of : List ℕ → List BlockResult
results_of [] = []
results_of (n ∷ ns) = record { number = n; block = some block_101; error = none } ∷ results_of ns

numbers-results_of : (ns : List ℕ) → numbers (results_of ns) ≡ ns
unfolding numbers
numbers-results_of [] = refl
numbers-results_of (n ∷ ns) = ap (◌∷◌ n) (numbers-results_of ns)

abbrev patient : Client
patient = record {
  head = some 200;
  blocks = λ k from to. some (results_of (span from (suc to)));
  cancelled = λ k. false;
}

patient-IsAnswering : IsAnswering patient
patient-IsAnswering = record {
  runs = λ k. refl;
  answers =
      λ k from to. (results_of (span from (suc to)), refl, numbers-results_of (span from (suc to)));
}

abbrev waiting : Catchup
waiting = record { base = idle; block_ranges = seven_blocks ∷ [] }

process_range_visits_example :
    let (e, w) = process_range 9 eth patient seven_blocks waiting in
    (e ≡ completed)
    × ((n : ℕ) → (not (pends n seven_blocks) || contains n (seen w.observed)) ≡ true)
process_range_visits_example =
    process_range_visits eth refl patient patient-IsAnswering seven_blocks (omega arith)
      (omega arith)
      (record {
        positive = omega arith;
        ordered = omega arith;
        progress_low = omega arith;
        progress_high = omega arith;
      })
      waiting
