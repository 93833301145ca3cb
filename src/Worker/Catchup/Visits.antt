-- ===== src/Worker/Catchup/Visits.antt =====
-- A catchup run of indexer/internal/worker/catchup.go visits every block of its range.
pub mod Batches
use linq_b2b.Prelude.{
  ℕ, zero, suc, ◌+◌, ◌-◌, ◌≤◌, ◌<◌, ◌≡◌, refl, sym, ap, ◌∙◌, subst, min, true, false, not, ◌&&◌,
  ◌||◌, List, [], ◌∷◌, ◌++◌, Option, none, some, arith, ltb, leb, contains, contains-append,
  contains-span, span, seq, All, add64, sub64, add64_exact, sub64_exact, u64_mod, inl, inr, ◌⊎◌,
  Bool-cases, append_assoc, append-nil,
}
use linq_b2b.Ranges.{CatchupRange}
use linq_b2b.Ranges.Partition.{IsRange}
use linq_b2b.Ranges.Pending.{pends}
use linq_b2b.Chain.{Error, Block, BlockResult}
use linq_b2b.Store.{save_failed_block}
use linq_b2b.Worker.{
  Config, Base, BlockStatus, status_of, push_failed, emit_block, notify_observer, handle_parts,
  handle_block_result,
}
use linq_b2b.Worker.Results.{emit_block-EmitsOnly}
use linq_b2b.Worker.Catchup.{
  Catchup, Client, RangeEnd, completed, Round, goes_on, is_skipped_slot, catch_up_result,
  catch_up_results, save_progress, after_batch, batch_end, catchup_round, catchup_loop,
  complete_range, close_range, process_range,
}
use linq_b2b.Worker.Catchup.Visits.Batches.{
  seen, numbers, IsAnswering, span-bound, seen-catch_up_results, best-catch_up_results,
}

module _ (c : Config) (watching : c.has_observer ≡ true) (a : Client) (answering : IsAnswering a)
    (r : CatchupRange) (size : 0 < c.batch_size) (room : r.end + c.batch_size < u64_mod) where
  batch_end_bounds :
      (current : ℕ)
      → current ≤ r.end
      → (current ≤ batch_end c r current) × (batch_end c r current ≤ r.end)
  batch_end_bounds current h =
      ground (arith, add64_exact current c.batch_size, sub64_exact (current + c.batch_size) 1)

  -- A round moves on, over blocks that it visits.
  record Moves (current : ℕ) (b : Base) (p : Round) : Type 0 where
    next : ℕ
    last : ℕ
    after : Base
    limit : ℕ
    moved : p ≡ goes_on next last after
    forward : current < next
    within : next ≤ suc limit
    bounded : limit ≤ r.end
    visited : seen after.observed ≡ seen b.observed ++ span current (suc limit)

  after_batch-Moves :
      (current last best : ℕ) (b b' : Base)
      → current ≤ r.end
      → best ≤ batch_end c r current
      → seen b'.observed ≡ seen b.observed ++ span current (suc (batch_end c r current))
      → Moves current b (after_batch c r current last (best, b'))
  unfolding after_batch save_progress
  after_batch-Moves current last best b b' h k v =
      let (low, high) = batch_end_bounds current h in
      elim (Bool-cases (leb current best)) [
        | inl grows ↦ rw grows (record {
          next = add64 best 1;
          last = best;
          after = save_progress c r (min best r.end) b';
          limit = batch_end c r current;
          moved = refl;
          forward = ground (arith, grows, add64_exact best 1);
          within = ground (arith, add64_exact best 1);
          bounded = high;
          visited = v;
        })
        | inr stays ↦ rw stays (record {
          next = add64 (batch_end c r current) 1;
          last = last;
          after = save_progress c r (min last r.end) b';
          limit = batch_end c r current;
          moved = refl;
          forward = ground (arith, low, add64_exact (batch_end c r current) 1);
          within = ground (arith, high, add64_exact (batch_end c r current) 1);
          bounded = high;
          visited = v;
        })
      ]

  catchup_round_answered :
      (k current last : ℕ) (b : Base) (rs : List BlockResult)
      → a.blocks k current (batch_end c r current) ≡ some rs
      → catchup_round c a r k current last b
        ≡ after_batch c r current last (catch_up_results c rs (sub64 current 1) b)
  unfolding catchup_round
  catchup_round_answered k current last b rs e = rw (answering.runs k, e) refl

  catchup_round-Moves :
      (k current last : ℕ) (b : Base)
      → 0 < current
      → current ≤ r.end
      → Moves current b (catchup_round c a r k current last b)
  catchup_round-Moves k current last b pos h =
      let e = batch_end c r current in
      let (low, high) = batch_end_bounds current h in
      let (rs, ans, are) = answering.answers k current e in
      let p = catch_up_results c rs (sub64 current 1) b in
      let bound : All (λ n. n ≤ e) (numbers rs) =
        subst (λ ns. All (λ n. n ≤ e) ns) (sym are) (span-bound current (suc e) e (omega arith)) in
      let reach =
        best-catch_up_results c watching rs (sub64 current 1) e b
          (ground (arith, low, sub64_exact current 1)) bound in
      subst (Moves current b) (sym (catchup_round_answered k current last b rs ans)) (
        after_batch-Moves current last p.0 b p.1 h reach.1 (
          seen-catch_up_results c watching rs (sub64 current 1) b
          ∙ ap (λ l. seen b.observed ++ l) are))

  -- A run of the loop that ends, and what it has visited.
  record Visits (current : ℕ) (b : Base) (p : RangeEnd × Base) : Type 0 where
    finished : p.0 ≡ completed
    visited :
        (n : ℕ)
        → (leb current n && leb n r.end || contains n (seen b.observed)) ≡ true
        → contains n (seen p.1.observed) ≡ true

  loop_over :
      (fuel k current last : ℕ) (b : Base)
      → ltb r.end current ≡ true
      → catchup_loop (suc fuel) c a r k current last b
        ≡ (completed, save_progress c r (min last r.end) b)
  unfolding catchup_loop
  loop_over fuel k current last b e = rw (e, catchup_loop) refl

  loop_goes_on :
      (fuel k current last next last' : ℕ) (b b' : Base)
      → ltb r.end current ≡ false
      → catchup_round c a r k current last b ≡ goes_on next last' b'
      → catchup_loop (suc fuel) c a r k current last b
        ≡ catchup_loop fuel c a r (suc k) next last' b'
  unfolding catchup_loop
  loop_goes_on fuel k current last next last' b b' e f = rw (e, f, catchup_loop) refl

  moved_visits :
      (current n : ℕ) (b : Base) {p : Round} (m : Moves current b p)
      → (leb current n && leb n r.end || contains n (seen b.observed)) ≡ true
      → (leb m.next n && leb n r.end || contains n (seen m.after.observed)) ≡ true
  moved_visits current n b m h =
      let now =
        ap (contains n) m.visited
        ∙ contains-append n (seen b.observed) (span current (suc m.limit))
        ∙ ap (λ t. contains n (seen b.observed) || t) (contains-span n current (suc m.limit)) in
      ground (arith, h, now, m.within, m.bounded)

  catchup_loop-Visits :
      (fuel k current last : ℕ) (b : Base)
      → 0 < current
      → suc r.end < current + fuel
      → current ≤ suc r.end
      → Visits current b (catchup_loop fuel c a r k current last b)
  unfolding save_progress
  catchup_loop-Visits zero k current last b pos enough low = ground arith
  catchup_loop-Visits (suc fuel) k current last b pos enough low =
      elim (Bool-cases (ltb r.end current)) [
        | inl over ↦
            subst (Visits current b) (sym (loop_over fuel k current last b over))
              (record { finished = refl; visited = λ n h. saved n last (ground (arith, over, h)) })
        | inr more ↦
            let m = catchup_round-Moves k current last b pos (ground (arith, more)) in
            let rest =
              catchup_loop-Visits fuel (suc k) m.next m.last m.after (omega (arith, m.forward))
                (omega (arith, m.forward, enough)) (omega (arith, m.within, m.bounded)) in
            subst (Visits current b)
              (sym (loop_goes_on fuel k current last m.next m.last b m.after more m.moved))
              (record {
                finished = rest.finished;
                visited = λ n h. rest.visited n (moved_visits current n b m h);
              })
      ]
    where
      saved :
          (n last : ℕ)
          → contains n (seen b.observed) ≡ true
          → contains n (seen (save_progress c r (min last r.end) b).observed) ≡ true
      saved n last e = e

  process_range_runs :
      (fuel : ℕ) (w : Catchup)
      → ltb r.end (add64 r.current 1) ≡ false
      → process_range fuel c a r w
        ≡ close_range c r w.block_ranges
            (catchup_loop fuel c a r 0 (add64 r.current 1) (sub64 (add64 r.current 1) 1) w.base)
  unfolding process_range
  process_range_runs fuel w e = rw (e, process_range) refl

  process_range_done :
      (fuel : ℕ) (w : Catchup)
      → ltb r.end (add64 r.current 1) ≡ true
      → (process_range fuel c a r w).0 ≡ completed
  unfolding process_range
  process_range_done fuel w e = ground (arith, e)

  close_range_completed :
      (ranges : List CatchupRange) (p : RangeEnd × Base)
      → p.0 ≡ completed
      → ((close_range c r ranges p).0 ≡ completed)
        × ((close_range c r ranges p).1.observed ≡ p.1.observed)
  unfolding close_range complete_range
  close_range_completed ranges (completed, b) e = (refl, refl)
  close_range_completed ranges (RangeEnd.stopped, b) e = (e, refl)
  close_range_completed ranges (RangeEnd.out_of_fuel, b) e = (e, refl)

  -- With an observer, a positive batch size and below 2^64: when the client is not stopped and
  -- answers for exactly the blocks it is asked for, the run over a well-formed range ends, within as
  -- many rounds as the range has blocks and two more, and every block of the range that was to be
  -- done has been handled.
  pub process_range_visits :
      IsRange r
      → (w : Catchup)
      → let (e, w') = process_range (suc (suc (suc r.end - r.start))) c a r w in
        (e ≡ completed) × ((n : ℕ) → (not (pends n r) || contains n (seen w'.observed)) ≡ true)
  process_range_visits v w =
      let fuel = suc (suc (suc r.end - r.start)) in
      let current : add64 r.current 1 ≡ suc r.current =
        ground (arith, add64_exact r.current 1, v.progress_high, size, room) in
      elim (Bool-cases (ltb r.end (add64 r.current 1))) [
        | inl over ↦
            let p = process_range_done fuel w over in (p, λ n. ground (arith, over, current))
        | inr more ↦
            let run =
              catchup_loop-Visits fuel 0 (add64 r.current 1) (sub64 (add64 r.current 1) 1) w.base
                (omega (arith, current)) (omega (arith, current, v.progress_low, v.ordered))
                (omega (arith, current, v.progress_high)) in
            let (ends, kept) = close_range_completed w.block_ranges _ run.finished in
            let e = process_range_runs fuel w more in
            (
              ap (λ p. p.0) e ∙ ends,
              λ n. elim (Bool-cases (pends n r)) [
                | inr done ↦ ground (arith, done)
                | inl todo ↦
                    let there =
                      ap (λ p. contains n (seen p.1.observed)) e
                      ∙ ap (λ o. contains n (seen o)) kept
                      ∙ run.visited n (ground (arith, todo, current)) in
                    ground (arith, there)
              ],
            )
      ]
