-- ===== src/Worker/Regular/Gaps/Recoveries.antt =====
-- The single-block recovery of indexer/internal/worker/regular.go goes on without a gap.
use linq_b2b.Prelude.{
  ℕ, zero, suc, ◌+◌, ◌-◌, ◌≤◌, ◌<◌, ◌≡◌, refl, sym, ap, ◌∙◌, Bool, true, false, [], ◌∷◌, ◌++◌,
  Option, none, some, String, arith, span, span-append, span-empty, span-one, subst, append-nil,
  append_assoc, add64, inl, inr, ◌⊎◌, u64_mod, add64_exact,
}
use linq_b2b.Worker.{Config}
use linq_b2b.Worker.Regular.{Regular, Answers, TickError, recover_block, regular_gap_retry_attempts}
use linq_b2b.Worker.Regular.Recovery.{
  Outcome, handled, Recovery, recovered, reorg_handled, failed, recover_regular_block, gap_error,
  recover_regular_gap,
}
use linq_b2b.Worker.Regular.Attempts.{trace, handled_gap, BlockOf, recover_regular_block-BlockOf}
use linq_b2b.Worker.Regular.Tick.{recover_rest}

module _ (c : Config) (watching : c.has_observer ≡ true) where
  -- The blocks behind `last` are processed in order, none left out, up to the outcome's last one;
  -- the cursor stays, but on a reorg that was handled.
  pub record Continues (last limit : ℕ) (w : Regular) (o : Outcome) : Type 0 where
    pub grows : last ≤ o.last_success
    pub within : o.last_success ≤ limit
    pub traced : trace o.worker ≡ trace w ++ span (suc last) (suc o.last_success)
    pub cursor :
        ((o.stop ≡ true) × (o.worker.block_hashes ≡ []))
        ⊎ ((o.stop ≡ false) × (o.worker.current_block ≡ w.current_block))

  pub Continues-end :
      (stop : Bool) (e : Option TickError) (last limit : ℕ) (hash : String) (w w' : Regular)
      → last ≤ limit
      → trace w' ≡ trace w
      → ((stop ≡ true) × (w'.block_hashes ≡ []))
        ⊎ ((stop ≡ false) × (w'.current_block ≡ w.current_block))
      → Continues last limit w (record {
        stop = stop;
        error = e;
        last_success = last;
        last_success_hash = hash;
        worker = w';
      })
  Continues-end stop e last limit hash w w' h t k = record {
    grows = omega arith;
    within = h;
    traced =
        t
        ∙ sym (append-nil (trace w))
        ∙ ap (λ l. trace w ++ l) (sym (span-empty (suc last) (suc last) (omega arith)));
    cursor = k;
  }

  pub Continues-step :
      (last limit : ℕ) (w w' : Regular) (o : Outcome)
      → trace w' ≡ trace w ++ suc last ∷ []
      → w'.current_block ≡ w.current_block
      → Continues (suc last) limit w' o
      → Continues last limit w o
  Continues-step last limit w w' o t k v = record {
    grows = omega (arith, v.grows);
    within = v.within;
    traced =
        v.traced
        ∙ ap (λ l. l ++ span (suc (suc last)) (suc o.last_success))
            (t ∙ ap (λ l. trace w ++ l) (sym (span-one (suc last))))
        ∙ append_assoc (trace w) (span (suc last) (suc (suc last)))
            (span (suc (suc last)) (suc o.last_success))
        ∙ ap (λ l. trace w ++ l)
            (span-append (suc last) (suc (suc last)) (suc o.last_success) (omega arith)
              (omega (arith, v.grows)));
    cursor = ground (arith, v.cursor);
  }

  module _ (a : Answers) (limit : ℕ) (room : suc limit < u64_mod) where
    gap_step :
        (count number last : ℕ) (last_hash : String) (w : Regular) (p : Recovery × Regular)
        → number ≡ suc last
        → last + suc count ≤ limit
        → BlockOf c watching number w p
        → ((hash : String)
            → Continues
                (suc last)
                limit
                p.1
                (recover_regular_gap c a count (add64 number 1) number hash p.1))
        → Continues last limit w (elim p.0 [
          | recovered n hash ↦ recover_regular_gap c a count (add64 number 1) n hash p.1
          | reorg_handled ↦ record {
            stop = true;
            error = none;
            last_success = last;
            last_success_hash = last_hash;
            worker = p.1;
          }
          | failed ↦ record {
            stop = false;
            error = some (recover_block number);
            last_success = last;
            last_success_hash = last_hash;
            worker = (handled c (gap_error number) p.1).1;
          }
        ])
    gap_step count number last last_hash w (failed, w') e h idle next =
        let g = handled_gap c watching number w' in
        Continues-end false _ last limit last_hash w _ (omega arith)
          (g.trace_kept ∙ idle.trace_kept) (inr (refl, g.cursor_kept ∙ idle.cursor_kept))
    gap_step count number last last_hash w (reorg_handled, w') e h t next =
        Continues-end true none last limit last_hash w w' (omega arith) t.0 (inl (refl, t.1))
    gap_step count number last last_hash w (recovered n hash, w') e h b next =
        Continues-step last limit w w' _ (b.1 ∙ ap (λ k. trace w ++ k ∷ []) e) b.2 (
          subst
            (λ k.
              Continues (suc last) limit w'
                (recover_regular_gap c a count (add64 number 1) k hash w'))
            (sym b.0) (next hash))

    recover_regular_gap-Continues :
        (count number last : ℕ) (last_hash : String) (w : Regular)
        → number ≡ suc last
        → last + count ≤ limit
        → Continues last limit w (recover_regular_gap c a count number last last_hash w)
    unfolding recover_regular_gap
    recover_regular_gap-Continues zero number last last_hash w e h =
        Continues-end false none last limit last_hash w w (omega arith) refl (inr (refl, refl))
    recover_regular_gap-Continues (suc count) number last last_hash w e h =
        let p = recover_regular_block c a regular_gap_retry_attempts 1 number last_hash w in
        let next = λ (hash : String).
          recover_regular_gap-Continues count (add64 number 1) number hash p.1
            (ground (arith, add64_exact number 1)) (omega arith) in
        gap_step count number last last_hash w p e h
          (recover_regular_block-BlockOf c watching a regular_gap_retry_attempts 1 number last_hash
            w)
          (λ hash.
            subst
              (λ k.
                Continues k limit p.1
                  (recover_regular_gap c a count (add64 number 1) number hash p.1))
              e (next hash))

    -- The whole batch, from block `suc last` on.
    pub recover_rest-Continues :
        (expected last : ℕ) (last_hash : String) (w : Regular)
        → expected ≡ suc last
        → last ≤ limit
        → Continues last limit w (recover_rest c a limit expected last last_hash w)
    unfolding recover_rest
    recover_rest-Continues expected last last_hash w e h =
        recover_regular_gap-Continues (suc limit - expected) expected last last_hash w e
          (omega arith)
