-- ===== src/Payments/Redeliveries.antt =====
-- backend/internal/workers/b2b_sui_treasury_worker.go counts its attempts by delivery tag, and the
-- broker gives a message that comes back a new tag, here the next one.
use linq_b2b.Prelude.{
  ℕ, suc, ◌≤◌, ◌≡◌, refl, sym, ap, ◌∙◌, subst, arith, inl, inr, Bool, List, [], ◌∷◌, none, some,
  Bool-cases, All,
}
use linq_b2b.Payments.{Outside, OrderMessage, State}
use linq_b2b.Payments.Orders.{
  Reply, requeued, SweepError, no_pending_order, lookup_failed, Sweep, linked_wallet, fails,
  execute_sweep, Treasury, set_attempts, note_emptied, after_sweep, process_sweep_delivery,
}

module _ (o : Outside) where
  -- The deliveries of a message that comes back each time: what each of them meets, and the replies.
  unfoldable pub redeliver :
      Bool → List Sweep → ℕ → OrderMessage o → Treasury o → List Reply × Treasury o
  redeliver dlq_fails [] tag msg t = ([], t)
  redeliver dlq_fails (w ∷ ws) tag msg t =
      let now = process_sweep_delivery o dlq_fails w tag (some msg) t in
      let rest = redeliver dlq_fails ws (suc tag) msg now.1 in (now.0 ∷ rest.0, rest.1)

  -- The map holds no tag from `tag` on.
  abbrev pub IsUnused : ℕ → (ℕ → ℕ) → Type 0
  IsUnused tag attempts = (n : ℕ) → tag ≤ n → attempts n ≡ 0

  -- One delivery is given back to the queue.
  pub record GivenBack (tag : ℕ) (t : Treasury o) (after : Reply × Treasury o) : Type 0 where
    pub reply : after.0 ≡ requeued
    pub dead : after.1.dead ≡ t.dead
    pub tables : after.1.tables ≡ t.tables
    pub emptied : after.1.emptied ≡ t.emptied
    pub unused : IsUnused (suc tag) after.1.attempts

  after_sweep-GivenBack :
      (dlq_fails : Bool) (tag id : ℕ) (e : SweepError) (t : Treasury o)
      → IsUnused tag t.attempts
      → GivenBack tag t (after_sweep o dlq_fails tag id (fails o t.tables e) t)
  unfolding after_sweep fails set_attempts note_emptied
  after_sweep-GivenBack dlq_fails tag id e t unused =
      let first : t.attempts tag ≡ 0 = unused tag (omega arith) in
      rw (after_sweep, first)
        (record {
          reply = refl;
          dead = refl;
          tables = refl;
          emptied = refl;
          unused = λ n h. ground (arith, unused n (omega arith));
        })

  unlinked_sweep :
      (w : Sweep) (id : ℕ) (s : State o)
      → linked_wallet o id s ≡ none
      → (e : SweepError) × (execute_sweep o w id s ≡ fails o s e)
  unfolding execute_sweep
  unlinked_sweep w id s h = elim (Bool-cases w.lookup_fails) [
    | inl down ↦ (lookup_failed, rw (execute_sweep, down) refl)
    | inr up ↦ (no_pending_order, rw (execute_sweep, up, h) refl)
  ]

  one_delivery :
      (dlq_fails : Bool) (w : Sweep) (tag : ℕ) (msg : OrderMessage o) (t : Treasury o)
      → linked_wallet o msg.order_id t.tables ≡ none
      → IsUnused tag t.attempts
      → GivenBack tag t (process_sweep_delivery o dlq_fails w tag (some msg) t)
  unfolding process_sweep_delivery
  one_delivery dlq_fails w tag msg t h unused =
      let (e, failed) = unlinked_sweep w msg.order_id t.tables h in
      subst (λ r. GivenBack tag t (after_sweep o dlq_fails tag msg.order_id r t)) (sym failed)
        (after_sweep-GivenBack dlq_fails tag msg.order_id e t unused)

  -- An order without a linked pending order, delivered any number of times under a new tag each
  -- time, is given back to the queue each time, whatever else its sweeps meet; it is never sent to
  -- the dead letters.
  pub redeliver_never_ends :
      (dlq_fails : Bool) (ws : List Sweep) (tag : ℕ) (msg : OrderMessage o) (t : Treasury o)
      → linked_wallet o msg.order_id t.tables ≡ none
      → IsUnused tag t.attempts
      → let run = redeliver dlq_fails ws tag msg t in
        All (λ r. r ≡ requeued) run.0 × (run.1.dead ≡ t.dead) × (run.1.tables ≡ t.tables)
  unfolding redeliver
  redeliver_never_ends dlq_fails [] tag msg t h unused = (tt, refl, refl)
  redeliver_never_ends dlq_fails (w ∷ ws) tag msg t h unused =
      let once = one_delivery dlq_fails w tag msg t h unused in
      let now = process_sweep_delivery o dlq_fails w tag (some msg) t in
      let unlinked : linked_wallet o msg.order_id now.1.tables ≡ none =
        ap (linked_wallet o msg.order_id) once.tables ∙ h in
      let (replies, dead, tables) =
        redeliver_never_ends dlq_fails ws (suc tag) msg now.1 unlinked once.unused in
      ((once.reply, replies), dead ∙ once.dead, tables ∙ once.tables)
