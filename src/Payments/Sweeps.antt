-- ===== src/Payments/Sweeps.antt =====
-- What the workers of backend/internal/workers/ do with an order.
use linq_b2b.Prelude.{
  ℕ, ◌≡◌, refl, arith, inl, inr, ◌⊎◌, Bool, true, false, List, [], ◌∷◌, Option, none, some, String,
  ◌==◌, if◌then◌else◌, Bool-cases, Option-cases, length,
}
use linq_b2b.Texts.{Bytes, codes}
use linq_b2b.Payments.{Outside, Payload, Deposit, State}
use linq_b2b.Payments.Chains.{
  ChainType, sui, solana, base, other, parse_chain, route_to_chain_queue,
}
use linq_b2b.Payments.Receive.{
  Faults, Authentication, refused, authentic, accept, check_payload, order_of,
}
use linq_b2b.Payments.Orders.{
  acked, requeued, SweepError, update_failed, Sweep, process_order_delivery, linked_wallet,
  mark_swept, Swept, fails, transfer_coins, execute_sweep,
}

-- Every chain that parse_chain gives has a queue.
parse_chain-routes :
    (id : Bytes) (c : ChainType)
    → parse_chain id ≡ some c
    → (queue : String) × (route_to_chain_queue c ≡ some queue)
unfolding route_to_chain_queue parse_chain
parse_chain-routes id sui e = (_, refl)
parse_chain-routes id solana e = (_, refl)
parse_chain-routes id base e = (_, refl)
parse_chain-routes id (other name) e = absurd (ground (arith, e))

module _ (o : Outside) where
  check_payload-parses :
      (f : Faults) (s : State o) (a : Authentication) {p : Payload} {c : ChainType}
      → check_payload o f s a ≡ accept p c
      → parse_chain (codes p.transaction.network_id) ≡ some c
  unfolding check_payload
  check_payload-parses f s (refused status) e = absurd (ground (arith, e))
  check_payload-parses f s (authentic q) {p} {c} e =
      elim (Option-cases (parse_chain (codes q.transaction.network_id))) [
        | inl unknown ↦ absurd (ground (arith, e, unknown))
        | inr (d, known) ↦ ground (arith, e, known)
      ]

  -- An order that Receive accepts is routed by the order worker.
  pub accepted_order_routes :
      (f : Faults) (s : State o) (a : Authentication) (d : Deposit o) (publish_fails : Bool)
      {p : Payload} {c : ChainType}
      → check_payload o f s a ≡ accept p c
      → let msg = order_of o p c d in
        (queue : String) × (route_to_chain_queue c ≡ some queue)
        × (process_order_delivery o publish_fails (some msg)
            ≡ (if publish_fails then (requeued, none) else (acked, some (queue, msg))))
  unfolding process_order_delivery order_of
  accepted_order_routes f s a d publish_fails {p} {c} e =
      let (queue, known) =
        parse_chain-routes (codes p.transaction.network_id) c (check_payload-parses f s a e) in
      (queue, known, rw (process_order_delivery, known) refl)

  -- The same deposits, the one with the id being swept now and the others as they were.
  abbrev pub OnlySwept : ℕ → List (Deposit o) → List (Deposit o) → Type 0
  OnlySwept id [] [] = Unit
  OnlySwept id [] (e ∷ es) = false ≡ true
  OnlySwept id (d ∷ ds) [] = false ≡ true
  OnlySwept id (d ∷ ds) (e ∷ es) =
      (d.id ≡ id → e ≡ record d { status = "swept" }) × (¬ (d.id ≡ id) → e ≡ d) × OnlySwept id ds es

  mark_swept-OnlySwept : (id : ℕ) (ds : List (Deposit o)) → OnlySwept id ds (mark_swept o id ds)
  unfolding mark_swept
  mark_swept-OnlySwept id [] = tt
  mark_swept-OnlySwept id (d ∷ ds) =
      ((λ same. ground (arith, same)), (λ other. ground (arith, other)), mark_swept-OnlySwept id ds)

  -- What a sweep comes to, by its error, the wallet that was emptied, and the tables after it.
  abbrev pub SweepEnd : ℕ → State o → Option SweepError → Option String → State o → Type 0
  SweepEnd id s none emptied after =
      (wallet : String) × (key : Bytes) × (linked_wallet o id s ≡ some (wallet, key))
      × (emptied ≡ some wallet)
      × OnlySwept id s.deposits after.deposits
      × (after ≡ record s { deposits = after.deposits })
  SweepEnd id s (some e) emptied after = (after ≡ s) × ((emptied ≡ none) ⊎ (e ≡ update_failed))

  pub record SweepResult (id : ℕ) (s : State o) (r : Swept o) : Type 0 where
    pub end : SweepEnd id s r.error r.emptied r.state

  failed : (id : ℕ) (s : State o) (e : SweepError) → SweepResult id s (fails o s e)
  unfolding fails
  failed id s e = record { end = (refl, inl refl) }

  transfer_coins-SweepResult :
      (w : Sweep) (id : ℕ) (s : State o) (wallet : String) (key : Bytes)
      → linked_wallet o id s ≡ some (wallet, key)
      → SweepResult id s (transfer_coins o w id wallet s)
  unfolding transfer_coins
  transfer_coins-SweepResult w id s wallet key e = elim (Option-cases (w.coins wallet)) [
    | inl gone ↦ rw (transfer_coins, gone) (failed id s _)
    | inr ([], found) ↦ rw (transfer_coins, found) (failed id s _)
    | inr (c ∷ cs, found) ↦
        rw (transfer_coins, found)
          (elim (Bool-cases w.transfer_fails) [
            | inl stops ↦ rw stops (failed id s _)
            | inr sent ↦ rw sent (elim (Bool-cases w.update_fails) [
              | inl lost ↦ rw lost (record { end = (refl, inr refl) })
              | inr kept ↦ rw kept (record {
                end = (wallet, key, e, refl, mark_swept-OnlySwept id s.deposits, refl);
              })
            ])
          ])
  ]

  -- A sweep without an error emptied the wallet of the order linked to its deposit; it set the status
  -- of the deposit with its id to swept, and left the other deposits and tables as they were. A sweep
  -- with an error changes no table, and emptied a wallet only if the marking failed.
  pub execute_sweep-SweepResult :
      (w : Sweep) (id : ℕ) (s : State o) → SweepResult id s (execute_sweep o w id s)
  unfolding execute_sweep
  execute_sweep-SweepResult w id s = elim (Bool-cases w.lookup_fails) [
    | inl down ↦ rw down (failed id s _)
    | inr up ↦ rw up (elim (Option-cases (linked_wallet o id s)) [
      | inl missing ↦ rw (missing) (failed id s _)
      | inr ((wallet, key), found) ↦ rw found (elim (Option-cases (w.decrypt key)) [
        | inl bad ↦ rw bad (failed id s _)
        | inr (seed, good) ↦ rw good (elim (Bool-cases (length seed == 32)) [
          | inl long ↦ rw long (transfer_coins-SweepResult w id s wallet key found)
          | inr short ↦ rw short (failed id s _)
        ])
      ])
    ])
  ]
