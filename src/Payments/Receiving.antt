-- ===== src/Payments/Receiving.antt =====
-- What requests to backend/internal/webhook/handler.go leave in the tables and in the order queue.
use linq_b2b.Prelude.{
  ℕ, ◌<◌, ◌≡◌, refl, sym, subst, arith, inl, inr, true, false, List, [], ◌∷◌, none, some,
  Bool-cases, Option-cases, All,
}
use linq_b2b.Payments.{Outside, Payload, Deposit, OrderMessage, State}
use linq_b2b.Payments.Chains.{ChainType}
use linq_b2b.Payments.Receive.{
  Faults, find_merchant, deposit_exists, new_deposit, insert_deposit, order_of, announce, settle,
}
use linq_b2b.Payments.Ledger.{IsSound, insert_deposit-IsSound, announce-IsSound, deposited-last}

module _ (o : Outside) where
  -- A row that is added is for a new transaction, under the next id.
  pub new_deposit-fresh :
      (now : ℕ) (p : Payload) (s : State o) {d : Deposit o}
      → new_deposit o now p s ≡ some d
      → (deposit_exists o d.tx_hash s.deposits ≡ false)
        × (d.id ≡ s.next_id)
        × (d.tx_hash ≡ p.transaction.tx_hash)
  unfolding new_deposit
  new_deposit-fresh now p s {d} e = elim (Option-cases (find_merchant p.business_id s.merchants)) [
    | inl missing ↦ absurd (ground (arith, missing))
    | inr (m, found) ↦ ground (arith, found)
  ]

  newest_id :
      (ms : List (OrderMessage o)) (n m : ℕ)
      → m ≡ n
      → All (λ x. x.order_id < n) ms
      → All (λ x. x.order_id < m) ms
  newest_id ms n m e h = subst (λ k. All (λ x. x.order_id < k) ms) (sym e) h

  pub settle_row :
      (f : Faults) (now : ℕ) (p : Payload) (chain : ChainType) (s : State o) {d : Deposit o}
      → f.insert_fails ≡ false
      → new_deposit o now p s ≡ some d
      → settle o f now p chain s ≡ announce o f (order_of o p chain d) (insert_deposit o f d s)
  unfolding settle
  settle_row f now p chain s h e = rw (settle, h, e) refl

  settle_no_row :
      (f : Faults) (now : ℕ) (p : Payload) (chain : ChainType) (s : State o)
      → new_deposit o now p s ≡ none
      → (settle o f now p chain s).1 ≡ s
  unfolding settle
  settle_no_row f now p chain s e = ground (arith, e)

  settle_failed :
      (f : Faults) (now : ℕ) (p : Payload) (chain : ChainType) (s : State o)
      → f.insert_fails ≡ true
      → (settle o f now p chain s).1 ≡ s
  unfolding settle
  settle_failed f now p chain s h = rw (settle, h) refl

  pub settle-IsSound :
      (f : Faults) (now : ℕ) (p : Payload) (chain : ChainType) (s : State o)
      → IsSound o s
      → IsSound o (settle o f now p chain s).1
  unfolding order_of insert_deposit
  settle-IsSound f now p chain s v = elim (Bool-cases f.insert_fails) [
    | inl fails ↦ subst (IsSound o) (sym (settle_failed f now p chain s fails)) v
    | inr works ↦ elim (Option-cases (new_deposit o now p s)) [
      | inl without ↦ subst (IsSound o) (sym (settle_no_row f now p chain s without)) v
      | inr (d, row) ↦
          let (new, next, hash) = new_deposit-fresh now p s row in
          let added = insert_deposit o f d s in
          subst (λ r. IsSound o r.1) (sym (settle_row f now p chain s works row))
            (announce-IsSound o f added (order_of o p chain d)
              (insert_deposit-IsSound o f s d new v)
              (newest_id s.orders s.next_id d.id next v.fresh) (omega (arith, next))
              (deposited-last o (order_of o p chain d) s.deposits d refl refl))
    ]
  ]

  -- The writes of one request: its faults, the clock of the database, and what the checks accepted.
  pub record Write : Type 0 where
    pub faults : Faults
    pub now : ℕ
    pub payload : Payload
    pub chain : ChainType

  unfoldable pub settle_all : List Write → State o → State o
  settle_all [] s = s
  settle_all (w ∷ ws) s = settle_all ws (settle o w.faults w.now w.payload w.chain s).1

  -- However the writes of accepted requests follow each other, and whichever of their calls fail,
  -- tables that are sound stay sound: no two deposits have the same transaction, every published
  -- order is for a deposit of its transaction, and no deposit is ordered twice.
  pub settle_all-IsSound :
      (ws : List Write) (s : State o) → IsSound o s → IsSound o (settle_all ws s)
  unfolding settle_all
  settle_all-IsSound [] s v = v
  settle_all-IsSound (w ∷ ws) s v =
      settle_all-IsSound ws _ (settle-IsSound w.faults w.now w.payload w.chain s v)
