-- ===== src/Payments/Orders.antt =====
-- The workers behind the order queue: processOrderDelivery of
-- backend/internal/workers/b2b_order_worker.go, which hands an order to the queue of its chain, and
-- backend/internal/workers/b2b_sui_treasury_worker.go, which moves the paid coins to the treasury. A
-- message is the decoded body, or `none` when it is no JSON of an order.
use linq_b2b.Prelude.{
  ℕ, suc, Bool, List, [], ◌∷◌, ◌++◌, Option, none, some, String, str_eq, leb, ◌==◌, if◌then◌else◌,
  length,
}
use linq_b2b.Texts.{Bytes}
use linq_b2b.Payments.{Outside, PendingOrder, Deposit, OrderMessage, State}
use linq_b2b.Payments.Chains.{route_to_chain_queue}

-- What a worker tells the broker: Ack, Nack without requeue, Nack with requeue.
pub data Reply : Type 0 where
  acked dead_lettered requeued : Reply

abbrev pub max_sweep_attempts : ℕ
max_sweep_attempts = 3

-- The errors of a sweep. The first three carry the mark "permanent:" in the source.
pub data SweepError : Type 0 where
  no_pending_order bad_key bad_seed : SweepError
  lookup_failed coins_failed no_coins transfer_failed update_failed : SweepError

-- What one sweep meets: which calls fail, the coins of the wallet, and the decryption of its key.
pub record Sweep : Type 0 where
  pub lookup_fails : Bool
  pub decrypt : Bytes → Option Bytes
  pub coins : String → Option (List String)
  pub transfer_fails : Bool
  pub update_fails : Bool

module _ (o : Outside) where
  -- The reply, and the message with the queue that it was published to.
  unfoldable pub process_order_delivery :
      Bool → Option (OrderMessage o) → Reply × Option (String × OrderMessage o)
  process_order_delivery publish_fails none = (dead_lettered, none)
  process_order_delivery publish_fails (some msg) = elim (route_to_chain_queue msg.chain) [
    | none ↦ (dead_lettered, none)
    | some queue ↦ if publish_fails then (requeued, none) else (acked, some (queue, msg))
  ]

  unfoldable pub find_deposit : ℕ → List (Deposit o) → Option (Deposit o)
  find_deposit id [] = none
  find_deposit id (d ∷ ds) = if d.id == id then some d else find_deposit id ds

  pub find_order : String → List PendingOrder → Option PendingOrder
  find_order id [] = none
  find_order id (p ∷ ps) = if str_eq p.id id then some p else find_order id ps

  -- The JOIN of a deposit with its pending order: the paid wallet and its encrypted key.
  unfoldable pub linked_wallet : ℕ → State o → Option (String × Bytes)
  unfolding find_deposit find_order
  linked_wallet id s = elim (find_deposit id s.deposits) [
    | none ↦ none
    | some d ↦ elim d.pending_order_id [
      | none ↦ none
      | some order ↦ elim (find_order order s.pending_orders) [
        | none ↦ none
        | some p ↦ some (d.sui_address, p.encrypted_private_key)
      ]
    ]
  ]

  unfoldable pub mark_swept : ℕ → List (Deposit o) → List (Deposit o)
  mark_swept id [] = []
  mark_swept id (d ∷ ds) =
      (if d.id == id then record d { status = "swept" } else d) ∷ mark_swept id ds

  -- What a sweep leaves: its error, `none` for nil, the wallet that was emptied, and the tables.
  pub record Swept : Type 0 where
    pub error : Option SweepError
    pub emptied : Option String
    pub state : State o

  unfoldable pub fails : State o → SweepError → Swept
  fails s e = record { error = some e; emptied = none; state = s }

  -- From the decrypted seed on.
  unfoldable pub transfer_coins : Sweep → ℕ → String → State o → Swept
  unfolding mark_swept fails
  transfer_coins w id wallet s = elim (w.coins wallet) [
    | none ↦ fails s coins_failed
    | some [] ↦ fails s no_coins
    | some (c ∷ cs) ↦
        if w.transfer_fails
        then fails s transfer_failed
        else if w.update_fails
        then record { error = some update_failed; emptied = some wallet; state = s }
        else record {
          error = none;
          emptied = some wallet;
          state = record s { deposits = mark_swept id s.deposits };
        }
  ]

  unfoldable pub execute_sweep : Sweep → ℕ → State o → Swept
  unfolding linked_wallet transfer_coins fails
  execute_sweep w id s =
      if w.lookup_fails then fails s lookup_failed else elim (linked_wallet id s) [
        | none ↦ fails s no_pending_order
        | some (wallet, key) ↦ elim (w.decrypt key) [
          | none ↦ fails s bad_key
          | some seed ↦ if length seed == 32 then transfer_coins w id wallet s else fails s bad_seed
        ]
      ]

  -- The treasury worker: its attempts by delivery tag, the tables, the wallets that were emptied, and
  -- what it published to the queue of dead letters.
  pub record Treasury : Type 0 where
    pub attempts : ℕ → ℕ
    pub tables : State o
    pub emptied : List String
    pub dead : List ℕ

  unfoldable pub set_attempts : ℕ → ℕ → (ℕ → ℕ) → ℕ → ℕ
  set_attempts tag n attempts t = if tag == t then n else attempts t

  unfoldable pub note_emptied : Option String → List String → List String
  note_emptied none ws = ws
  note_emptied (some w) ws = ws ++ w ∷ []

  -- After the sweep. `dlq_fails` tells whether the publication to the dead letters fails.
  unfoldable pub after_sweep : Bool → ℕ → ℕ → Swept → Treasury → Reply × Treasury
  unfolding set_attempts note_emptied
  after_sweep dlq_fails tag id swept t =
      let noted = record t {
        tables = swept.state;
        emptied = note_emptied swept.emptied t.emptied;
      } in
      elim swept.error [
        | none ↦ (acked, record noted { attempts = set_attempts tag 0 t.attempts })
        | some e ↦
            let n = suc (t.attempts tag) in
            if leb max_sweep_attempts n
            then (
              dead_lettered,
              record noted {
                attempts = set_attempts tag 0 t.attempts;
                dead = if dlq_fails then t.dead else t.dead ++ id ∷ [];
              },
            )
            else (requeued, record noted { attempts = set_attempts tag n t.attempts })
      ]

  -- One delivery. An attempt count of 0 stands for a tag that is not in the map.
  unfoldable pub process_sweep_delivery :
      Bool → Sweep → ℕ → Option (OrderMessage o) → Treasury → Reply × Treasury
  unfolding after_sweep execute_sweep
  process_sweep_delivery dlq_fails w tag none t =
      (dead_lettered, record t { attempts = set_attempts tag 0 t.attempts })
  process_sweep_delivery dlq_fails w tag (some msg) t =
      after_sweep dlq_fails tag msg.order_id (execute_sweep w msg.order_id t.tables) t
