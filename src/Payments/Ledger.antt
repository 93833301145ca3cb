-- ===== src/Payments/Ledger.antt =====
-- The soundness of the tables behind backend/internal/webhook/handler.go, and what adds a deposit or an
-- order to them.
use linq_b2b.Prelude.{
  ℕ, suc, ◌<◌, ◌≡◌, refl, arith, inl, inr, Bool, true, false, not, ◌&&◌, ◌||◌, List, [], ◌∷◌, ◌++◌,
  String, str_eq, str_eq_sym, eq_iff, ◌==◌, Bool-cases, All,
}
use linq_b2b.Payments.{Outside, Deposit, OrderMessage, State}
use linq_b2b.Payments.Receive.{Faults, deposit_exists, insert_deposit, announce}

module _ (o : Outside) where
  unfoldable pub no_repeat : List (Deposit o) → Bool
  no_repeat [] = true
  no_repeat (d ∷ ds) = not (deposit_exists o d.tx_hash ds) && no_repeat ds

  -- An order of this id, and a deposit of this id and transaction.
  unfoldable pub ordered : ℕ → List (OrderMessage o) → Bool
  ordered id [] = false
  ordered id (m ∷ ms) = m.order_id == id || ordered id ms

  unfoldable pub ordered_once : List (OrderMessage o) → Bool
  ordered_once [] = true
  ordered_once (m ∷ ms) = not (ordered m.order_id ms) && ordered_once ms

  unfoldable pub deposited : OrderMessage o → List (Deposit o) → Bool
  deposited m [] = false
  deposited m (d ∷ ds) = (d.id == m.order_id && str_eq d.tx_hash m.tx_hash) || deposited m ds

  -- No two deposits have the same transaction; every order is for a deposit, no two for the same.
  pub record IsSound (s : State o) : Type 0 where
    pub distinct : no_repeat s.deposits ≡ true
    pub single : ordered_once s.orders ≡ true
    pub linked : All (λ m. deposited m s.deposits ≡ true) s.orders
    pub fresh : All (λ m. m.order_id < s.next_id) s.orders

  pub deposit_exists-append :
      (h : String) (ds : List (Deposit o)) (d : Deposit o)
      → deposit_exists o h (ds ++ d ∷ []) ≡ (deposit_exists o h ds || str_eq d.tx_hash h)
  unfolding deposit_exists
  deposit_exists-append h [] d = ground arith
  deposit_exists-append h (x ∷ ds) d = ground (arith, deposit_exists-append h ds d)

  no_repeat-append :
      (ds : List (Deposit o)) (d : Deposit o)
      → deposit_exists o d.tx_hash ds ≡ false
      → no_repeat ds ≡ true
      → no_repeat (ds ++ d ∷ []) ≡ true
  unfolding no_repeat deposit_exists
  no_repeat-append [] d h k = refl
  no_repeat-append (x ∷ ds) d h k = ground (
    arith,
    deposit_exists-append x.tx_hash ds d,
    str_eq_sym d.tx_hash x.tx_hash,
    no_repeat-append ds d,
  )

  deposited-append :
      (m : OrderMessage o) (ds : List (Deposit o)) (d : Deposit o)
      → deposited m ds ≡ true
      → deposited m (ds ++ d ∷ []) ≡ true
  unfolding deposited
  deposited-append m [] d h = absurd (ground arith)
  deposited-append m (x ∷ ds) d h = ground (arith, deposited-append m ds d)

  pub deposited-last :
      (m : OrderMessage o) (ds : List (Deposit o)) (d : Deposit o)
      → d.id ≡ m.order_id
      → d.tx_hash ≡ m.tx_hash
      → deposited m (ds ++ d ∷ []) ≡ true
  unfolding deposited
  deposited-last m [] d e f = ground (arith, (eq_iff d.tx_hash m.tx_hash).1 f)
  deposited-last m (x ∷ ds) d e f = ground (arith, deposited-last m ds d e f)

  linked-append :
      (ms : List (OrderMessage o)) (ds : List (Deposit o)) (d : Deposit o)
      → All (λ m. deposited m ds ≡ true) ms
      → All (λ m. deposited m (ds ++ d ∷ []) ≡ true) ms
  linked-append [] ds d h = tt
  linked-append (m ∷ ms) ds d (h, hs) = (deposited-append m ds d h, linked-append ms ds d hs)

  All-snoc :
      (P : OrderMessage o → Type 0) (ms : List (OrderMessage o)) (m : OrderMessage o)
      → All P ms
      → P m
      → All P (ms ++ m ∷ [])
  All-snoc P [] m h p = (p, tt)
  All-snoc P (x ∷ ms) m (h, hs) p = (h, All-snoc P ms m hs p)

  fresh-suc :
      (ms : List (OrderMessage o)) (n : ℕ)
      → All (λ m. m.order_id < n) ms
      → All (λ m. m.order_id < suc n) ms
  fresh-suc [] n h = tt
  fresh-suc (m ∷ ms) n (h, hs) = (omega (arith, h), fresh-suc ms n hs)

  ordered-append :
      (n : ℕ) (ms : List (OrderMessage o)) (m : OrderMessage o)
      → ordered n (ms ++ m ∷ []) ≡ (ordered n ms || m.order_id == n)
  unfolding ordered
  ordered-append n [] m = ground arith
  ordered-append n (x ∷ ms) m = ground (arith, ordered-append n ms m)

  ordered_once-append :
      (ms : List (OrderMessage o)) (m : OrderMessage o)
      → All (λ x. x.order_id < m.order_id) ms
      → ordered_once ms ≡ true
      → ordered_once (ms ++ m ∷ []) ≡ true
  unfolding ordered_once ordered
  ordered_once-append [] m h k = refl
  ordered_once-append (x ∷ ms) m (h, hs) k =
      ground (arith, ordered-append x.order_id ms m, ordered_once-append ms m hs)

  pub insert_deposit-IsSound :
      (f : Faults) (s : State o) (d : Deposit o)
      → deposit_exists o d.tx_hash s.deposits ≡ false
      → IsSound s
      → IsSound (insert_deposit o f d s)
  unfolding insert_deposit
  insert_deposit-IsSound f s d new v = record {
    distinct = no_repeat-append s.deposits d new v.distinct;
    single = v.single;
    linked = linked-append s.orders s.deposits d v.linked;
    fresh = fresh-suc s.orders s.next_id v.fresh;
  }

  cached-IsSound :
      (s : State o) (c : List (ℕ × OrderMessage o)) → IsSound s → IsSound (record s { cache = c })
  cached-IsSound s c v = record {
    distinct = v.distinct;
    single = v.single;
    linked = v.linked;
    fresh = v.fresh;
  }

  published-IsSound :
      (s : State o) (m : OrderMessage o)
      → IsSound s
      → All (λ x. x.order_id < m.order_id) s.orders
      → m.order_id < s.next_id
      → deposited m s.deposits ≡ true
      → IsSound (record s { orders = s.orders ++ m ∷ [] })
  published-IsSound s m v newest below known = record {
    distinct = v.distinct;
    single = ordered_once-append s.orders m newest v.single;
    linked = All-snoc (λ x. deposited x s.deposits ≡ true) s.orders m v.linked known;
    fresh = All-snoc (λ x. x.order_id < s.next_id) s.orders m v.fresh below;
  }

  pub announce-IsSound :
      (f : Faults) (s : State o) (m : OrderMessage o)
      → IsSound s
      → All (λ x. x.order_id < m.order_id) s.orders
      → m.order_id < s.next_id
      → deposited m s.deposits ≡ true
      → IsSound (announce o f m s).1
  unfolding announce
  announce-IsSound f s m v newest below known =
      let c = (m.order_id, m) ∷ s.cache in
      let kept = cached-IsSound s c v in
      let sent = published-IsSound s m v newest below known in
      elim (Bool-cases f.publish_fails) [
        | inl fails ↦ rw fails (elim (Bool-cases (f.has_cache && not f.cache_fails)) [
          | inl keeps ↦ rw keeps kept
          | inr drops ↦ rw drops v
        ])
        | inr works ↦ rw works (elim (Bool-cases (f.has_cache && not f.cache_fails)) [
          | inl keeps ↦
              rw keeps (published-IsSound (record s { cache = c }) m kept newest below known)
          | inr drops ↦ rw drops sent
        ])
      ]
