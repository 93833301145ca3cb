-- ===== src/Worker/Emissions.antt =====
-- emitBlock and emitUTXOs of indexer/internal/worker/base.go: which events a block gives.
use mathlib.Core.List.{Memᴰ}
use linq_b2b.Prelude.{
  ◌≡◌, refl, sym, ap, ◌∙◌, Bool, true, false, not, ◌&&◌, List, [], ◌∷◌, ◌++◌, some, ◌⊎◌, String,
  str_eq, arith, append_assoc, append-nil, All, subst, memᴰ-append_left, memᴰ-append_right, inl,
  inr, Bool-cases, Option-cases,
}
use linq_b2b.Chain.{
  Transaction, Direction, unset, direction_in, direction_out, all_sender_addresses, Utxo, SpentUtxo,
  UtxoEvent, Block,
}
use linq_b2b.Worker.{
  Config, Base, Emission, transaction, utxo, any_exist, tx_emissions, filter_created, filter_spent,
  is_empty, utxo_emissions, emit_transactions, emit_utxo_events, emit_utxos, emit_block,
}

module _ (c : Config) (exist : String → Bool) where
  -- An event for a direction has a watched address on that side.
  abbrev WatchedSide : Direction → Transaction → Type 0
  WatchedSide unset t = ⊥
  WatchedSide direction_in t = (str_eq t.to_address "" ≡ false) × (exist t.to_address ≡ true)
  WatchedSide direction_out t =
      (c.two_way_indexing ≡ true) × (any_exist exist (all_sender_addresses t) ≡ true)

  abbrev Watched : Emission → Type 0
  Watched (transaction t) = WatchedSide t.direction t
  Watched (utxo e) =
      All (λ u. exist u.address ≡ true) e.created
      × All (λ u. exist u.address ≡ true) e.spent
      × (c.index_utxo ≡ true)

  All-join : (xs ys : List Emission) → All Watched xs → All Watched ys → All Watched (xs ++ ys)
  All-join [] ys h k = k
  All-join (x ∷ xs) ys h k = (h.0, All-join xs ys h.1 k)

  tx_emissions-Watched : (t : Transaction) → All Watched (tx_emissions c exist t)
  unfolding tx_emissions
  tx_emissions-Watched t = elim (Bool-cases (not (str_eq t.to_address "") && exist t.to_address)) [
    | inl to ↦ elim (Bool-cases (c.two_way_indexing && any_exist exist (all_sender_addresses t))) [
      | inl from ↦ rw (to, from) (ground arith)
      | inr not_from ↦ rw (to, not_from) (ground arith)
    ]
    | inr not_to ↦
        elim (Bool-cases (c.two_way_indexing && any_exist exist (all_sender_addresses t))) [
          | inl from ↦ rw (not_to, from) (ground arith)
          | inr not_from ↦ rw (not_to, not_from) tt
        ]
  ]

  filter_created-All :
      (us : List Utxo) → All (λ u. exist u.address ≡ true) (filter_created exist us)
  unfolding filter_created
  filter_created-All [] = tt
  filter_created-All (u ∷ us) = ground (arith, filter_created-All us)

  filter_spent-All :
      (us : List SpentUtxo) → All (λ u. exist u.address ≡ true) (filter_spent exist us)
  unfolding filter_spent
  filter_spent-All [] = tt
  filter_spent-All (u ∷ us) = ground (arith, filter_spent-All us)

  utxo_emissions-Watched :
      (e : UtxoEvent) → c.index_utxo ≡ true → All Watched (utxo_emissions exist e)
  unfolding utxo_emissions
  utxo_emissions-Watched e on =
      elim (Bool-cases
        (is_empty (filter_created exist e.created) && is_empty (filter_spent exist e.spent))) [
          | inl none_left ↦ rw none_left tt
          | inr some_left ↦
              rw some_left ((filter_created-All e.created, filter_spent-All e.spent, on), tt)
        ]

  -- A list of events with new ones behind it, which all concern watched addresses.
  abbrev pub Adds : List Emission → List Emission → Type 0
  Adds old all = (new : List Emission) × (all ≡ old ++ new) × All Watched new

  Adds-nothing : (old : List Emission) → Adds old old
  Adds-nothing old = ([], sym (append-nil old), tt)

  Adds-trans : (a b d : List Emission) → Adds a b → Adds b d → Adds a d
  Adds-trans a b d (xs, e, h) (ys, f, k) =
      (xs ++ ys, f ∙ ap (λ l. l ++ ys) e ∙ append_assoc a xs ys, All-join xs ys h k)

  Adds-more : (a b xs : List Emission) → All Watched xs → Adds (a ++ xs) b → Adds a b
  Adds-more a b xs h more = Adds-trans a (a ++ xs) b (xs, refl, h) more

  emit_transactions-Adds :
      (ts : List Transaction) (b : Base) → Adds b.emitted (emit_transactions c exist ts b).emitted
  unfolding emit_transactions
  emit_transactions-Adds [] b = Adds-nothing b.emitted
  emit_transactions-Adds (t ∷ ts) b =
      let b' : Base = record b { emitted = b.emitted ++ tx_emissions c exist t } in
      Adds-more b.emitted _ (tx_emissions c exist t) (tx_emissions-Watched t)
        (emit_transactions-Adds ts b')

  emit_utxo_events-Adds :
      (es : List UtxoEvent) (b : Base)
      → c.index_utxo ≡ true
      → Adds b.emitted (emit_utxo_events exist es b).emitted
  unfolding emit_utxo_events
  emit_utxo_events-Adds [] b on = Adds-nothing b.emitted
  emit_utxo_events-Adds (e ∷ es) b on =
      let b' : Base = record b { emitted = b.emitted ++ utxo_emissions exist e } in
      Adds-more b.emitted _ (utxo_emissions exist e) (utxo_emissions-Watched e on)
        (emit_utxo_events-Adds es b' on)

  emit_utxos_cases :
      (block : Block) (b : Base)
      → (emit_utxos c exist block b ≡ b)
        ⊎ ((es : List UtxoEvent) × (c.index_utxo ≡ true)
            × (emit_utxos c exist block b ≡ emit_utxo_events exist es b))
  unfolding emit_utxos
  emit_utxos_cases block b = elim (Bool-cases c.index_utxo) [
    | inr off ↦ inl (ground arith)
    | inl on ↦ elim (Option-cases block.utxo_events) [
      | inl e ↦ inl (ground arith)
      | inr (es, e) ↦ inr (es, on, ground arith)
    ]
  ]

  emit_utxos-Adds : (block : Block) (b : Base) → Adds b.emitted (emit_utxos c exist block b).emitted
  emit_utxos-Adds block b = elim (emit_utxos_cases block b) [
    | inl e ↦ rw e (Adds-nothing b.emitted)
    | inr (es, on, e) ↦ rw e (emit_utxo_events-Adds es b on)
  ]

  emit_block_watching :
      (block : Block) (b : Base)
      → c.exist ≡ some exist
      → emit_block c block b
        ≡ emit_utxos c exist block (emit_transactions c exist block.transactions b)
  unfolding emit_block
  emit_block_watching block b e = ground arith

  -- With a store of watched addresses, the events that a block gives, added behind those that are
  -- there, all concern watched addresses: an incoming one a watched recipient, an outgoing one a
  -- watched sender and two-way indexing, a UTXO event watched outputs only and UTXO indexing.
  pub emit_block-Adds :
      (block : Block) (b : Base)
      → c.exist ≡ some exist
      → Adds b.emitted (emit_block c block b).emitted
  emit_block-Adds block b e =
      let b' = emit_transactions c exist block.transactions b in
      rw (emit_block_watching block b e) (
        Adds-trans b.emitted b'.emitted _ (emit_transactions-Adds block.transactions b)
          (emit_utxos-Adds block b'))

  incoming-tx_emissions :
      (t : Transaction)
      → str_eq t.to_address "" ≡ false
      → exist t.to_address ≡ true
      → Memᴰ (transaction (record t { direction = direction_in })) (tx_emissions c exist t)
  unfolding tx_emissions
  incoming-tx_emissions t named watched =
      rw (to_monitored t.to_address named watched) (Memᴰ.head refl)
    where
      to_monitored :
          (a : String)
          → str_eq a "" ≡ false
          → exist a ≡ true
          → (not (str_eq a "") && exist a) ≡ true
      to_monitored a h k = ground arith

  kept-emit_transactions :
      (e : Emission) (ts : List Transaction) (b : Base)
      → Memᴰ e b.emitted
      → Memᴰ e (emit_transactions c exist ts b).emitted
  unfolding emit_transactions
  kept-emit_transactions e [] b m = m
  kept-emit_transactions e (t ∷ ts) b m =
      kept-emit_transactions e ts (record b { emitted = b.emitted ++ tx_emissions c exist t })
        (memᴰ-append_left (tx_emissions c exist t) m)

  kept-emit_utxo_events :
      (e : Emission) (es : List UtxoEvent) (b : Base)
      → Memᴰ e b.emitted
      → Memᴰ e (emit_utxo_events exist es b).emitted
  unfolding emit_utxo_events
  kept-emit_utxo_events e [] b m = m
  kept-emit_utxo_events e (u ∷ us) b m =
      kept-emit_utxo_events e us (record b { emitted = b.emitted ++ utxo_emissions exist u })
        (memᴰ-append_left (utxo_emissions exist u) m)

  kept-emit_utxos :
      (e : Emission) (block : Block) (b : Base)
      → Memᴰ e b.emitted
      → Memᴰ e (emit_utxos c exist block b).emitted
  kept-emit_utxos e block b m = elim (emit_utxos_cases block b) [
    | inl f ↦ rw f m
    | inr (es, on, f) ↦ rw f (kept-emit_utxo_events e es b m)
  ]

  incoming-emit_transactions :
      (t : Transaction) (ts : List Transaction) (b : Base)
      → str_eq t.to_address "" ≡ false
      → exist t.to_address ≡ true
      → Memᴰ t ts
      → Memᴰ
          (transaction (record t { direction = direction_in }))
          (emit_transactions c exist ts b).emitted
  unfolding emit_transactions
  incoming-emit_transactions t [] b named watched m = elim m [ ]
  incoming-emit_transactions t (x ∷ ts) b named watched (Memᴰ.head e) =
      kept-emit_transactions _ ts (record b { emitted = b.emitted ++ tx_emissions c exist x })
        (memᴰ-append_right b.emitted (
          subst
            (λ y.
              Memᴰ (transaction (record t { direction = direction_in })) (tx_emissions c exist y))
            e (incoming-tx_emissions t named watched)))
  incoming-emit_transactions t (x ∷ ts) b named watched (Memᴰ.tail m) =
      incoming-emit_transactions t ts (record b { emitted = b.emitted ++ tx_emissions c exist x })
        named watched m

  -- With a store of watched addresses, every transaction of a block to a watched address, which is
  -- not the empty one, gives an incoming event.
  pub emit_block_incoming :
      (t : Transaction) (block : Block) (b : Base)
      → c.exist ≡ some exist
      → str_eq t.to_address "" ≡ false
      → exist t.to_address ≡ true
      → Memᴰ t block.transactions
      → Memᴰ (transaction (record t { direction = direction_in })) (emit_block c block b).emitted
  emit_block_incoming t block b e named watched m = rw (emit_block_watching block b e) (
      kept-emit_utxos _ block (emit_transactions c exist block.transactions b)
        (incoming-emit_transactions t block.transactions b named watched m))
