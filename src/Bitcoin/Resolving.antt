-- ===== src/Bitcoin/Resolving.antt =====
-- What a transaction pays, while indexer/internal/indexer/bitcoin.go resolves its previous outputs.
use mathlib.Core.List.{Memᴰ}
use mathlib.Core.List.Memᴰ
use linq_b2b.Prelude.{
  ℕ, suc, ◌≡◌, refl, sym, subst, inl, inr, not, ◌||◌, List, [], ◌∷◌, Option, Bool-cases,
  Option-cases,
}
use linq_b2b.Bitcoin.{Numbers, Input, BtcTransaction, coinbase_inputs, is_coinbase}
use linq_b2b.Bitcoin.Addresses.{Codecs}
use linq_b2b.Bitcoin.Blocks.{needs_any, merge_inputs, resolve_tx, resolve_all}

module _ (v : Numbers) (k : Codecs) where
  -- The same transaction but for the previous outputs of its inputs.
  pub record IsResolved (tx after : BtcTransaction v) : Type 0 where
    pub id : after.tx_id ≡ tx.tx_id
    pub outputs : after.vout ≡ tx.vout
    pub reward : is_coinbase v after ≡ is_coinbase v tx

  coinbase-merge_inputs :
      (ins resolved : List (Input v))
      → coinbase_inputs v (merge_inputs v k ins resolved) ≡ coinbase_inputs v ins
  unfolding coinbase_inputs merge_inputs
  coinbase-merge_inputs [] rs = refl
  coinbase-merge_inputs (i ∷ is') [] = refl
  coinbase-merge_inputs (i ∷ []) (r ∷ rs) = elim (Option-cases r.prev_out) [
    | inl lacking ↦ rw lacking refl
    | inr (o, given) ↦ rw given refl
  ]
  coinbase-merge_inputs (i ∷ j ∷ is') (r ∷ []) = refl
  coinbase-merge_inputs (i ∷ j ∷ is') (r ∷ q ∷ rs) = refl

  resolve_tx-IsResolved :
      (answer : Option (BtcTransaction v)) (tx : BtcTransaction v)
      → IsResolved tx (resolve_tx v k answer tx)
  unfolding resolve_tx is_coinbase
  resolve_tx-IsResolved answer tx =
      elim (Bool-cases (is_coinbase v tx || not (needs_any v k tx.vin))) [
        | inl complete ↦
            rw (resolve_tx, complete) (record { id = refl; outputs = refl; reward = refl })
        | inr partial ↦ elim (Option-cases answer) [
          | inl without ↦
              rw (resolve_tx, partial, without)
                (record { id = refl; outputs = refl; reward = refl })
          | inr (r, given) ↦
              rw (resolve_tx, partial, given)
                (record { id = refl; outputs = refl; reward = coinbase-merge_inputs tx.vin r.vin })
        ]
      ]

  pub resolve_all-IsResolved :
      (resolve : ℕ → Option (BtcTransaction v)) (n : ℕ) (tx : BtcTransaction v)
      (txs : List (BtcTransaction v))
      → Memᴰ tx txs
      → (after : BtcTransaction v) × Memᴰ after (resolve_all v k resolve n txs)
        × IsResolved tx after
  unfolding resolve_all
  resolve_all-IsResolved resolve n tx [] m = absurd (Memᴰ.not-nil m)
  resolve_all-IsResolved resolve n tx (x ∷ txs) (Memᴰ.head e) = (
    _,
    Memᴰ.head refl,
    subst (λ y. IsResolved y (resolve_tx v k (resolve n) x)) (sym e)
        (resolve_tx-IsResolved (resolve n) x),
  )
  resolve_all-IsResolved resolve n tx (x ∷ txs) (Memᴰ.tail m) =
      let (after, there, same) = resolve_all-IsResolved resolve (suc n) tx txs m in
      (after, Memᴰ.tail there, same)
