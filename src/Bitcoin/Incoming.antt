-- ===== src/Bitcoin/Incoming.antt =====
-- A payment in a Bitcoin block, from indexer/internal/indexer/bitcoin.go to the events of
-- indexer/internal/worker/base.go.
use mathlib.Core.List.{Memᴰ}
use mathlib.Core.List.Memᴰ
use linq_b2b.Prelude.{
  ℕ, suc, ◌≡◌, refl, sym, ap, ◌∙◌, subst, inl, inr, Bool, true, false, List, [], ◌∷◌, ◌++◌, Option,
  some, String, str_eq, if◌then◌else◌, Bool-cases, memᴰ-append_left, memᴰ-append_right,
}
use linq_b2b.Chain.{Transaction, direction_in}
use linq_b2b.Worker.{Config, Base, transaction, emit_block}
use linq_b2b.Worker.Emissions.{emit_block_incoming}
use linq_b2b.Bitcoin.{
  Numbers, Output, BtcTransaction, BtcBlock, is_coinbase, calculate_fee, get_output_addresses,
  satoshis_from_float,
}
use linq_b2b.Bitcoin.Addresses.{Codecs, normal_or_same}
use linq_b2b.Bitcoin.Extraction.{
  Place, is_nil, output_transfers, outputs_transfers, extract_transfers_from_tx,
}
use linq_b2b.Bitcoin.Resolving.{resolve_all-IsResolved}
use linq_b2b.Bitcoin.Blocks.{
  BitcoinConfig, resolve_all, transactions_of, block_transfers, place_of, convert_block,
}

module _ (v : Numbers) (k : Codecs) where
  -- A transfer of an output to one of its addresses.
  pub record IsPayment (tx_id : String) (o : Output v) (a : String) (t : Transaction) : Type 0 where
    pub hash : t.tx_hash ≡ tx_id
    pub to : t.to_address ≡ normal_or_same k a
    pub amount : t.amount ≡ satoshis_from_float v o.value

  abbrev Paid : String → Output v → String → List Transaction → Type 0
  Paid tx_id o a ts = (t : Transaction) × Memᴰ t ts × IsPayment tx_id o a t

  Paid-left :
      {tx_id : String} {o : Output v} {a : String} {xs : List Transaction} (ys : List Transaction)
      → Paid tx_id o a xs
      → Paid tx_id o a (xs ++ ys)
  Paid-left ys (t, m, p) = (t, memᴰ-append_left ys m, p)

  Paid-right :
      {tx_id : String} {o : Output v} {a : String} (xs : List Transaction) {ys : List Transaction}
      → Paid tx_id o a ys
      → Paid tx_id o a (xs ++ ys)
  Paid-right xs (t, m, p) = (t, memᴰ-append_right xs m, p)

  transactions_of-append :
      (xs ys : List (v.Decimal × Transaction))
      → transactions_of v k (xs ++ ys) ≡ transactions_of v k xs ++ transactions_of v k ys
  unfolding transactions_of
  transactions_of-append [] ys = refl
  transactions_of-append (x ∷ xs) ys = ap (◌∷◌ x.1) (transactions_of-append xs ys)

  Paid-output_transfers :
      (p : Place) (tx : BtcTransaction v) (fee : v.Decimal) (o : Output v) (a : String) (vout n : ℕ)
      (addrs : List String)
      → Memᴰ a addrs
      → Paid tx.tx_id o a (
          transactions_of v k
            (output_transfers v k p tx fee (satoshis_from_float v o.value) vout n addrs))
  unfolding output_transfers transactions_of
  Paid-output_transfers p tx fee o a vout n [] m = absurd (Memᴰ.not-nil m)
  Paid-output_transfers p tx fee o a vout n (b ∷ bs) (Memᴰ.head e) =
      (_, Memᴰ.head refl, record { hash = refl; to = ap (normal_or_same k) (sym e); amount = refl })
  Paid-output_transfers p tx fee o a vout n (b ∷ bs) (Memᴰ.tail m) =
      let (t, there, pays) = Paid-output_transfers p tx fee o a vout (suc n) bs m in
      (t, Memᴰ.tail there, pays)

  some_address : {a : String} (addrs : List String) → Memᴰ a addrs → is_nil v k addrs ≡ false
  some_address [] m = absurd (Memᴰ.not-nil m)
  some_address (b ∷ bs) m = refl

  -- The transfers of the outputs from `x` on, where `x` has an address.
  outputs_transfers_step :
      (p : Place) (tx : BtcTransaction v) (assigned : Bool) (n : ℕ) (x : Output v)
      (outs : List (Output v))
      → is_nil v k (get_output_addresses v x) ≡ false
      → let fee = if assigned then v.zero else calculate_fee v tx in
        transactions_of v k (outputs_transfers v k p tx assigned n (x ∷ outs))
        ≡ transactions_of v k (
            output_transfers v k p tx fee
              (satoshis_from_float v x.value)
              n
              0
              (get_output_addresses v x))
          ++ transactions_of v k (outputs_transfers v k p tx true (suc n) outs)
  unfolding outputs_transfers
  outputs_transfers_step p tx assigned n x outs e =
      rw (outputs_transfers, e) (transactions_of-append _ _)

  outputs_transfers_skip :
      (p : Place) (tx : BtcTransaction v) (assigned : Bool) (n : ℕ) (x : Output v)
      (outs : List (Output v))
      → is_nil v k (get_output_addresses v x) ≡ true
      → outputs_transfers v k p tx assigned n (x ∷ outs)
        ≡ outputs_transfers v k p tx assigned (suc n) outs
  unfolding outputs_transfers
  outputs_transfers_skip p tx assigned n x outs e = rw (outputs_transfers, e) refl

  Paid-outputs_transfers :
      (p : Place) (tx : BtcTransaction v) (assigned : Bool) (o : Output v) (a : String) (n : ℕ)
      (outs : List (Output v))
      → Memᴰ o outs
      → Memᴰ a (get_output_addresses v o)
      → Paid tx.tx_id o a (transactions_of v k (outputs_transfers v k p tx assigned n outs))
  Paid-outputs_transfers p tx assigned o a n [] m named = absurd (Memᴰ.not-nil m)
  Paid-outputs_transfers p tx assigned o a n (x ∷ outs) (Memᴰ.head e) named =
      let fee = if assigned then v.zero else calculate_fee v tx in
      let here = Paid-output_transfers p tx fee o a n 0 (get_output_addresses v o) named in
      let step = outputs_transfers_step p tx assigned n o outs (some_address _ named) in
      subst
        (λ y.
          Paid tx.tx_id o a
            (transactions_of v k (outputs_transfers v k p tx assigned n (y ∷ outs))))
        e (subst (Paid tx.tx_id o a) (sym step) (Paid-left _ here))
  Paid-outputs_transfers p tx assigned o a n (x ∷ outs) (Memᴰ.tail m) named =
      elim (Bool-cases (is_nil v k (get_output_addresses v x))) [
        | inl without ↦
            subst (λ l. Paid tx.tx_id o a (transactions_of v k l))
              (sym (outputs_transfers_skip p tx assigned n x outs without))
              (Paid-outputs_transfers p tx assigned o a (suc n) outs m named)
        | inr with_some ↦
            subst (Paid tx.tx_id o a)
              (sym (outputs_transfers_step p tx assigned n x outs with_some))
              (Paid-right _ (Paid-outputs_transfers p tx true o a (suc n) outs m named))
      ]

  Paid-extract_transfers :
      (p : Place) (tx : BtcTransaction v) (o : Output v) (a : String)
      → is_coinbase v tx ≡ false
      → Memᴰ o tx.vout
      → Memᴰ a (get_output_addresses v o)
      → Paid tx.tx_id o a (transactions_of v k (extract_transfers_from_tx v k p tx))
  unfolding extract_transfers_from_tx
  Paid-extract_transfers p tx o a plain m named =
      rw (extract_transfers_from_tx, plain)
        (Paid-outputs_transfers p tx false o a 0 tx.vout m named)

  Paid-block_transfers :
      (p : Place) (tx : BtcTransaction v) (o : Output v) (a : String)
      (txs : List (BtcTransaction v))
      → is_coinbase v tx ≡ false
      → Memᴰ o tx.vout
      → Memᴰ a (get_output_addresses v o)
      → Memᴰ tx txs
      → Paid tx.tx_id o a (block_transfers v k p txs)
  unfolding block_transfers
  Paid-block_transfers p tx o a [] plain m named there = absurd (Memᴰ.not-nil there)
  Paid-block_transfers p tx o a (x ∷ txs) plain m named (Memᴰ.head e) =
      subst (λ y. Paid tx.tx_id o a (block_transfers v k p (y ∷ txs))) e
        (rw (block_transfers, plain) (Paid-left _ (Paid-extract_transfers p tx o a plain m named)))
  Paid-block_transfers p tx o a (x ∷ txs) plain m named (Memᴰ.tail there) =
      let rest = Paid-block_transfers p tx o a txs plain m named there in
      elim (Bool-cases (is_coinbase v x)) [
        | inl reward ↦ rw (block_transfers, reward) rest
        | inr usual ↦ rw (block_transfers, usual) (Paid-right _ rest)
      ]

  -- An output of a transaction of a Bitcoin block that is no coinbase, to an address whose normal
  -- form is watched and not empty, gives an incoming event of that transaction, address and amount
  -- when the converted block is emitted, whatever its previous outputs are resolved to.
  pub emit_block-convert_block :
      (bc : BitcoinConfig) (resolve : ℕ → Option (BtcTransaction v)) (block : BtcBlock v)
      (c : Config) (exist : String → Bool) (b : Base) (tx : BtcTransaction v) (o : Output v)
      (a : String)
      → c.exist ≡ some exist
      → Memᴰ tx block.tx
      → is_coinbase v tx ≡ false
      → Memᴰ o tx.vout
      → Memᴰ a (get_output_addresses v o)
      → str_eq (normal_or_same k a) "" ≡ false
      → exist (normal_or_same k a) ≡ true
      → (t : Transaction) × Memᴰ
          (transaction (record t { direction = direction_in }))
          (emit_block c (convert_block v k bc resolve block) b).emitted
        × IsPayment tx.tx_id o a t
  unfolding convert_block
  emit_block-convert_block bc resolve block c exist b tx o a watching there plain m named named_well
        watched =
      let (after, still, same) = resolve_all-IsResolved v k resolve 0 tx block.tx there in
      let (t, found, pays) =
        Paid-block_transfers (place_of v k bc block) after o a (resolve_all v k resolve 0 block.tx)
          (same.reward ∙ plain) (subst (Memᴰ o) (sym same.outputs) m) named still in
      (
        t,
        emit_block_incoming c exist t (convert_block v k bc resolve block) b watching
            (ap (λ x. str_eq x "") pays.to ∙ named_well) (ap exist pays.to ∙ watched) found,
        record { hash = pays.hash ∙ same.id; to = pays.to; amount = pays.amount },
      )
