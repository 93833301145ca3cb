-- ===== src/Bitcoin/Extraction.antt =====
-- indexer/internal/indexer/bitcoin.go: what is taken from one transaction. A transfer stands behind its
-- fee, which the record of a transaction does not hold.
use Prim.Native.String.{◌++◌ as str_append}
use linq_b2b.Prelude.{
  ℕ, zero, suc, ◌/◌, ◌%◌, Bool, true, false, ◌||◌, List, [], ◌∷◌, ◌++◌, Option, none, some, String,
  str_eq, ltb, leb, ◌==◌, if◌then◌else◌, add64, sub64,
}
use linq_b2b.Chain.{Transaction, unset, Utxo, SpentUtxo, UtxoEvent}
use linq_b2b.Bitcoin.{
  Numbers, Output, Input, BtcTransaction, is_coinbase, calculate_fee, get_output_addresses,
  get_input_address, first_or_empty, satoshis_from_float,
}
use linq_b2b.Bitcoin.Addresses.{Codecs, normal_or_same}

-- calculateConfirmations; block 0 stands for the mempool.
unfoldable pub calculate_confirmations : ℕ → ℕ → ℕ
calculate_confirmations block_number latest =
    if block_number == 0
    then 0
    else if leb block_number latest
    then add64 (sub64 latest block_number) 1
    else 0

unfoldable pub status_of_confirmations : ℕ → String
status_of_confirmations n = if ltb 0 n then "confirmed" else "pending"

-- The character at a position, as a text.
digit_at : String → ℕ → String
digit_at String.[] n = ""
digit_at (String.◌∷◌ c s) zero = String.◌∷◌ c ""
digit_at (String.◌∷◌ c s) (suc n) = digit_at s n

digit_text : ℕ → String
unfolding digit_at
digit_text n = digit_at "0123456789" n

number_loop : ℕ → ℕ → String → String
unfolding digit_text
number_loop zero n out = str_append (digit_text n) out
number_loop (suc fuel) n out =
    let rest = number_loop fuel (n / 10) (str_append (digit_text (n % 10)) out) in
    if ltb n 10 then str_append (digit_text n) out else rest

-- `%d:%d`; the fuel of a number is the number.
unfoldable pub transfer_index : ℕ → ℕ → String
unfolding number_loop
transfer_index vout addr =
    str_append (number_loop vout vout "") (str_append ":" (number_loop addr addr ""))

unfoldable pub listed : String → List String → Bool
listed a [] = false
listed a (b ∷ bs) = str_eq b a || listed a bs

-- Where a transaction stands.
pub record Place : Type 0 where
  pub network_id : String
  pub block_hash : String
  pub block_number : ℕ
  pub timestamp : ℕ
  pub latest_block : ℕ

module _ (v : Numbers) (k : Codecs) where
  -- The loop of getAllInputAddresses; `seen` holds the addresses that were found.
  unfoldable pub input_addresses : List (Input v) → List String → List String
  unfolding listed
  input_addresses [] seen = []
  input_addresses (i ∷ is') seen =
      let raw = get_input_address v i in
      let addr = normal_or_same k raw in
      let skipped = input_addresses is' seen in
      let taken = input_addresses is' (addr ∷ seen) in
      if str_eq raw "" then skipped else if listed addr seen then skipped else addr ∷ taken

  unfoldable pub get_all_input_addresses : BtcTransaction v → List String
  unfolding input_addresses
  get_all_input_addresses tx = input_addresses tx.vin []

  -- The transfers to the addresses of one output, from number `addr` on.
  unfoldable pub output_transfers :
      Place
      → BtcTransaction v
      → v.Decimal
      → String
      → ℕ
      → ℕ
      → List String
      → List (v.Decimal × Transaction)
  unfolding calculate_confirmations status_of_confirmations transfer_index get_all_input_addresses
      first_or_empty
  output_transfers p tx fee amount vout addr [] = []
  output_transfers p tx fee amount vout addr (to ∷ rest) =
      let confirmations = calculate_confirmations p.block_number p.latest_block in
      let from = get_all_input_addresses tx in
      (
        fee,
        record {
          tx_hash = tx.tx_id;
          network_id = p.network_id;
          block_number = p.block_number;
          block_hash = p.block_hash;
          transfer_index = transfer_index vout addr;
          from_address = first_or_empty from;
          from_addresses = from;
          to_address = normal_or_same k to;
          asset_address = "";
          amount = amount;
          timestamp = p.timestamp;
          confirmations = confirmations;
          status = status_of_confirmations confirmations;
          direction = unset;
        },
      )
      ∷ output_transfers p tx fee amount vout (suc addr) rest

  abbrev pub is_nil : List String → Bool
  is_nil [] = true
  is_nil (a ∷ as') = false

  -- The outputs from number `vout` on; the fee goes to the first one with an address.
  unfoldable pub outputs_transfers :
      Place → BtcTransaction v → Bool → ℕ → List (Output v) → List (v.Decimal × Transaction)
  unfolding output_transfers
  outputs_transfers p tx fee_assigned vout [] = []
  outputs_transfers p tx fee_assigned vout (o ∷ os) =
      let addrs = get_output_addresses v o in
      let fee = if fee_assigned then v.zero else calculate_fee v tx in
      let skipped = outputs_transfers p tx fee_assigned (suc vout) os in
      let rest = outputs_transfers p tx true (suc vout) os in
      if is_nil addrs
      then skipped
      else output_transfers p tx fee (satoshis_from_float v o.value) vout 0 addrs ++ rest

  unfoldable pub extract_transfers_from_tx :
      Place → BtcTransaction v → List (v.Decimal × Transaction)
  unfolding outputs_transfers
  extract_transfers_from_tx p tx =
      if is_coinbase v tx then [] else outputs_transfers p tx false 0 tx.vout

  unfoldable pub created_at : String → ℕ → Output v → List String → List Utxo
  created_at tx_id vout o [] = []
  created_at tx_id vout o (a ∷ as') =
      record {
        tx_hash = tx_id;
        vout = vout;
        address = normal_or_same k a;
        amount = satoshis_from_float v o.value;
        script_pub_key = o.script_pub_key.hex;
      }
      ∷ created_at tx_id vout o as'

  -- A uint32 holds every position of an output and of an input.
  unfoldable pub created_utxos : String → ℕ → List (Output v) → List Utxo
  unfolding created_at
  created_utxos tx_id vout [] = []
  created_utxos tx_id vout (o ∷ os) =
      created_at tx_id vout o (get_output_addresses v o) ++ created_utxos tx_id (suc vout) os

  unfoldable pub spent_utxos : ℕ → List (Input v) → List SpentUtxo
  spent_utxos vin [] = []
  spent_utxos vin (i ∷ is') =
      let rest = spent_utxos (suc vin) is' in
      let raw = get_input_address v i in
      elim i.prev_out [
        | none ↦ rest
        | some o ↦
            if str_eq raw ""
            then rest
            else record {
              tx_hash = i.tx_id;
              vout = i.vout;
              vin = vin;
              address = normal_or_same k raw;
              amount = satoshis_from_float v o.value;
            }
              ∷ rest
      ]

  utxo_event : Place → BtcTransaction v → List Utxo → List SpentUtxo → Option UtxoEvent
  unfolding calculate_confirmations status_of_confirmations
  utxo_event p tx [] [] = none
  utxo_event p tx created spent =
      let confirmations = calculate_confirmations p.block_number p.latest_block in
      some (record {
        tx_hash = tx.tx_id;
        network_id = p.network_id;
        block_number = p.block_number;
        block_hash = p.block_hash;
        timestamp = p.timestamp;
        created = created;
        spent = spent;
        tx_fee = v.to_string (calculate_fee v tx);
        status = status_of_confirmations confirmations;
        confirmations = confirmations;
      })

  unfoldable pub extract_utxo_event : Place → BtcTransaction v → Option UtxoEvent
  unfolding created_utxos spent_utxos utxo_event
  extract_utxo_event p tx =
      if is_coinbase v tx
      then none
      else utxo_event p tx (created_utxos tx.tx_id 0 tx.vout) (spent_utxos 0 tx.vin)
