-- ===== src/Bitcoin.antt =====
-- The Bitcoin client of the workers: indexer/internal/indexer/bitcoin.go, and types.go and tx.go of
-- indexer/internal/rpc/bitcoin/. Floating-point values and decimals are parameters, by the operations that
-- the code calls. The node is reached through the failover; what it answers is an argument.
pub mod Addresses
pub mod Extraction
pub mod Blocks
pub mod Inputs
pub mod Resolving
pub mod Incoming
pub mod Ranges
use linq_b2b.Prelude.{
  ℕ, Bool, true, false, ◌&&◌, List, [], ◌∷◌, Option, none, some, String, str_eq, if◌then◌else◌,
}

pub record Numbers : Type 1 where
  pub Float : Type 0
  pub Decimal : Type 0
  pub zero : Decimal
  pub from_float : Float → Decimal
  pub from_int : ℕ → Decimal
  pub from_string : String → Decimal
  pub add : Decimal → Decimal → Decimal
  pub sub : Decimal → Decimal → Decimal
  pub mul : Decimal → Decimal → Decimal
  pub is_negative : Decimal → Bool
  pub to_string : Decimal → String
  pub int_part_text : Decimal → String
  pub fixed_8 : Float → String

pub record ScriptPubKey : Type 0 where
  pub hex : String
  pub address : String
  pub addresses : List String

unfoldable pub first_or_empty : List String → String
first_or_empty [] = ""
first_or_empty (a ∷ as') = a

module _ (v : Numbers) where
  pub record Output : Type 0 where
    pub value : v.Float
    pub script_pub_key : ScriptPubKey

  pub record Input : Type 0 where
    pub tx_id : String
    pub vout : ℕ
    pub prev_out : Option Output

  pub record BtcTransaction : Type 0 where
    pub tx_id : String
    pub vin : List Input
    pub vout : List Output

  pub record BtcBlock : Type 0 where
    pub hash : String
    pub height : ℕ
    pub previous_block_hash : String
    pub time : ℕ
    pub tx : List BtcTransaction
    pub confirmations : ℕ

  -- IsCoinbase, on the inputs.
  unfoldable pub coinbase_inputs : List Input → Bool
  coinbase_inputs [] = false
  coinbase_inputs (i ∷ []) = str_eq i.tx_id ""
  coinbase_inputs (i ∷ j ∷ rest) = false

  unfoldable pub is_coinbase : BtcTransaction → Bool
  unfolding coinbase_inputs
  is_coinbase tx = coinbase_inputs tx.vin

  unfoldable pub total_input : v.Decimal → List Input → v.Decimal
  total_input total [] = total
  total_input total (i ∷ is') =
      total_input (elim i.prev_out [ none ↦ total | some o ↦ v.add total (v.from_float o.value) ])
        is'

  unfoldable pub total_output : v.Decimal → List Output → v.Decimal
  total_output total [] = total
  total_output total (o ∷ os) = total_output (v.add total (v.from_float o.value)) os

  -- An invalid transaction, with a negative fee, has the fee zero.
  unfoldable pub calculate_fee : BtcTransaction → v.Decimal
  unfolding total_input total_output
  calculate_fee tx =
      let fee = v.sub (total_input v.zero tx.vin) (total_output v.zero tx.vout) in
      if v.is_negative fee then v.zero else fee

  unfoldable pub get_output_addresses : Output → List String
  get_output_addresses o =
      if str_eq o.script_pub_key.address ""
      then o.script_pub_key.addresses
      else o.script_pub_key.address ∷ []

  unfoldable pub get_output_address : Output → String
  unfolding first_or_empty
  get_output_address o =
      if str_eq o.script_pub_key.address ""
      then first_or_empty o.script_pub_key.addresses
      else o.script_pub_key.address

  unfoldable pub get_input_address : Input → String
  unfolding get_output_address
  get_input_address i = elim i.prev_out [ none ↦ "" | some o ↦ get_output_address o ]

  unfoldable pub satoshis_from_float : v.Float → String
  satoshis_from_float value =
      v.int_part_text (v.mul (v.from_string (v.fixed_8 value)) (v.from_int 100000000))
