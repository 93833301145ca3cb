-- ===== src/Chain.antt =====
-- What the workers exchange with a chain client: indexer/internal/indexer/types.go,
-- indexer/pkg/common/types/types.go and utxo.go, indexer/pkg/common/enum/enum.go. Decimal amounts,
-- fees and free-form metadata are not modelled, but for the UTXO events that a block carries.
use linq_b2b.Prelude.{ℕ, String, List, [], ◌∷◌, Option, str_eq, if◌then◌else◌}

pub data NetworkType : Type 0 where
  evm tron btc sol apt sui cosmos ton : NetworkType

pub data Direction : Type 0 where
  unset direction_in direction_out : Direction

pub record Transaction : Type 0 where
  pub tx_hash : String
  pub network_id : String
  pub block_number : ℕ
  pub block_hash : String
  pub transfer_index : String
  pub from_address : String
  pub from_addresses : List String
  pub to_address : String
  pub asset_address : String
  pub amount : String
  pub timestamp : ℕ
  pub confirmations : ℕ
  pub status : String
  pub direction : Direction

-- `AllSenderAddresses`.
unfoldable pub all_sender_addresses : Transaction → List String
all_sender_addresses t = elim t.from_addresses [
  | a ∷ as' ↦ a ∷ as'
  | [] ↦ if str_eq t.from_address "" then [] else t.from_address ∷ []
]

pub record Utxo : Type 0 where
  pub tx_hash : String
  pub vout : ℕ
  pub address : String
  pub amount : String
  pub script_pub_key : String

pub record SpentUtxo : Type 0 where
  pub tx_hash : String
  pub vout : ℕ
  pub vin : ℕ
  pub address : String
  pub amount : String

pub record UtxoEvent : Type 0 where
  pub tx_hash : String
  pub network_id : String
  pub block_number : ℕ
  pub block_hash : String
  pub timestamp : ℕ
  pub created : List Utxo
  pub spent : List SpentUtxo
  pub tx_fee : String
  pub status : String
  pub confirmations : ℕ

-- `utxo_events` is the metadata entry of that name, where it is there and holds UTXO events.
pub record Block : Type 0 where
  pub number : ℕ
  pub hash : String
  pub parent_hash : String
  pub timestamp : ℕ
  pub transactions : List Transaction
  pub utxo_events : Option (List UtxoEvent)

pub data ErrorType : Type 0 where
  block_unmarshal block_not_found block_nil timeout unknown : ErrorType

-- The message goes to the log only.
pub record Error : Type 0 where
  pub error_type : ErrorType

pub record BlockResult : Type 0 where
  pub number : ℕ
  pub block : Option Block
  pub error : Option Error
