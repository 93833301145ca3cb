-- ===== src/Payments.antt =====
-- The payment backend: what the handlers and workers under backend/internal/ read and write. Postgres
-- is the tables as lists, in the order in which LIMIT 1 takes the rows; an id is a number that is not
-- used yet. `Outside` is what is not under this repository: the digest (HMAC-SHA256 in hex), the
-- decoding of JSON, and the floating-point numbers of amounts.
pub mod Chains
pub mod Receive
pub mod Ledger
pub mod Receiving
pub mod Retries
pub mod Orders
pub mod Sweeps
pub mod Redeliveries
use linq_b2b.Prelude.{ℕ, Bool, List, Option, String}
use linq_b2b.Texts.{Bytes}
use linq_b2b.Payments.Chains.{ChainType}

pub record Transfer : Type 0 where
  pub tx_hash : String
  pub network_id : String
  pub from_address : String
  pub to_address : String
  pub amount : String
  pub timestamp : ℕ

pub record Payload : Type 0 where
  pub event_id : String
  pub event_type : String
  pub business_id : String
  pub transaction : Transfer

pub record Outside : Type 1 where
  pub Amount : Type 0
  pub zero_amount : Amount
  pub parse_float : Bytes → Amount
  pub digest : Bytes → Bytes → Bytes
  pub decode : Bytes → Option Payload

-- `webhook_secret` may be NULL.
pub record BusinessRow : Type 0 where
  pub business_id : String
  pub webhook_secret : Option Bytes
  pub deleted : Bool

pub record Merchant : Type 0 where
  pub id : String
  pub business_id : String
  pub deleted : Bool

pub record PendingOrder : Type 0 where
  pub id : String
  pub merchant_address : String
  pub status : String
  pub expires_at : ℕ
  pub encrypted_private_key : Bytes

pub record Wallet : Type 0 where
  pub address : String
  pub active : Bool

module _ (o : Outside) where
  pub record Deposit : Type 0 where
    pub id : ℕ
    pub merchant_id : String
    pub business_id : String
    pub tx_hash : String
    pub network_id : String
    pub amount_raw : String
    pub amount_usdc : o.Amount
    pub sui_address : String
    pub status : String
    pub pending_order_id : Option String

  pub record OrderMessage : Type 0 where
    pub order_id : ℕ
    pub merchant_id : String
    pub chain : ChainType
    pub amount_usdc : o.Amount
    pub tx_hash : String
    pub timestamp : ℕ
    pub pending_order_id : String

  -- The tables, the cache of deposits by id, and the messages published to the order queue.
  pub record State : Type 0 where
    pub businesses : List BusinessRow
    pub merchants : List Merchant
    pub pending_orders : List PendingOrder
    pub wallets : List Wallet
    pub deposits : List Deposit
    pub next_id : ℕ
    pub cache : List (ℕ × OrderMessage)
    pub orders : List OrderMessage
