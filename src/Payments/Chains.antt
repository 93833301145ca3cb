-- ===== src/Payments/Chains.antt =====
-- backend/internal/queue/model.go and chain_publishers.go, and the routing of
-- backend/internal/workers/b2b_order_worker.go: chains, their names and their
-- queues.
use linq_b2b.Prelude.{Bool, false, ◌||◌, List, [], ◌∷◌, Option, none, some, String, if◌then◌else◌}
use linq_b2b.Texts.{Bytes, codes, bytes_eq, trim_space, to_lower}

pub data ChainType : Type 0 where
  sui solana base : ChainType
  other : String → ChainType

abbrev main_queue_name : String
main_queue_name = "b2b-order-queue"

unfoldable pub is_any : Bytes → List String → Bool
is_any s [] = false
is_any s (n ∷ ns) = bytes_eq s (codes n) || is_any s ns

abbrev sui_names : List String
sui_names = "sui" ∷ "sui:mainnet" ∷ "sui:testnet" ∷ "sui:devnet" ∷ []

abbrev solana_names : List String
solana_names =
    "solana" ∷ "sol" ∷ "solana:mainnet" ∷ "solana:mainnet-beta" ∷ "solana:devnet" ∷ "solana:testnet"
    ∷ []

abbrev base_names : List String
base_names = "base" ∷ "base:mainnet" ∷ "base:mainnet-beta" ∷ "base:sepolia" ∷ []

unfoldable pub parse_chain : Bytes → Option ChainType
unfolding trim_space to_lower is_any
parse_chain id =
    let name = to_lower (trim_space id) in
    if is_any name sui_names
    then some sui
    else if is_any name solana_names
    then some solana
    else if is_any name base_names
    then some base
    else none

-- `none` is the error for a chain without a queue.
unfoldable pub route_to_chain_queue : ChainType → Option String
route_to_chain_queue sui = some "b2b-sui-treasury-queue"
route_to_chain_queue solana = some "b2b-solana-treasury-queue"
route_to_chain_queue base = some "b2b-base-treasury-queue"
route_to_chain_queue (other name) = none

unfoldable pub chain_dlq_name : ChainType → Option String
chain_dlq_name sui = some "b2b-sui-dlq"
chain_dlq_name solana = some "b2b-solana-dlq"
chain_dlq_name base = some "b2b-base-dlq"
chain_dlq_name (other name) = none
