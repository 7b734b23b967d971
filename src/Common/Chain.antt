-- ===== src/Common/Chain.antt =====
-- src/domain/common/entities/chain.entity.ts and the enums that it reads.
pub mod Laws
use offchain_service.Base.{
  ℕ, Bool, true, false, ◌&&◌, ◌||◌, not, Option, none, some, List, [], ◌∷◌, ◌++◌, if◌then◌else◌,
  ◌==◌, any, Text, codes, text_eq, Error, Result, ok, err, ◌>>=◌, ◌>>◌, throw_if,
}
use offchain_service.Base.Results.{chain_undefined, network_unsupported, wrong_network}

-- `enum LayerType`
pub data LayerType : Type 0 where
  l1 l2 : LayerType

-- `enum IsoCodeType`
pub data IsoCodeType : Type 0 where
  brl eth knn usd matic : IsoCodeType

-- `enum NetworkType`
pub data NetworkType : Type 0 where
  ethereum polygon polygonzk_evm ethereum_sepolia polygon_mumbai polygonzk_evm_testnet : NetworkType

-- The number that the enum gives to a network.
unfoldable pub network_id : NetworkType → ℕ
network_id ethereum = 1
network_id polygon = 137
network_id polygonzk_evm = 1101
network_id ethereum_sepolia = 11155111
network_id polygon_mumbai = 80001
network_id polygonzk_evm_testnet = 1442

-- `Object.values(NetworkType)`, of which a number meets the numbers only.
abbrev pub networks : List NetworkType
networks =
    ethereum ∷ polygon ∷ polygonzk_evm ∷ ethereum_sepolia ∷ polygon_mumbai ∷ polygonzk_evm_testnet
    ∷ []

-- The network that a number stands for.
abbrev find_network : ℕ → List NetworkType → Option NetworkType
find_network id [] = none
find_network id (n ∷ ns) = if network_id n == id then some n else find_network id ns

-- `networkLayer`
unfoldable pub layer : NetworkType → LayerType
layer ethereum = l1
layer polygon = l2
layer polygonzk_evm = l1
layer ethereum_sepolia = l1
layer polygon_mumbai = l2
layer polygonzk_evm_testnet = l2

-- `networkCurrency`
unfoldable pub currency : NetworkType → IsoCodeType
currency ethereum = eth
currency polygon = matic
currency polygonzk_evm = eth
currency ethereum_sepolia = eth
currency polygon_mumbai = matic
currency polygonzk_evm_testnet = eth

-- `isTestnet`: whether the list `testnets` holds the network.
unfoldable pub is_testnet : NetworkType → Bool
is_testnet ethereum_sepolia = true
is_testnet polygon_mumbai = true
is_testnet _ = false

-- The part of `process.env` that the class reads.
pub record Environment : Type 0 where
  pub node_env : Text
  pub allow_debug_prod : Bool  -- `ALLOW_DEBUG_PROD === 'true'`

unfoldable pub is_production : Environment → Bool
is_production env = text_eq env.node_env (codes "production")

-- The condition under which the constructor lets a known network pass.
unfoldable pub is_targetable : Environment → NetworkType → Bool
unfolding is_testnet is_production
is_targetable env n =
    let production_to_mainnet = is_production env && not (is_testnet n) in
    let development_to_testnet =
      (text_eq env.node_env (codes "development") || text_eq env.node_env (codes "test"))
      && is_testnet n in
    production_to_mainnet || development_to_testnet || env.allow_debug_prod

-- The check of a number that names a network.
abbrev target : Environment → Option NetworkType → Result NetworkType
target env none = err network_unsupported
target env (some n) = if is_targetable env n then ok n else err wrong_network

-- `new Chain(chainId)`; a chain is the network that its number stands for.
unfoldable pub new_chain : Environment → ℕ → Result NetworkType
unfolding network_id
new_chain env chain_id = do
  throw_if (chain_id == 0) chain_undefined
  target env (find_network chain_id networks)

-- `getBlockExplorerUrl`
unfoldable pub get_block_explorer_url : Environment → NetworkType → Text → Text
unfolding layer is_production
get_block_explorer_url env n txn_hash =
    let (test_host, site) = sites (layer n) in
    codes "https://" ++ (if is_production env then [] else test_host) ++ site ++ txn_hash
  where
    sites : LayerType → Text × Text
    sites l1 = (codes "sepolia.", codes "etherscan.io/tx/")
    sites l2 = (codes "mumbai.", codes "polygonscan.com/tx/")
