-- ===== src/Identity/AuthChallenge.antt =====
-- src/domain/upstream-domains/identity/authentication/entities/auth-challenge.entity.ts, and the
-- table `auth_challenge` of src/infrastructure/repositories/offchain/upstream-domains/identity.
use offchain_service.Base.{
  ℕ, Bool, true, false, Option, none, some, List, [], ◌∷◌, ◌++◌, if◌then◌else◌, Text, codes,
  text_eq, Result, ok, err,
}
use offchain_service.Base.Results.{database_failed}
use offchain_service.Common.Chain.{
  LayerType, l1, l2, NetworkType, ethereum, polygon, polygonzk_evm, ethereum_sepolia,
  polygon_mumbai, polygonzk_evm_testnet,
}

-- `GrantType`
pub data GrantType : Type 0 where
  erc1271 eip4361 authorization_code refresh_token client_credentials password : GrantType

-- `AuthChallengeSignatureData`
pub record SignatureData : Type 0 where
  pub domain : Text
  pub address : Text
  pub statement : Text
  pub uri : Text
  pub version : Text
  pub chain_id : ℕ
  pub nonce : Text
  pub issued_at : Text

-- `AuthChallenge`; a property that was not set is none. Its time of creation is not kept.
pub record AuthChallenge : Type 0 where
  pub id : Text
  pub user_identifier : Option Text
  pub grant_type : Option GrantType
  pub chain_id : Option ℕ
  pub payload : SignatureData
  pub uri : Text
  pub nonce : Text
  pub scope : Option Text
  pub due_date : Option ℕ
  pub client_ip : Option Text
  pub client_agent : Option Text

-- `DAPP_DOMAIN`
abbrev pub dapp_domain : Text
dapp_domain = codes "dapp.kannacoin.io"

-- `NetworkType[id]`
unfoldable pub network_name : NetworkType → Text
network_name ethereum = codes "Ethereum"
network_name polygon = codes "Polygon"
network_name polygonzk_evm = codes "PolygonzkEVM"
network_name ethereum_sepolia = codes "EthereumSepolia"
network_name polygon_mumbai = codes "PolygonMumbai"
network_name polygonzk_evm_testnet = codes "PolygonzkEVMTestnet"

abbrev pub layer_note : LayerType → Text
layer_note l1 = []
layer_note l2 = codes " (Layer 2)"

abbrev pub is_empty_text : Text → Bool
is_empty_text [] = true
is_empty_text (_ ∷ _) = false

-- `parseRow` of the mapper reads the snake-case names of the columns, where the connection gives
-- them in camel case (src/infrastructure/repositories/offchain/knex-postgres.config.ts): only the
-- properties with one word are set.
abbrev pub parse_row : AuthChallenge → AuthChallenge
parse_row row = record row {
  user_identifier = none;
  grant_type = none;
  chain_id = none;
  due_date = none;
  client_ip = none;
  client_agent = none;
}

-- `PersistableAuthChallengeDbAdapter.create`: `parseEntity` copies all properties, so the row is the
-- challenge.
abbrev pub insert_challenge :
    Bool → AuthChallenge → List AuthChallenge → List AuthChallenge × Result AuthChallenge
insert_challenge true c rows = (rows ++ c ∷ [], ok (parse_row c))
insert_challenge false c rows = (rows, err database_failed)

-- Here the row itself is taken for the properties, whose names are those in camel case.
abbrev pub find_row : Text → List AuthChallenge → Option AuthChallenge
find_row id [] = none
find_row id (row ∷ rows) =
    let rest = find_row id rows in if text_eq row.id id then some row else rest

-- `FetchableAuthChallengeDbAdapter.findByChallengeId`
unfoldable pub find_by_challenge_id :
    Bool → List AuthChallenge → Text → Result (Option AuthChallenge)
find_by_challenge_id false rows id = err database_failed
find_by_challenge_id true rows id = ok (find_row id rows)
