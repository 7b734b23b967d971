-- ===== src/Identity/Challenges.antt =====
-- src/domain/upstream-domains/identity/authentication/usecases/generate-auth-challenge.usecase.ts.
pub mod Laws
use offchain_service.Base.{
  ℕ, ◌+◌, ◌-◌, ◌==◌, leb, Bool, true, false, ◌&&◌, ◌||◌, not, Option, none, some, List, [], ◌∷◌,
  ◌++◌, map, any, all, if◌then◌else◌, Text, codes, text_eq, Result, ok, err, ◌>>=◌, ◌>>◌, throw_if,
}
use offchain_service.Base.Lists.{take, drop}
use offchain_service.Base.Results.{
  and_then, missing_client_id, invalid_client_id, missing_chain, invalid_chain, missing_scope,
  invalid_scope, invalid_uri, database_failed,
}
use offchain_service.Common.Chain.{
  LayerType, l1, l2, NetworkType, ethereum, polygon, polygonzk_evm, ethereum_sepolia,
  polygon_mumbai, polygonzk_evm_testnet, network_id, layer, Environment, new_chain,
}
use offchain_service.Ledger.Sync.{Encryption}
use offchain_service.Supply.Claiming.Addresses.{is_between, is_alphanumeric, is_wallet}
use offchain_service.Identity.Throttle.{one_day}
use offchain_service.Identity.AuthChallenge.{
  AuthChallenge, GrantType, SignatureData, dapp_domain, eip4361, insert_challenge, is_empty_text,
  layer_note, network_name,
}

-- `CreateAuthChallengeDto`
pub record ChallengeRequest : Type 0 where
  pub uri : Text
  pub client_id : Text
  pub chain_id : ℕ
  pub grant_type : GrantType
  pub scope : Text
  pub client_ip : Text
  pub client_agent : Text

-- `AuthChallengeResponseDto`
pub record ChallengeResponse : Type 0 where
  pub challenge_id : Text
  pub signature_data : SignatureData
  pub grant_type : Option GrantType
  pub network : Text

-- What the use case runs with: `hostname` is that of the URL that a text stands for, if it is one.
pub record ChallengePorts : Type 0 where
  pub environment : Environment
  pub now : ℕ
  pub issued_at : Text
  pub show_ℕ : ℕ → Text
  pub hostname : Text → Result Text
  pub random_nonce : Text
  pub cipher : Encryption
  pub cbc_key : Text
  pub new_id : Text
  pub is_up : Bool

-- The characters of a scope.
abbrev is_scope_character : ℕ → Bool
is_scope_character c = is_alphanumeric c || any (λ d. d == c) (codes "_-:,.")

-- `toUpperCase`, on the digits of a hexadecimal number.
abbrev upper_letter : ℕ → ℕ
upper_letter c = if is_between b'a' b'z' c then c - 32 else c

-- The `try` block on the URI.
abbrev validate_host : Result Text → Result (Unit {0})
validate_host (err _) = err invalid_uri
validate_host (ok host) = throw_if (not (text_eq dapp_domain host)) invalid_uri

module _ (ports : ChallengePorts) where
  open ports use {
    environment, now, issued_at, show_ℕ, hostname, random_nonce, cipher, cbc_key, new_id, is_up,
  }

  -- `validateRequest`
  unfoldable pub validate_request : ChallengeRequest → Result (Unit {0})
  unfolding network_id
  validate_request r = do
    throw_if (is_empty_text r.client_id) missing_client_id
    throw_if (not (is_wallet r.client_id)) invalid_client_id
    throw_if (r.chain_id == 0) missing_chain
    chain ← new_chain environment r.chain_id
    throw_if (not (network_id chain == r.chain_id)) invalid_chain
    throw_if (is_empty_text r.scope) missing_scope
    throw_if (not (all is_scope_character r.scope)) invalid_scope
    validate_host (hostname r.uri)

  -- `getSignatureData`
  unfoldable pub get_signature_data : Text → Text → NetworkType → Text → SignatureData
  unfolding network_id layer network_name
  get_signature_data client nonce chain uri = record {
    domain = dapp_domain;
    address = client;
    statement =
        codes "Sign-in with "
        ++ network_name chain
        ++ layer_note (layer chain)
        ++ codes " to "
        ++ dapp_domain
        ++ codes " with "
        ++ client
        ++ codes " at nonce #"
        ++ nonce
        ++ codes "."
        ++ 10 ∷ codes "Protocol: EIP-4361"
        ++ 10 ∷ codes "Scope: Identity Verification";
    uri = uri;
    version = codes "1";
    chain_id = network_id chain;
    nonce = nonce;
    issued_at = issued_at;
  }

  -- `randomuint256`
  abbrev pub challenge_nonce : Text
  challenge_nonce = map upper_letter (take 14 (drop 2 random_nonce))

  abbrev pub signature_data_of : ChallengeRequest → NetworkType → SignatureData
  signature_data_of r chain = get_signature_data r.client_id challenge_nonce chain r.uri

  -- `new AuthChallenge(…)`
  abbrev pub challenge_of : ChallengeRequest → NetworkType → Text → AuthChallenge
  challenge_of r chain encrypted = record {
    id = new_id;
    user_identifier = some encrypted;
    grant_type = some eip4361;
    chain_id = some r.chain_id;
    payload = signature_data_of r chain;
    uri = (signature_data_of r chain).uri;
    nonce = challenge_nonce;
    scope = some r.scope;
    due_date = some (now + one_day);
    client_ip = some r.client_ip;
    client_agent = some r.client_agent;
  }

  -- `generate` up to the row
  unfoldable pub prepare_challenge : ChallengeRequest → Result (AuthChallenge × NetworkType)
  unfolding validate_request get_signature_data
  prepare_challenge r = do
    validate_request r
    chain ← new_chain environment r.chain_id
    encrypted ←
        cipher.encrypt r.client_id (show_ℕ (network_id chain) ++ (signature_data_of r chain).domain)
          cbc_key
    ok (challenge_of r chain encrypted, chain)

  abbrev pub store_challenge :
      Result (AuthChallenge × NetworkType)
      → List AuthChallenge
      → List AuthChallenge × Result (AuthChallenge × NetworkType)
  store_challenge (err k) rows = (rows, err k)
  store_challenge (ok (c, chain)) rows =
      and_then (insert_challenge is_up c rows) (λ created rows'. (rows', ok (created, chain)))

  -- `generate`
  unfoldable pub generate :
      ChallengeRequest
      → List AuthChallenge
      → List AuthChallenge × Result (AuthChallenge × NetworkType)
  unfolding prepare_challenge
  generate r rows = store_challenge (prepare_challenge r) rows

  abbrev respond : Result (AuthChallenge × NetworkType) → Option ChallengeResponse
  respond (err _) = none
  respond (ok (c, chain)) = some (record {
    challenge_id = c.id;
    signature_data = c.payload;
    grant_type = c.grant_type;
    network = network_name chain;
  })

  -- `execute`; where it throws, the answer is empty.
  unfoldable pub execute :
      ChallengeRequest → List AuthChallenge → List AuthChallenge × Option ChallengeResponse
  unfolding generate network_name
  execute r rows = let (rows', result) = generate r rows in (rows', respond result)
