-- ===== src/Identity/AccessToken.antt =====
-- src/domain/upstream-domains/identity/authentication: entities/access-token.entity.ts, and of
-- usecases/generate-auth-token.usecase.ts the request, the answer, the ports and the tests.
use offchain_service.Base.{
  ℕ, ◌==◌, ltb, Bool, true, false, ◌&&◌, not, Option, none, some, List, [], all, length, Text,
  codes, text_eq, Result,
}
use offchain_service.Base.Dict.{Dict}
use offchain_service.Base.Lists.{drop}
use offchain_service.Base.Texts.{starts_with}
use offchain_service.Supply.Claiming.Addresses.{is_hexadecimal}
use offchain_service.Identity.Roles.{Scopes}
use offchain_service.Identity.Throttle.{Throttle}
use offchain_service.Identity.Scopes.{role_at}
use offchain_service.Identity.Fingerprints.{Role, FingerprintPorts}
use offchain_service.Identity.AuthChallenge.{
  GrantType, erc1271, eip4361, authorization_code, refresh_token, client_credentials, password,
  SignatureData, AuthChallenge,
}

-- `GenerateTokenRequestDto`
pub record TokenRequest : Type 0 where
  pub client_id : Text
  pub chain_id : ℕ
  pub challenge_id : Text
  pub signature : Text
  pub client_ip : Text
  pub client_agent : Text

-- `AccessToken`
pub record AccessToken : Type 0 where
  pub id : Text
  pub challenge_id : Text
  pub user_identifier : Text
  pub grant_type : Option GrantType
  pub chain_id : Option ℕ
  pub roles : List Text
  pub scopes : Dict Scopes
  pub due_date : ℕ
  pub client_ip : Option Text
  pub client_agent : Option Text

-- `TokenPayload`, with the parts that are set.
pub record TokenPayload : Type 0 where
  pub id : Text
  pub sub : Text
  pub chain_id : Text
  pub roles : List Text
  pub scopes : Dict Scopes

-- The answer with a token; without one it is empty.
pub record BearerToken : Type 0 where
  pub access_token : Text
  pub token_type : Text
  pub expires_in : ℕ

-- The state of the use case, and the table `access_token`.
pub record AuthState : Type 0 where
  pub throttle : Throttle
  pub tokens : List AccessToken

-- What the use case runs with.
pub record AuthPorts : Type 0 where
  pub fingerprints : FingerprintPorts
  pub find_challenge : Text → Result (Option AuthChallenge)
  pub verify : Text → SignatureData → Text → Result Bool
  pub fetch_roles : Text → ℕ → Option (List Text) → Result (Option (List Role))
  pub create_token : AccessToken → Result AccessToken
  pub sign_jwt : TokenPayload → Result Text
  pub encode_uri : Text → Result Text
  pub new_id : Text

abbrev pub is_eip4361 : Option GrantType → Bool
is_eip4361 none = false
is_eip4361 (some eip4361) = true
is_eip4361 (some erc1271) = false
is_eip4361 (some authorization_code) = false
is_eip4361 (some refresh_token) = false
is_eip4361 (some client_credentials) = false
is_eip4361 (some password) = false

-- `getDueDate() < new Date()`
abbrev pub is_past_due : ℕ → Option ℕ → Bool
is_past_due now none = false
is_past_due now (some due) = ltb due now

-- `!==` between an optional property and a text, or a number.
abbrev pub differs : Option Text → Text → Bool
differs none t = true
differs (some s) t = not (text_eq s t)

abbrev pub differs_ℕ : Option ℕ → ℕ → Bool
differs_ℕ none k = true
differs_ℕ (some j) k = not (j == k)

-- `isValidEIP4361Signature`
unfoldable pub is_valid_eip4361_signature : Text → Bool
is_valid_eip4361_signature s =
    starts_with (codes "0x") s && (length (drop 2 s) == 130) && all is_hexadecimal (drop 2 s)

-- Whether `map(...).includes(scope)` finds the name of a role.
abbrev pub is_name_of : Text → Role → Bool
is_name_of scope r = elim (role_at r.role_type) [ none ↦ false | some name ↦ text_eq name scope ]

-- The scopes of a challenge, which are there when they are read as a list.
abbrev pub scopes_or_none : Option (List Text) → List Text
scopes_or_none none = []
scopes_or_none (some ts) = ts
