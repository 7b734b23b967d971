-- ===== src/Identity/Tokens.antt =====
-- src/domain/upstream-domains/identity/authentication/usecases/generate-auth-token.usecase.ts. One
-- reading of the clock serves a request. Log lines are left out, but for the encoding of the scopes
-- in them, which may throw.
pub mod Laws
use offchain_service.Base.{
  ℕ, ◌+◌, ◌==◌, ltb, Bool, true, false, ◌&&◌, ◌||◌, not, Option, none, some, List, [], ◌∷◌, ◌++◌,
  map, any, all, length, if◌then◌else◌, Text, codes, text_eq, Result, ok, err, ◌>>=◌, ◌>>◌,
}
use offchain_service.Base.Dict.{Dict}
use offchain_service.Base.Lists.{drop}
use offchain_service.Base.Texts.{starts_with, join}
use offchain_service.Base.Results.{and_then, type_error}
use offchain_service.Base.Numbers.{Numbers}
use offchain_service.Ledger.Sync.{Encryption}
use offchain_service.Supply.Claiming.Addresses.{is_hexadecimal}
use offchain_service.Identity.Roles.{Scopes}
use offchain_service.Identity.Throttle.{Throttle, one_day, is_banned_ip, set_failed_ip_request}
use offchain_service.Identity.Scopes.{
  ScopeError, role_at, get_raw_scopes, get_roles, validate_requested_scopes,
  get_resource_scopes_from_roles,
}
use offchain_service.Identity.Fingerprints.{Role, FingerprintPorts, resolve_roles}
use offchain_service.Identity.AuthChallenge.{
  GrantType, erc1271, eip4361, authorization_code, refresh_token, client_credentials, password,
  SignatureData, AuthChallenge, dapp_domain, is_empty_text,
}
use offchain_service.Identity.AccessToken.{
  AccessToken, AuthPorts, AuthState, BearerToken, TokenPayload, TokenRequest, differs, differs_ℕ,
  is_eip4361, is_name_of, is_past_due, is_valid_eip4361_signature, scopes_or_none,
}

module _ (n : Numbers) (ports : AuthPorts) (now : ℕ) where
  open ports use {
    fingerprints, find_challenge, verify, fetch_roles, create_token, sign_jwt, encode_uri, new_id,
  }
  open fingerprints use {show_ℕ, cipher, cbc_key}

  -- A failure of the request's address, and the empty answer.
  abbrev pub failed : TokenRequest → AuthState → AuthState
  failed r s = record s { throttle = set_failed_ip_request now r.client_ip s.throttle }

  abbrev pub fail : TokenRequest → AuthState → AuthState × Result (Option BearerToken)
  fail r s = (failed r s, ok none)

  -- `encodeURI(requestedScopes.join(' '))`
  abbrev pub encoded : Option (List Text) → Result (Unit {0})
  encoded none = err type_error
  encoded (some []) = encode_uri [] >>= λ _. ok tt
  encoded (some (t ∷ ts)) = encode_uri (join b' ' t ts) >>= λ _. ok tt

  -- A failure whose log line encodes the scopes.
  abbrev pub fail_encoded :
      TokenRequest → Option (List Text) → AuthState → AuthState × Result (Option BearerToken)
  fail_encoded r scopes s = (failed r s, encoded scopes >>= λ _. ok none)

  -- `String(authChallenge.getChainId().valueOf())`
  abbrev shown : Option ℕ → Result Text
  shown none = err type_error
  shown (some k) = ok (show_ℕ k)

  abbrev token_of : AuthChallenge → Text → List Text → AccessToken
  token_of c encrypted roles = record {
    id = new_id;
    challenge_id = c.id;
    user_identifier = encrypted;
    grant_type = c.grant_type;
    chain_id = c.chain_id;
    roles = roles;
    scopes = get_resource_scopes_from_roles roles;
    due_date = now + 3600000;
    client_ip = c.client_ip;
    client_agent = c.client_agent;
  }

  -- `generateToken` from the row of the token on.
  abbrev sign_token : AuthChallenge → Text → List Text → AccessToken → Result (Option BearerToken)
  sign_token c encrypted roles token = do
    chain ← shown c.chain_id
    token_id ← cipher.encrypt token.id (chain ++ dapp_domain) cbc_key
    jwt ← sign_jwt (record {
      id = token_id;
      sub = encrypted;
      chain_id = chain;
      roles = roles;
      scopes = get_resource_scopes_from_roles roles;
    })
    ok (some (record { access_token = jwt; token_type = codes "Bearer"; expires_in = 3600 }))

  abbrev store_token : AccessToken → AuthState → AuthState × Result AccessToken
  store_token token s = elim (create_token token) [
    | err k ↦ (s, err k)
    | ok created ↦ (record s { tokens = s.tokens ++ created ∷ [] }, ok created)
  ]

  -- `generateToken` from the validated roles on.
  unfoldable pub issue :
      TokenRequest
      → AuthChallenge
      → Text
      → List Role
      → AuthState
      → AuthState × Result (Option BearerToken)
  unfolding get_resource_scopes_from_roles role_at
  issue r c encrypted [] s = fail_encoded r (get_raw_scopes c.scope) s
  issue r c encrypted (v ∷ vs) s =
      let requested = scopes_or_none (get_raw_scopes c.scope) in
      let roles = map (λ (x : Role). x.role_type) (v ∷ vs) in
      let token = token_of c encrypted roles in
      if not (length (v ∷ vs) == length requested)
      then fail_encoded r (get_raw_scopes c.scope) s
      else if any (λ scope. not (any (is_name_of scope) (v ∷ vs))) requested
      then fail_encoded r (get_raw_scopes c.scope) s
      else and_then (store_token token s) (λ created s'. (s', sign_token c encrypted roles created))

  -- `authChallenge.getChainId()`, which has been found to be the request's.
  abbrev chain_or_zero : Option ℕ → ℕ
  chain_or_zero none = 0
  chain_or_zero (some k) = k

  -- `generateToken` from the encryption of the identifier on.
  abbrev check_owner :
      TokenRequest → AuthChallenge → AuthState → AuthState × Result (Option BearerToken)
  check_owner r c s =
      and_then (s, cipher.encrypt r.client_id (show_ℕ r.chain_id ++ dapp_domain) cbc_key)
        (λ encrypted s.
          if differs c.user_identifier encrypted
          then fail r s
          else and_then
              (
                s,
                resolve_roles fingerprints fetch_roles now encrypted (chain_or_zero c.chain_id)
                    (get_roles c.scope),
              )
              (issue r c encrypted))

  -- `generateToken` from the check of the signature on.
  unfoldable pub check_signature :
      TokenRequest → AuthChallenge → AuthState → AuthState × Result (Option BearerToken)
  unfolding issue get_roles resolve_roles
  check_signature r c s =
      and_then (s, verify r.client_id c.payload r.signature)
        (λ valid s. if valid then check_owner r c s else fail r s)

  abbrev check_scopes :
      Option ScopeError
      → TokenRequest
      → AuthChallenge
      → AuthState
      → AuthState × Result (Option BearerToken)
  check_scopes (some _) r c s = fail_encoded r (get_raw_scopes c.scope) s
  check_scopes none r c s = check_signature r c s

  -- `generateToken` on a challenge.
  unfoldable pub check_challenge :
      TokenRequest → AuthChallenge → AuthState → AuthState × Result (Option BearerToken)
  unfolding is_valid_eip4361_signature validate_requested_scopes check_signature
  check_challenge r c s =
      if not (is_eip4361 c.grant_type)
      then fail r s
      else if is_past_due now c.due_date
      then (s, ok none)
      else if differs c.client_ip r.client_ip
      then fail r s
      else if differs c.client_agent r.client_agent
      then fail r s
      else if differs_ℕ c.chain_id r.chain_id
      then fail r s
      else if is_empty_text r.signature
      then fail r s
      else if not (is_valid_eip4361_signature r.signature)
      then fail r s
      else check_scopes (validate_requested_scopes n (get_raw_scopes c.scope)) r c s

  abbrev check_found :
      TokenRequest → Option AuthChallenge → AuthState → AuthState × Result (Option BearerToken)
  check_found r none s = fail r s
  check_found r (some c) s = check_challenge r c s

  -- `generateToken`
  unfoldable pub generate_token : TokenRequest → AuthState → AuthState × Result (Option BearerToken)
  unfolding is_banned_ip check_challenge
  generate_token r s =
      if is_banned_ip now r.client_ip s.throttle
      then (s, ok none)
      else and_then (s, find_challenge r.challenge_id) (check_found r)

  abbrev caught_failure :
      TokenRequest → AuthState × Result (Option BearerToken) → AuthState × Option BearerToken
  caught_failure r (s, ok answer) = (s, answer)
  caught_failure r (s, err _) = (failed r s, none)

  -- `execute`
  unfoldable pub execute : TokenRequest → AuthState → AuthState × Option BearerToken
  unfolding generate_token
  execute r s = caught_failure r (generate_token r s)
