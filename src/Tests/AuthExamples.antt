-- ===== src/Tests/AuthExamples.antt =====
-- The properties of authentication at one wallet, one role and one address.
use offchain_service.Base.{
  ℕ, ◌+◌, ◌*◌, ◌≡◌, ◌↔◌, refl, true, false, Option, none, some, List, [], ◌∷◌, ◌++◌, Text, codes,
  Result, ok, arith,
}
use offchain_service.Common.Chain.{ethereum, new_chain, is_targetable}
use offchain_service.Base.Lists.{IsOneOf, replicate}
use offchain_service.Identity.Throttle.{is_banned_ip, set_failed_ip_request}
use offchain_service.Identity.Fingerprints.{
  Role, FingerprintPorts, expected_fingerprint, resolve_roles,
}
use offchain_service.Identity.Fingerprints.Laws.{has_expired, IsExpected, resolve_roles_iff}
use offchain_service.Identity.Challenges
use offchain_service.Identity.AuthChallenge.{
  AuthChallenge, authorization_code, eip4361, dapp_domain, find_by_challenge_id,
}
use offchain_service.Identity.Challenges.{
  ChallengeRequest, ChallengeResponse, ChallengePorts, validate_request, get_signature_data,
  prepare_challenge, generate, signature_data_of,
}
use offchain_service.Identity.Challenges.Laws.{Issues, execute-Issues, execute-found}
use offchain_service.Identity.AccessToken.{TokenRequest, AuthPorts}
use offchain_service.Identity.Tokens.{generate_token, execute}
use offchain_service.Identity.Tokens.Laws.{IsCounted, execute_refuses, serve, started, serve_banned}
use offchain_service.Tests.Instances.{numbers, plain, unary}

abbrev wallet : Text
wallet = codes "0x00000000000000000000000000000000000000aA"

abbrev challenge_request : ChallengeRequest
challenge_request = record {
  uri = codes "https://dapp.kannacoin.io/auth";
  client_id = wallet;
  chain_id = 1;
  grant_type = authorization_code;
  scope = codes "0x1a4";
  client_ip = codes "10.0.0.1";
  client_agent = codes "agent";
}

abbrev challenge_ports : ChallengePorts
challenge_ports = record {
  environment = record { node_env = codes "production"; allow_debug_prod = false };
  now = 200;
  issued_at = codes "2024-01-20T00:00:00Z";
  show_ℕ = unary;
  hostname = λ t. ok dapp_domain;
  random_nonce = codes "0x0123456789abcdef";
  cipher = plain;
  cbc_key = codes "k";
  new_id = codes "c1";
  is_up = true;
}

execute-Issues_example :
    Issues challenge_ports challenge_request []
      (Challenges.execute challenge_ports challenge_request [])
execute-Issues_example = execute-Issues challenge_ports challenge_request []

execute-found_example :
    (c : AuthChallenge) × (find_by_challenge_id true
        (Challenges.execute challenge_ports challenge_request []).0
        (codes "c1")
      ≡ ok (some c))
    × (c.grant_type ≡ some eip4361)
    × (c.due_date ≡ some (200 + 24 * 60 * 60 * 1000))
    × (c.payload ≡ signature_data_of challenge_ports challenge_request ethereum)
unfolding Challenges.execute new_chain is_targetable
execute-found_example = execute-found challenge_ports challenge_request [] refl refl

abbrev challenge : AuthChallenge
challenge = record {
  id = codes "c1";
  user_identifier = some wallet;
  grant_type = some eip4361;
  chain_id = some 1;
  payload = record {
    domain = dapp_domain;
    address = wallet;
    statement = codes "Sign-in";
    uri = codes "https://dapp.kannacoin.io/auth";
    version = codes "1";
    chain_id = 1;
    nonce = codes "23456789ABCDEF";
    issued_at = codes "2024-01-20T00:00:00Z";
  };
  uri = codes "https://dapp.kannacoin.io/auth";
  nonce = codes "23456789ABCDEF";
  scope = some (codes "0x1a4");
  due_date = some 900;
  client_ip = some (codes "10.0.0.1");
  client_agent = some (codes "agent");
}

abbrev fingerprint_ports : FingerprintPorts
fingerprint_ports = record { show_ℕ = unary; cipher = plain; cbc_key = codes "k" }

-- A role whose fingerprint is the one that is expected, as the cipher hides nothing.
abbrev holder_role : Role
holder_role = record {
  id = codes "r1";
  fingerprint = codes "w|1|h|s|e";
  user_identifier = codes "w";
  transaction_hash = codes "h";
  block_number = 7;
  chain_id = 1;
  role_type = codes "0x1a4";
  source_address = codes "s";
  event_type = codes "e";
  expires_at = some 900;
}

abbrev expired_role : Role
expired_role = record holder_role { id = codes "r2"; expires_at = some 100 }

abbrev fetch : List Role → Text → ℕ → Option (List Text) → Result (Option (List Role))
fetch roles identifier chain_id scopes = ok (some roles)

resolve_roles_iff_example :
    (has_expired 200 (holder_role ∷ []) ≡ false)
    × ((r : Role)
        → IsOneOf r (holder_role ∷ []) ↔ (
            IsOneOf r (holder_role ∷ [])
            × IsExpected fingerprint_ports r.fingerprint (holder_role ∷ [])))
unfolding resolve_roles expected_fingerprint
resolve_roles_iff_example =
    resolve_roles_iff fingerprint_ports (fetch (holder_role ∷ [])) 200 wallet 1 none
      (holder_role ∷ []) refl (holder_role ∷ []) refl

abbrev token_request : TokenRequest
token_request = record {
  client_id = wallet;
  chain_id = 1;
  challenge_id = codes "c1";
  signature = codes "0x" ++ replicate 130 b'a';
  client_ip = codes "10.0.0.1";
  client_agent = codes "agent";
}

abbrev auth_ports : Option AuthChallenge → AuthPorts
auth_ports found = record {
  fingerprints = fingerprint_ports;
  find_challenge = λ id. ok found;
  verify = λ client payload signature. ok true;
  fetch_roles = fetch (holder_role ∷ []);
  create_token = λ token. ok token;
  sign_jwt = λ payload. ok (codes "jwt");
  encode_uri = λ t. ok t;
  new_id = codes "t1";
}

execute_refuses_example :
    ((execute numbers (auth_ports (some challenge)) 200 token_request (started [])).1 ≡ none)
    × ((execute numbers (auth_ports (some challenge)) 200 token_request (started [])).0.tokens ≡ [])
    × IsCounted numbers
        (auth_ports (some challenge))
        200
        token_request
        (started [])
        (execute numbers (auth_ports (some challenge)) 200 token_request (started [])).0
execute_refuses_example =
    execute_refuses numbers (auth_ports (some challenge)) 200 token_request (started [])

abbrev attempt : ℕ → AuthPorts × ℕ × TokenRequest
attempt now = (auth_ports none, now, token_request)

-- Five requests that name no challenge.
abbrev attempts : List (AuthPorts × ℕ × TokenRequest)
attempts = attempt 1 ∷ attempt 2 ∷ attempt 3 ∷ attempt 4 ∷ attempt 5 ∷ []

serve_banned_example :
    execute numbers
      (auth_ports (some challenge))
      200
      token_request
      (serve numbers attempts (started []))
    ≡ (serve numbers attempts (started []), none)
unfolding execute generate_token is_banned_ip set_failed_ip_request
serve_banned_example =
    serve_banned numbers attempts [] (auth_ports (some challenge)) 200 token_request
      (record { count = 5; last_failure = 5 }) refl (omega arith) (omega arith)
