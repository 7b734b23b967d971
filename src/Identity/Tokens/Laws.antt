-- ===== src/Identity/Tokens/Laws.antt =====
-- How a request for a token ends.
use offchain_service.Base.{
  ℕ, ◌+◌, ◌≡◌, ◌≤◌, ◌⊎◌, inl, inr, refl, sym, ap, subst, Bool, true, false, not, Option, none, some,
  List, [], ◌∷◌, if◌then◌else◌, Text, Result, ok, err, ◌>>=◌, arith,
}
use offchain_service.Base.Dict.{lookup}
use offchain_service.Base.Results.{and_then}
use offchain_service.Base.Numbers.{Numbers}
use offchain_service.Identity.Throttle.{Failures, unused, max_failures, one_day, is_banned_ip}
use offchain_service.Identity.Throttle.Laws.{
  Bans, unused-IsGuarded, IsGuarded, set_failed_ip_request-IsGuarded,
}
use offchain_service.Identity.Scopes.{get_raw_scopes, validate_requested_scopes}
use offchain_service.Identity.Scopes.Laws.{validate_requested_scopes_refuses}
use offchain_service.Identity.AuthChallenge.{AuthChallenge, is_empty_text}
use offchain_service.Identity.AccessToken.{
  TokenRequest, AccessToken, BearerToken, AuthState, AuthPorts, is_eip4361, is_past_due, differs,
  differs_ℕ, is_valid_eip4361_signature,
}
use offchain_service.Identity.Tokens.{
  failed, fail, encoded, fail_encoded, check_scopes, check_challenge, check_found, generate_token,
  caught_failure, execute,
}

-- An outcome without a token.
abbrev IsRefusal : Result (Option BearerToken) → Type 0
IsRefusal (ok none) = Unit
IsRefusal (ok (some _)) = ⊥
IsRefusal (err _) = Unit

module _ (n : Numbers) (ports : AuthPorts) (now : ℕ) (r : TokenRequest) (s : AuthState) where
  -- No token, and one failure at most.
  abbrev Refuses : AuthState × Result (Option BearerToken) → Type 0
  Refuses x = ((x.0 ≡ s) ⊎ (x.0 ≡ failed n ports now r s)) × IsRefusal x.1

  if-Refuses :
      (b : Bool) (x y : AuthState × Result (Option BearerToken))
      → Refuses x
      → Refuses y
      → Refuses (if b then x else y)
  if-Refuses true x y p q = p
  if-Refuses false x y p q = q

  fail-Refuses : Refuses (fail n ports now r s)
  fail-Refuses = (inr refl, tt)

  fail_encoded-Refuses :
      (scopes : Option (List Text)) → Refuses (fail_encoded n ports now r scopes s)
  fail_encoded-Refuses scopes = (inr refl, refusal (encoded n ports now scopes))
    where
      refusal : (e : Result (Unit {0})) → IsRefusal (e >>= λ _. ok none)
      refusal (ok _) = tt
      refusal (err _) = tt

  check_scopes-Refuses :
      (c : AuthChallenge)
      → Refuses
          (check_scopes n ports now (validate_requested_scopes n (get_raw_scopes c.scope)) r c s)
  check_scopes-Refuses c =
      let (e, refused) = validate_requested_scopes_refuses n (get_raw_scopes c.scope) in
      subst (λ v. Refuses (check_scopes n ports now v r c s)) (sym refused)
        (fail_encoded-Refuses (get_raw_scopes c.scope))

  check_challenge-Refuses : (c : AuthChallenge) → Refuses (check_challenge n ports now r c s)
  unfolding check_challenge
  check_challenge-Refuses c = if-Refuses (not (is_eip4361 c.grant_type)) _ _ fail-Refuses (
      if-Refuses (is_past_due now c.due_date) _ _ (inl refl, tt)
        (if-Refuses (differs c.client_ip r.client_ip) _ _ fail-Refuses (
          if-Refuses (differs c.client_agent r.client_agent) _ _ fail-Refuses (
            if-Refuses (differs_ℕ c.chain_id r.chain_id) _ _ fail-Refuses (
              if-Refuses (is_empty_text r.signature) _ _ fail-Refuses (
                if-Refuses (not (is_valid_eip4361_signature r.signature)) _ _ fail-Refuses
                  (check_scopes-Refuses c)))))))

  found-Refuses :
      (found : Result (Option AuthChallenge))
      → Refuses (and_then (s, found) (check_found n ports now r))
  found-Refuses (err _) = (inl refl, tt)
  found-Refuses (ok none) = fail-Refuses
  found-Refuses (ok (some c)) = check_challenge-Refuses c

  generate_token-Refuses : Refuses (generate_token n ports now r s)
  unfolding generate_token
  generate_token-Refuses =
      if-Refuses (is_banned_ip now r.client_ip s.throttle) _ _ (inl refl, tt)
        (found-Refuses (ports.find_challenge r.challenge_id))

  -- The state is unchanged, or counts one failure of the request's address, or two.
  abbrev pub IsCounted : AuthState → Type 0
  IsCounted s' =
      (s' ≡ s)
      ⊎ (s' ≡ failed n ports now r s)
      ⊎ (s' ≡ failed n ports now r (failed n ports now r s))

  caught_failure-IsCounted :
      (x : AuthState × Result (Option BearerToken))
      → Refuses x
      → ((caught_failure n ports now r x).1 ≡ none) × IsCounted (caught_failure n ports now r x).0
  caught_failure-IsCounted (s', ok none) (inl e, _) = (refl, inl e)
  caught_failure-IsCounted (s', ok none) (inr e, _) = (refl, inr (inl e))
  caught_failure-IsCounted (s', ok (some _)) (_, never) = elim never [ ]
  caught_failure-IsCounted (s', err _) (inl e, _) = (refl, inr (inl (ap (failed n ports now r) e)))
  caught_failure-IsCounted (s', err _) (inr e, _) = (refl, inr (inr (ap (failed n ports now r) e)))

  -- No request gets a token, whatever the challenge, the roles, the signature and the other services
  -- are: the answer is empty, no token is stored, and one failure of the address or two are counted
  -- at most.
  pub execute_refuses :
      ((execute n ports now r s).1 ≡ none)
      × ((execute n ports now r s).0.tokens ≡ s.tokens)
      × IsCounted (execute n ports now r s).0
  unfolding execute
  execute_refuses =
      let (answer, counted) =
        caught_failure-IsCounted (generate_token n ports now r s) generate_token-Refuses in
      (answer, stored counted, counted)
    where
      stored : {s' : AuthState} → IsCounted s' → s'.tokens ≡ s.tokens
      stored (inl e) = ap (λ (x : AuthState). x.tokens) e
      stored (inr (inl e)) = ap (λ (x : AuthState). x.tokens) e
      stored (inr (inr e)) = ap (λ (x : AuthState). x.tokens) e

  execute-IsGuarded : IsGuarded s.throttle → IsGuarded (execute n ports now r s).0.throttle
  execute-IsGuarded g = elim (execute_refuses.2) [
    | inl e ↦ subst (λ (x : AuthState). IsGuarded x.throttle) (sym e) g
    | inr (inl e) ↦ subst (λ (x : AuthState). IsGuarded x.throttle) (sym e) once
    | inr (inr e) ↦
        subst (λ (x : AuthState). IsGuarded x.throttle) (sym e)
          (set_failed_ip_request-IsGuarded now r.client_ip (failed n ports now r s).throttle once)
  ]
    where
      once : IsGuarded (failed n ports now r s).throttle
      once = set_failed_ip_request-IsGuarded now r.client_ip s.throttle g

-- The state when the service starts, with the tokens of the table.
abbrev pub started : List AccessToken → AuthState
started tokens = record { throttle = unused; tokens = tokens }

module _ (n : Numbers) where
  -- The state after requests, each with the services and the time at which it runs.
  abbrev pub serve : List (AuthPorts × ℕ × TokenRequest) → AuthState → AuthState
  serve [] s = s
  serve ((ports, now, r) ∷ rest) s = serve rest (execute n ports now r s).0

  serve-IsGuarded :
      (requests : List (AuthPorts × ℕ × TokenRequest)) (s : AuthState)
      → IsGuarded s.throttle
      → IsGuarded (serve requests s).throttle
  serve-IsGuarded [] s g = g
  serve-IsGuarded ((ports, now, r) ∷ rest) s g =
      serve-IsGuarded rest (execute n ports now r s).0 (execute-IsGuarded n ports now r s g)

  -- From the start of the service, after any requests, each at its own time and with its own
  -- services, an address with five counted
  -- failures or more, the last of them within a day, is refused, and its request changes nothing.
  pub serve_banned :
      (requests : List (AuthPorts × ℕ × TokenRequest)) (tokens : List AccessToken)
      (ports : AuthPorts) (now : ℕ) (r : TokenRequest) (f : Failures)
      → lookup r.client_ip (serve requests (started tokens)).throttle.retries ≡ some f
      → max_failures ≤ f.count
      → now ≤ f.last_failure + one_day
      → execute n ports now r (serve requests (started tokens))
        ≡ (serve requests (started tokens), none)
  unfolding execute generate_token is_banned_ip
  serve_banned requests tokens ports now r f counted many recent =
      rw (banned counted (serve-IsGuarded requests (started tokens) unused-IsGuarded r.client_ip))
        (ground arith)
    where
      banned :
          {entry : Option Failures}
          → entry ≡ some f
          → Bans entry (lookup r.client_ip (serve requests (started tokens)).throttle.banned)
          → lookup r.client_ip (serve requests (started tokens)).throttle.banned
            ≡ some (f.last_failure + one_day)
      banned e b =
          subst (λ x. Bans x (lookup r.client_ip (serve requests (started tokens)).throttle.banned))
            e b many
