-- ===== src/Identity/Challenges/Laws.antt =====
-- Which challenges are issued.
use offchain_service.Base.{
  ◌+◌, ◌*◌, ◌≡◌, refl, sym, ap, subst, Bool, true, false, not, Option, none, some, List, [], ◌∷◌,
  ◌++◌, Text, text_eq, text_eq_iff, text_eq_refl, Bool-cases, inl, inr, ◌∙◌, Result, ok, err,
  throw_if, bind-ok, then-ok, ok_injective, all, ◌==◌, arith,
}
use offchain_service.Base.Results.{
  and_then, missing_client_id, invalid_client_id, missing_chain, invalid_chain, missing_scope,
  invalid_scope,
}
use offchain_service.Common.Chain.{NetworkType, network_id, new_chain}
use offchain_service.Supply.Claiming.Addresses.{is_wallet}
use offchain_service.Identity.AuthChallenge.{
  AuthChallenge, eip4361, dapp_domain, network_name, is_empty_text, insert_challenge, find_row,
  find_by_challenge_id,
}
use offchain_service.Identity.Challenges.{
  ChallengeRequest, ChallengeResponse, ChallengePorts, is_scope_character, validate_host,
  validate_request, signature_data_of, get_signature_data, prepare_challenge, store_challenge,
  generate, respond, execute,
}

module _ (ports : ChallengePorts) (r : ChallengeRequest) where
  open ports use {environment, now, show_ℕ, hostname, cipher, cbc_key, new_id, is_up}

  -- A stored challenge of a wallet, on the request's chain, which may be targeted, at the domain of
  -- the service; its identifier is the wallet encrypted under that chain and domain, it is due
  -- 86,400,000 milliseconds from now, and what is to be signed names the wallet, the chain, the
  -- request's URI and the nonce that is stored.
  pub record IsIssued (c : AuthChallenge) (chain : NetworkType) : Type 0 where
    identifier : Text
    wallet : is_wallet r.client_id ≡ true
    on_chain : new_chain environment r.chain_id ≡ ok chain
    at_domain : hostname r.uri ≡ ok dapp_domain
    encrypted :
        cipher.encrypt r.client_id (show_ℕ (network_id chain) ++ dapp_domain) cbc_key
        ≡ ok identifier
    drawn : c.id ≡ new_id
    identified : c.user_identifier ≡ some identifier
    due : c.due_date ≡ some (now + 24 * 60 * 60 * 1000)
    granted : c.grant_type ≡ some eip4361
    chain_kept : c.chain_id ≡ some r.chain_id
    scoped : c.scope ≡ some r.scope
    from : (c.client_ip ≡ some r.client_ip) × (c.client_agent ≡ some r.client_agent)
    signs_wallet : (c.payload.address ≡ r.client_id) × (c.payload.domain ≡ dapp_domain)
    signs_chain : c.payload.chain_id ≡ network_id chain
    signs_uri : (c.payload.uri ≡ r.uri) × (c.uri ≡ r.uri)
    signs_nonce : c.payload.nonce ≡ c.nonce

  validate_host-ok : (h : Result Text) → validate_host h ≡ ok tt → h ≡ ok dapp_domain
  validate_host-ok (err _) e = ground arith
  validate_host-ok (ok host) e = ap ok (sym ((text_eq_iff dapp_domain host).0 (ground arith)))

  validate_request-ok :
      validate_request ports r ≡ ok tt
      → (is_wallet r.client_id ≡ true) × (hostname r.uri ≡ ok dapp_domain)
  unfolding validate_request
  validate_request-ok h =
      let (_, h1) = then-ok (throw_if (is_empty_text r.client_id) missing_client_id) _ h in
      let (wallet, h2) = then-ok (throw_if (not (is_wallet r.client_id)) invalid_client_id) _ h1 in
      let (_, h3) = then-ok (throw_if (r.chain_id == 0) missing_chain) _ h2 in
      let (chain, _, h4) = bind-ok (new_chain environment r.chain_id) _ h3 in
      let (_, h5) = then-ok (throw_if (not (network_id chain == r.chain_id)) invalid_chain) _ h4 in
      let (_, h6) = then-ok (throw_if (is_empty_text r.scope) missing_scope) _ h5 in
      let (_, h7) = then-ok (throw_if (not (all is_scope_character r.scope)) invalid_scope) _ h6 in
      (is_true (is_wallet r.client_id) wallet, validate_host-ok (hostname r.uri) h7)
    where
      is_true : (b : Bool) → throw_if (not b) invalid_client_id ≡ ok tt → b ≡ true
      is_true b h = ground arith

  prepare_challenge-IsIssued :
      {c : AuthChallenge} {chain : NetworkType}
      → prepare_challenge ports r ≡ ok (c, chain)
      → IsIssued c chain
  unfolding prepare_challenge get_signature_data
  prepare_challenge-IsIssued {c} {chain} h =
      let (valid, h1) = then-ok (validate_request ports r) _ h in
      let (chain', on_chain, h2) = bind-ok (new_chain environment r.chain_id) _ h1 in
      let (identifier, encrypted, h3) =
        bind-ok
          (cipher.encrypt r.client_id
            (show_ℕ (network_id chain') ++ (signature_data_of ports r chain').domain) cbc_key)
          _ h2 in
      let (wallet, at_domain) = validate_request-ok valid in
      let same = ok_injective h3 in
      issued same (record {
        identifier = identifier;
        wallet = wallet;
        on_chain = on_chain;
        at_domain = at_domain;
        encrypted = encrypted;
        drawn = refl;
        identified = refl;
        due = refl;
        granted = refl;
        chain_kept = refl;
        scoped = refl;
        from = (refl, refl);
        signs_wallet = (refl, refl);
        signs_chain = refl;
        signs_uri = (refl, refl);
        signs_nonce = refl;
      })
    where
      issued :
          {c' : AuthChallenge} {chain' : NetworkType}
          → ◌≡◌ {A = AuthChallenge × NetworkType} (c', chain') (c, chain)
          → IsIssued c' chain'
          → IsIssued c chain
      issued same p = subst (λ (x : AuthChallenge × NetworkType). IsIssued x.0 x.1) same p

  -- What a request leaves in the table, and its answer.
  abbrev pub Issues : List AuthChallenge → List AuthChallenge × Option ChallengeResponse → Type 0
  Issues rows (rows', none) = rows' ≡ rows
  Issues rows (rows', some answer) =
      (c : AuthChallenge) × (chain : NetworkType) × (rows' ≡ rows ++ c ∷ [])
      × IsIssued c chain
      × (answer.challenge_id ≡ c.id)
      × (answer.signature_data ≡ c.payload)
      × (answer.grant_type ≡ none)
      × (answer.network ≡ network_name chain)

  -- However a request for a challenge ends, an empty answer leaves the table as it was, and another
  -- answer gives the identifier, the data to sign and the network of the challenge that was added, but
  -- no grant type. That challenge is one of a wallet, on the request's chain, which may be targeted,
  -- for a URI at the domain of the service, with the wallet encrypted under that chain and domain as
  -- its identifier, due in a day, and the data to sign names that wallet, chain and URI and the
  -- stored nonce.
  pub execute-Issues : (rows : List AuthChallenge) → Issues rows (execute ports r rows)
  unfolding execute generate
  execute-Issues rows = stored (prepare_challenge ports r) refl
    where
      answer_of :
          List AuthChallenge × Result (AuthChallenge × NetworkType)
          → List AuthChallenge × Option ChallengeResponse
      answer_of (rows', result) = (rows', respond ports result)

      created :
          (c : AuthChallenge) (chain : NetworkType) (up : Bool)
          → IsIssued c chain
          → Issues rows (
              answer_of
                (and_then (insert_challenge up c rows) (λ added rows'. (rows', ok (added, chain)))))
      created c chain false p = refl
      created c chain true p = (c, chain, refl, p, refl, refl, refl, refl)

      stored :
          (p : Result (AuthChallenge × NetworkType))
          → prepare_challenge ports r ≡ p
          → Issues rows (answer_of (store_challenge ports p rows))
      stored (err _) e = refl
      stored (ok (c, chain)) e = created c chain is_up (prepare_challenge-IsIssued e)

  some_injective : {a b : ChallengeResponse} → some a ≡ some b → a ≡ b
  some_injective h = cc

  find_row-append :
      (c : AuthChallenge) (rows : List AuthChallenge)
      → find_row c.id rows ≡ none
      → find_row c.id (rows ++ c ∷ []) ≡ some c
  find_row-append c [] h = rw (text_eq_refl c.id) refl
  find_row-append c (row ∷ rows) h = elim (Bool-cases (text_eq row.id c.id)) [
    | inl e ↦ absurd (some-ne-none e h)
    | inr e ↦ rw e (find_row-append c rows (rw e at h))
  ]
    where
      some-ne-none : text_eq row.id c.id ≡ true → find_row c.id (row ∷ rows) ≡ none → ⊥
      some-ne-none e h = ground arith

  -- Where the table has no row of the drawn identifier, the identifier of an answer finds in the
  -- table, as the request for a token reads it, the challenge that was added, with its grant type,
  -- its due date and the data to sign of the answer.
  pub execute-found :
      (rows : List AuthChallenge) {answer : ChallengeResponse}
      → find_row new_id rows ≡ none
      → (execute ports r rows).1 ≡ some answer
      → (c : AuthChallenge) × (find_by_challenge_id true
            (execute ports r rows).0
            answer.challenge_id
          ≡ ok (some c))
        × (c.grant_type ≡ some eip4361)
        × (c.due_date ≡ some (now + 24 * 60 * 60 * 1000))
        × (c.payload ≡ answer.signature_data)
  unfolding find_by_challenge_id
  execute-found rows {answer} free h = by_answer (execute ports r rows) (execute-Issues rows) h
    where
      by_answer :
          (out : List AuthChallenge × Option ChallengeResponse)
          → Issues rows out
          → out.1 ≡ some answer
          → (c : AuthChallenge) × (find_by_challenge_id true out.0 answer.challenge_id
              ≡ ok (some c))
            × (c.grant_type ≡ some eip4361)
            × (c.due_date ≡ some (now + 24 * 60 * 60 * 1000))
            × (c.payload ≡ answer.signature_data)
      by_answer (rows', none) i h = absurd (ground arith)
      by_answer (rows', some a) (c, chain, added, p, named, signs, _, _) h =
          let same : a ≡ answer = some_injective h in
          let free_id : find_row c.id rows ≡ none = ap (λ t. find_row t rows) p.drawn ∙ free in
          let found : find_row c.id rows' ≡ some c =
            ap (find_row c.id) added ∙ find_row-append c rows free_id in
          (
            c,
            ap (λ (x : ChallengeResponse). ok (find_row x.challenge_id rows')) (sym same)
                ∙ ap (λ t. ok (find_row t rows')) named
                ∙ ap ok found,
            p.granted,
            p.due,
            sym signs ∙ ap (λ (x : ChallengeResponse). x.signature_data) same,
          )
