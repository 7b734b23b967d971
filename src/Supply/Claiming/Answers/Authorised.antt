-- ===== src/Supply/Claiming/Answers/Authorised.antt =====
-- Who is given signed claims.
use offchain_service.Base.{
  ℕ, ◌+◌, ◌≡◌, ◌⊎◌, refl, sym, ap, Bool, true, false, ◌&&◌, ltb, Option, none, some, List, [], ◌∷◌,
  if◌then◌else◌, Text, text_eq, text_eq_iff, Bool-cases, inl, inr, Error, Result, ok, err, then-ok,
  ok_injective, ◌∙◌, arith,
}
use offchain_service.Base.Dict.{lookup}
use offchain_service.Base.Results.{and_then}
use offchain_service.Base.Numbers.{Numbers}
use offchain_service.Order.{Order, challenged}
use offchain_service.Supply.Claiming.{
  Entry, ip_ban_threshold, attempts_of, is_banned, to_lower_case, validate_otp,
}
use offchain_service.Supply.Claiming.Addresses.{validate_email_address, validate_crypto_wallet}
use offchain_service.Supply.Claiming.Challenges.{
  Challenge, Claims, is_none, find_challenge, fetch_challenge, deactivate,
}
use offchain_service.Supply.Claiming.Steps.{
  ClaimPorts, report, fetch_orders, filter_orders, generate_verification_hash,
}
use offchain_service.Supply.Claiming.Answers.{
  answer_challenge, answer_signed, answer_found, answer_address, try_sign_orders, validate_answer,
  validate_answer_entry, validate_code,
}

module _ {F : Type 0} where
  pub and_then-leads :
      {A B : Type 0} (P : Claims F × Result B → Type 0) (x : Claims F × Result A)
      (next : A → Claims F → Claims F × Result B)
      → ((k : Error) → P (x.0, err k))
      → ((a : A) → x.1 ≡ ok a → P (next a x.0))
      → P (and_then x next)
  and_then-leads P (w, err k) next h g = h k
  and_then-leads P (w, ok a) next h g = g a refl

  -- The answers and the orders are as they were.
  abbrev pub Keeps : Claims F → Claims F → Type 0
  Keeps w w' =
      (w'.answers ≡ w.answers)
      × (w'.tables.statuses ≡ w.tables.statuses)
      × (w'.tables.transitions ≡ w.tables.transitions)

  abbrev NoClaims : Result (List (Order F × Text)) → Type 0
  NoClaims (ok xs) = xs ≡ []
  NoClaims (err k) = Unit

-- A challenge under the hash is active and has not expired.
pub record IsOpen (hash : Text) (now : ℕ) (cs : List Challenge) : Type 0 where
  pub c : Challenge
  pub found : find_challenge hash cs ≡ some c
  pub verified : c.verification_hash ≡ hash
  pub active : c.deactivated_at ≡ none
  pub unexpired : ltb c.expires_at now ≡ false

find_challenge-found :
    (hash : Text) (cs : List Challenge) {c : Challenge}
    → find_challenge hash cs ≡ some c
    → (c.verification_hash ≡ hash) × (c.deactivated_at ≡ none)
find_challenge-found hash [] h = ground arith
find_challenge-found hash (d ∷ cs) h =
    elim (Bool-cases (text_eq d.verification_hash hash && is_none d.deactivated_at)) [
      | inl e ↦ ground (arith, text_eq_iff d.verification_hash hash)
      | inr e ↦ find_challenge-found hash cs (rw e at h)
    ]

module _ (n : Numbers) (ports : ClaimPorts n.F) where
  open n use {F}
  open ports use {up, now}

  -- The address is not banned, and the entry's code opens a challenge of its e-mail address.
  pub record IsAuthorised (e : Entry) (w : Claims F) : Type 0 where
    pub code : Text
    pub given : e.code ≡ some code
    pub challenge :
        IsOpen
          (generate_verification_hash n ports (to_lower_case e.email_address) code)
          now
          w.challenges

  -- No claim is given, and nothing has changed for the orders; or the entry is authorised.
  abbrev pub IsSafe : Entry → Claims F → Claims F × Result (List (Order F × Text)) → Type 0
  IsSafe e w (w', r) =
      (Keeps w w' × NoClaims r) ⊎ (IsAuthorised e w × (is_banned e.client_ip w.attempts ≡ false))

  report-Keeps : (e : Entry) (w : Claims F) → Keeps w (report n ports e w)
  unfolding report deactivate
  report-Keeps e w =
      elim (Bool-cases
        (ltb ip_ban_threshold (attempts_of (lookup e.client_ip w.attempts.errors) + 1))) [
          | inl b ↦ elim (Bool-cases (up w.tables.calls)) [
            | inl u ↦ rw (b, u) (refl, refl, refl)
            | inr u ↦ rw (b, u) (refl, refl, refl)
          ]
          | inr b ↦ rw b (refl, refl, refl)
        ]

  validate_code-ok :
      (given : Option Text) {code : Text}
      → validate_code n ports given ≡ ok code
      → given ≡ some code
  validate_code-ok none h = ground arith
  validate_code-ok (some c) h =
      let (_, k) = then-ok (validate_otp c) (ok c) h in ap some (ok_injective k)

  validate_answer_entry-ok :
      (e : Entry) (address : Text) {code : Text}
      → validate_answer_entry n ports e address ≡ ok code
      → e.code ≡ some code
  validate_answer_entry-ok e address h =
      let (_, k) = then-ok (validate_email_address address) _ h in
      let (_, l) =
        then-ok (validate_crypto_wallet e.crypto_wallet) (validate_code n ports e.code) k in
      validate_code-ok e.code l

  fetch_orders-Keeps :
      (w : Claims F)
      → let x = fetch_orders n ports (challenged ∷ []) w in
        Keeps w x.0 × (x.0.challenges ≡ w.challenges)
  fetch_orders-Keeps w = elim (Bool-cases (up w.tables.calls)) [
    | inl u ↦ rw u ((refl, refl, refl), refl)
    | inr u ↦ rw u ((refl, refl, refl), refl)
  ]

  -- The row is looked for in the challenges as they were; an empty hash finds none.
  fetch_challenge-Keeps :
      (w w' : Claims F) (hash : Text)
      → Keeps w w'
      → w'.challenges ≡ w.challenges
      → let x = fetch_challenge up now hash w' in
        Keeps w x.0
        × ((found : Option Challenge)
            → x.1 ≡ ok found
            → (found ≡ none) ⊎ (find_challenge hash w.challenges ≡ found))
  unfolding fetch_challenge
  fetch_challenge-Keeps w w' [] k same = (k, λ found f. inl (sym (ok_injective f)))
  fetch_challenge-Keeps w w' (c ∷ hash) k same = elim (Bool-cases (up w'.tables.calls)) [
    | inl u ↦ rw u (k, λ found f. inr (ap (find_challenge (c ∷ hash)) (sym same) ∙ ok_injective f))
    | inr u ↦ rw u (k, λ found f. ground arith)
  ]

  -- The entry of a call that has passed its tests.
  module _ (e : Entry) (w : Claims F) (code : Text) (given : e.code ≡ some code)
      (free : is_banned e.client_ip w.attempts ≡ false) where
    abbrev hash : Text
    hash = generate_verification_hash n ports (to_lower_case e.email_address) code

    answer_challenge-IsSafe :
        (o : Order F) (signed : List (Order F × Text)) (found : Option Challenge) (w' : Claims F)
        → Keeps w w'
        → (found ≡ none) ⊎ (find_challenge hash w.challenges ≡ found)
        → IsSafe e w (answer_challenge n ports e hash o signed found w')
    answer_challenge-IsSafe o signed none w' (a, b, c) f =
        let (p, q, r) = report-Keeps e w' in inl ((p ∙ a, q ∙ b, r ∙ c), refl)
    answer_challenge-IsSafe o signed (some x) w' k (inl f) = ground arith
    answer_challenge-IsSafe o signed (some x) w' (a, b, c) (inr f) =
        elim (Bool-cases (ltb x.expires_at now)) [
          | inl t ↦ let (p, q, r) = report-Keeps e w' in rw t (inl ((p ∙ a, q ∙ b, r ∙ c), refl))
          | inr t ↦
              let (v, d) = find_challenge-found hash w.challenges f in
              inr (
                record {
                  code = code;
                  given = given;
                  challenge = record { c = x; found = f; verified = v; active = d; unexpired = t };
                },
                free,
              )
        ]

    -- The entry is safe in any state that keeps the orders and the challenges.
    answer_signed-IsSafe :
        (signed : List (Order F × Text)) (w' : Claims F)
        → Keeps w w'
        → w'.challenges ≡ w.challenges
        → IsSafe e w (answer_signed n ports e hash signed w')
    answer_signed-IsSafe [] w' (a, b, c) same =
        let (p, q, r) = report-Keeps e w' in inl ((p ∙ a, q ∙ b, r ∙ c), refl)
    answer_signed-IsSafe ((o, s) ∷ signed) w' k same =
        let (kept, found_in) = fetch_challenge-Keeps w w' hash k same in
        and_then-leads (IsSafe e w) (fetch_challenge up now hash w')
          (λ found. answer_challenge n ports e hash o ((o, s) ∷ signed) found) (λ _. inl (kept, tt))
          (λ found f.
            answer_challenge-IsSafe o ((o, s) ∷ signed) found (fetch_challenge up now hash w').0
              kept (found_in found f))

  answer_address-IsSafe :
      (e : Entry) (w : Claims F)
      → is_banned e.client_ip w.attempts ≡ false
      → IsSafe e w (answer_address n ports e (to_lower_case e.email_address) w)
  answer_address-IsSafe e w free =
      let address = to_lower_case e.email_address in
      let v : Claims F × Result Text = (w, validate_answer_entry n ports e address) in
      let x = fetch_orders n ports (challenged ∷ []) w in
      let (kept, same) = fetch_orders-Keeps w in
      and_then-leads (IsSafe e w) v _ (λ _. inl ((refl, refl, refl), tt))
        λ code h.
          let given = validate_answer_entry-ok e address h in
          let hash = generate_verification_hash n ports address code in
          and_then-leads (IsSafe e w) x _ (λ _. inl (kept, tt))
            λ orders _.
              let y = filter_orders n ports address orders x.0 in
              and_then-leads (IsSafe e w) y (answer_found n ports e hash) (λ _. inl (kept, tt))
                λ found _.
                  answer_signed-IsSafe e w code given free (try_sign_orders n ports e found) x.0
                    kept same

  -- However an answer ends, either no claim is given, no answer is stored and no status of an order
  -- changes; or the client's address is not banned, and the entry's code opens an active challenge of
  -- the e-mail address that has not expired.
  pub validate_answer-IsSafe : (e : Entry) (w : Claims F) → IsSafe e w (validate_answer n ports e w)
  unfolding validate_answer
  validate_answer-IsSafe e w = by_ban (is_banned e.client_ip w.attempts) refl
    where
      by_ban :
          (b : Bool)
          → is_banned e.client_ip w.attempts ≡ b
          → IsSafe e w
              (if b then (w, ok []) else answer_address n ports e (to_lower_case e.email_address) w)
      by_ban true h = inl ((refl, refl, refl), refl)
      by_ban false h = answer_address-IsSafe e w h
