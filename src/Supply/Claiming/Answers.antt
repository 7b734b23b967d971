-- ===== src/Supply/Claiming/Answers.antt =====
-- src/domain/supply/usecases/claim-locked-supply.usecase.ts: `executeChallenge`, which mails a
-- one-time code, and `validateAnswer`, which gives signed claims for it.
pub mod Active
pub mod Authorised
use offchain_service.Base.{
  ℕ, ◌+◌, ltb, Bool, true, false, ◌||◌, not, Option, none, some, List, [], ◌∷◌, ◌++◌, if◌then◌else◌,
  Text, codes, Result, ok, err, ◌>>=◌, ◌>>◌,
}
use offchain_service.Base.Dict.{Dict, lookup}
use offchain_service.Base.Results.{type_error, database_failed, mail_failed, and_then}
use offchain_service.Base.Numbers.{Numbers}
use offchain_service.Order.{Order, OrderStatus, locked, challenged, owned, set_status}
use offchain_service.Clearing.Database.{
  Tables, Reason, challenged_at, answered_at, create_transition,
}
use offchain_service.Ledger.Sync.{Encryption}
use offchain_service.Supply.Claiming.{
  Entry, Attempts, ip_ban_threshold, attempts_of, is_banned, report_failure, to_lower_case,
  validate_otp, filter_by_email,
}
use offchain_service.Supply.Claiming.Addresses.{validate_email_address, validate_crypto_wallet}
use offchain_service.Supply.Claiming.Challenges.{
  Challenge, Answer, Mail, Claims, called, deactivate, create_challenge, create_answer,
  fetch_challenge, is_none,
}
use offchain_service.Supply.Claiming.Steps.{
  ClaimPorts, generate_verification_hash, generate_deactivation_hash, report, fetch_orders,
  filter_orders, transition, set_statuses,
}

-- `THREE_DAYS_EXPIRATION`
abbrev three_days_expiration : ℕ
three_days_expiration = 259200000

module _ (n : Numbers) (ports : ClaimPorts n.F) where
  open n use {F}
  open ports use {up, now}

  abbrev pub new_challenge : Entry → Text → Order F → Challenge
  new_challenge e address o = record {
    id = 0;
    identifier_order_id = o.id;
    client_ip = e.client_ip;
    client_agent = e.client_agent;
    verification_hash = generate_verification_hash n ports address ports.one_time_password;
    deactivation_hash = generate_deactivation_hash n ports address;
    deactivated_at = none;
    expires_at = now + three_days_expiration;
    created_at = now;
  }

  -- `mailerPort.sendMail`
  abbrev pub send_mail : Text → Claims F → Claims F × Result (Unit {0})
  send_mail address w =
      if ports.is_mailed
      then (
        record w {
          mails =
              w.mails ++ record { to = address; one_time_password = ports.one_time_password } ∷ [];
        },
        ok tt,
      )
      else (w, err mail_failed)

  -- The challenge of the orders that were found; there being none is a failed attempt.
  abbrev pub challenge_orders :
      Entry → Text → List (Order F) → Claims F → Claims F × Result (Unit {0})
  challenge_orders e address [] w = (report n ports e w, ok tt)
  challenge_orders e address (o ∷ os) w =
      and_then (deactivate up now (generate_deactivation_hash n ports address) w) λ _ w1.
        and_then (create_challenge up now (new_challenge e address o) w1) λ c w2.
          and_then (set_statuses n ports challenged (challenged_at e.client_ip c.id) (o ∷ os) w2)
            λ _. send_mail address

  -- `executeChallenge`, past the test of the ban.
  abbrev pub challenge_address : Entry → Text → Claims F → Claims F × Result (Unit {0})
  challenge_address e address w =
      and_then (w, validate_email_address address)
        λ _ w0. and_then (fetch_orders n ports (locked ∷ challenged ∷ owned ∷ []) w0) λ orders w1.
          and_then (filter_orders n ports address orders w1) (challenge_orders e address)

  -- `executeChallenge`
  unfoldable pub execute_challenge : Entry → Claims F → Claims F × Result (Unit {0})
  unfolding report set_statuses
  execute_challenge e w =
      if is_banned e.client_ip w.attempts
      then (w, ok tt)
      else challenge_address e (to_lower_case e.email_address) w

  -- A signature, where there is one.
  abbrev caught : Result (Option Text) → Option Text
  caught (err _) = none
  caught (ok s) = s

  abbrev has_succeeded : Result (Unit {0}) → Bool
  has_succeeded (err _) = false
  has_succeeded (ok _) = true

  abbrev add_signed : Entry → Order F → Option Text → List (Order F × Text) → List (Order F × Text)
  add_signed e o none rest = rest
  add_signed e o (some s) rest =
      if has_succeeded (ports.estimate_claim_locked e o s) then (o, s) ∷ rest else rest

  -- `trySignOrders`
  unfoldable pub try_sign_orders : Entry → List (Order F) → List (Order F × Text)
  try_sign_orders e [] = []
  try_sign_orders e (o ∷ os) =
      add_signed e o (caught (ports.delegate_claim_locked e o)) (try_sign_orders e os)

  abbrev pub orders_of : List (Order F × Text) → List (Order F)
  orders_of [] = []
  orders_of ((o, s) ∷ xs) = o ∷ orders_of xs

  abbrev pub new_answer : Entry → Text → Order F → Challenge → Answer
  new_answer e hash o c = record {
    id = 0;
    identifier_order_id = o.id;
    client_ip = e.client_ip;
    client_agent = e.client_agent;
    verification_hash = hash;
    challenge_id = c.id;
    created_at = now;
  }

  -- The claims that are returned: the orders are owned by then.
  abbrev owned_claims : List (Order F × Text) → List (Order F × Text)
  owned_claims [] = []
  owned_claims ((o, s) ∷ xs) = (set_status owned o, s) ∷ owned_claims xs

  abbrev pub refuse : Entry → Claims F → Claims F × Result (List (Order F × Text))
  refuse e w = (report n ports e w, ok [])

  -- What follows the challenge that was found.
  abbrev pub accept :
      Entry
      → Text
      → Order F
      → List (Order F × Text)
      → Challenge
      → Claims F
      → Claims F × Result (List (Order F × Text))
  accept e hash o signed c w = and_then (create_answer up now (new_answer e hash o c) w) λ a w1.
      and_then
        (set_statuses n ports owned (answered_at c.id e.client_ip a.id) (orders_of signed) w1)
        λ _ w2. (w2, ok (owned_claims signed))

  abbrev pub answer_challenge :
      Entry
      → Text
      → Order F
      → List (Order F × Text)
      → Option Challenge
      → Claims F
      → Claims F × Result (List (Order F × Text))
  answer_challenge e hash o signed none w = refuse e w
  answer_challenge e hash o signed (some c) w =
      if ltb c.expires_at now then refuse e w else accept e hash o signed c w

  abbrev pub answer_signed :
      Entry → Text → List (Order F × Text) → Claims F → Claims F × Result (List (Order F × Text))
  answer_signed e hash [] w = refuse e w
  answer_signed e hash ((o, s) ∷ signed) w =
      and_then (fetch_challenge up now hash w)
        λ found. answer_challenge e hash o ((o, s) ∷ signed) found

  -- `validateOTP` of a code that is not there fails on its `includes`.
  abbrev pub validate_code : Option Text → Result Text
  validate_code none = err type_error
  validate_code (some code) = validate_otp code >> ok code

  abbrev pub validate_answer_entry : Entry → Text → Result Text
  validate_answer_entry e address = do
    validate_email_address address
    validate_crypto_wallet e.crypto_wallet
    validate_code e.code

  abbrev pub answer_found :
      Entry → Text → List (Order F) → Claims F → Claims F × Result (List (Order F × Text))
  answer_found e hash found w = answer_signed e hash (try_sign_orders e found) w

  -- `validateAnswer`, past the test of the ban.
  abbrev pub answer_address : Entry → Text → Claims F → Claims F × Result (List (Order F × Text))
  answer_address e address w =
      and_then (w, validate_answer_entry e address)
        λ code w0. and_then (fetch_orders n ports (challenged ∷ []) w0) λ orders w1.
          and_then (filter_orders n ports address orders w1)
            (answer_found e (generate_verification_hash n ports address code))

  -- `validateAnswer`
  unfoldable pub validate_answer : Entry → Claims F → Claims F × Result (List (Order F × Text))
  unfolding report set_statuses try_sign_orders
  validate_answer e w =
      if is_banned e.client_ip w.attempts
      then (w, ok [])
      else answer_address e (to_lower_case e.email_address) w
