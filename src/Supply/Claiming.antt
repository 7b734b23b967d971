-- ===== src/Supply/Claiming.antt =====
-- src/domain/supply/usecases/claim-locked-supply.usecase.ts: the failed attempts by address, the
-- one-time code, and the orders that an e-mail address may claim. The tables of attempts and bans
-- are the constants of the file, which all its use cases share.
pub mod Laws
pub mod Challenges
pub mod Addresses
pub mod Steps
pub mod Answers
use offchain_service.Base.{
  ℕ, ◌+◌, ◌-◌, ◌==◌, leb, ltb, Bool, true, false, ◌&&◌, ◌||◌, not, Option, none, some, List, [],
  ◌∷◌, ◌++◌, map, any, length, if◌then◌else◌, Text, codes, text_eq, Result, ok, err, ◌>>=◌, ◌>>◌,
  throw_if,
}
use offchain_service.Base.Dict.{Dict, lookup, insert}
use offchain_service.Base.Results.{invalid_otp}
use offchain_service.Base.Numbers.{Numbers}
use offchain_service.Common.Format.{format_decimals, decimal}
use offchain_service.Order.{
  Order, UserIdentifier, email, crypto_wallet, unknown_identifier, claimed, has_payments, in_status,
}
use offchain_service.Ledger.Sync.{Encryption}

-- `ClaimLockedSupplyDto`
pub record Entry : Type 0 where
  pub client_agent : Text
  pub client_ip : Text
  pub email_address : Text
  pub code : Option Text
  pub crypto_wallet : Option Text

-- `errorAttemptsByIP` and `banlistByIP`, with the hashes whose challenges were deactivated.
pub record Attempts : Type 0 where
  pub errors : Dict ℕ
  pub banned : Dict Bool
  pub deactivated : List Text

abbrev pub no_attempts : Attempts
no_attempts = record { errors = []; banned = []; deactivated = [] }

-- `IP_BAN_THRESHOLD`
abbrev pub ip_ban_threshold : ℕ
ip_ban_threshold = 15

-- `toLowerCase`, on the letters of ASCII
abbrev lower : ℕ → ℕ
lower c = if leb b'A' c && leb c b'Z' then c + 32 else c

abbrev pub to_lower_case : Text → Text
to_lower_case = map lower

abbrev pub attempts_of : Option ℕ → ℕ
attempts_of none = 0
attempts_of (some k) = k

-- `banlistByIP[ip]`, undefined or a Boolean
abbrev pub is_true : Option Bool → Bool
is_true none = false
is_true (some b) = b

unfoldable pub is_banned : Text → Attempts → Bool
is_banned ip s = is_true (lookup ip s.banned)

module _ (hash : Text → Text) where
  -- The ban of the address, and the deactivation of the challenges of the e-mail address.
  abbrev ban : Entry → Attempts → Attempts
  ban e s = record s {
    banned = insert e.client_ip true s.banned;
    deactivated = s.deactivated ++ hash (to_lower_case e.email_address) ∷ [];
  }

  -- `reportFailure`; the argument is `generateDeactivationHash`.
  unfoldable pub report_failure : Entry → Attempts → Attempts
  report_failure e s =
      let count = attempts_of (lookup e.client_ip s.errors) + 1 in
      let counted = record s { errors = insert e.client_ip count s.errors } in
      if ltb ip_ban_threshold count then ban e counted else counted

  -- The failures one after the other.
  unfoldable pub report_failures : List Entry → Attempts → Attempts
  unfolding report_failure
  report_failures [] s = s
  report_failures (e ∷ es) s = report_failures es (report_failure e s)

-- `validateOTP`
unfoldable pub validate_otp : Text → Result (Unit {0})
validate_otp code =
    throw_if (any (λ c. c == b'0') code || any (λ c. c == b'O') code || not (length code == 6))
      invalid_otp

abbrev is_email : UserIdentifier → Bool
is_email email = true
is_email crypto_wallet = false
is_email unknown_identifier = false

-- Whether an optional text is there and not empty.
abbrev pub is_given : Option Text → Bool
is_given none = false
is_given (some []) = false
is_given (some (_ ∷ _)) = true

-- `Number(sequence) >= 1`
abbrev is_numbered : Option ℕ → Bool
is_numbered none = false
is_numbered (some k) = leb 1 k

abbrev is_amount : Option ℕ → ℕ → Bool
is_amount none a = false
is_amount (some k) a = k == a

-- The tests on payment, claim and lock.
unfoldable pub is_open : {F : Type 0} → Order F → Bool
is_open o =
    has_payments o
    && is_given o.payment_provider_id
    && is_numbered o.payment_sequence
    && is_given o.lock_transaction_hash
    && not (is_given o.claim_transaction_hash || in_status (claimed ∷ []) o)

module _ (n : Numbers) (cipher : Encryption) (cbc_key : Text) where
  open n use {F, of_ℕ, add, lt, read}

  -- `totalKnnExpected`
  abbrev total_knn_expected : Order F → F
  total_knn_expected o = read (
      format_decimals (decimal o.amount_of_tokens.unassigned_number) o.amount_of_tokens.decimals
        (some 8))

  -- Neither `valueNotMatched` nor `lockNotMatched`.
  unfoldable pub is_matched : Order F → Bool
  is_matched o =
      not (
        lt (add (total_knn_expected o) (of_ℕ 1)) o.total_knn
        || lt o.total_knn (n.sub (total_knn_expected o) (of_ℕ 1)))
      && is_amount o.total_locked_uint256 o.amount_of_tokens.unassigned_number

  -- A round of the loop of `filterByEmail`.
  unfoldable pub selects : Text → Text → Order F → Result Bool
  unfolding is_open is_matched
  selects address id o = elim (is_email o.identifier_type) [
    | false ↦ ok false
    | true ↦ do
      identifier ← cipher.decrypt o.user_identifier id cbc_key
      ok (text_eq (to_lower_case identifier) address && is_open o && is_matched o)
  ]

  -- `filterByEmail`
  unfoldable pub filter_by_email : Text → Dict (Order F) → Result (List (Order F))
  filter_by_email address [] = ok []
  filter_by_email address ((id, o) ∷ orders) = do
    selected ← selects address id o
    rest ← filter_by_email address orders
    ok (if selected then o ∷ rest else rest)
