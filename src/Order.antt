-- ===== src/Order.antt =====
-- src/domain/order/entities/order.entity.ts. The getters and setters without a test are the fields
-- of the record; a field of the class that may be undefined is an `Option`.
pub mod Lifecycle
use offchain_service.Base.{
  ℕ, ◌+◌, ◌*◌, ◌==◌, ltb, Bool, true, false, ◌&&◌, ◌||◌, not, Option, none, some, List, [], ◌∷◌,
  ◌++◌, if◌then◌else◌, any, length, is_some, map, leb, ◌-◌, Text, codes, text_eq, Result, ok, err,
  ◌>>=◌, ◌>>◌, throw_if,
}
use offchain_service.Base.Results.{
  unable_to_load_order, invalid_order_identifier, invalid_order_total,
}
use offchain_service.Base.Numbers.{Numbers}
use offchain_service.Common.Chain.{IsoCodeType}
use offchain_service.Price.Calculus.{CurrencyAmount}

-- `enum OrderStatus`
pub data OrderStatus : Type 0 where
  requested confirmed locked challenged owned claimed expired canceled : OrderStatus

-- The number that the enum gives to a status.
unfoldable pub status_id : OrderStatus → ℕ
status_id requested = 1
status_id confirmed = 2
status_id locked = 3
status_id challenged = 4
status_id owned = 5
status_id claimed = 6
status_id expired = 7
status_id canceled = 8

-- `statusDictionary`
unfoldable pub status_description : OrderStatus → Text
status_description requested = codes "Aguardando Pagamento"
status_description confirmed = codes "Em Processamento"
status_description locked = codes "Reservado"
status_description challenged = codes "Reservado"
status_description owned = codes "Resgate Autorizado"
status_description claimed = codes "Resgatado"
status_description expired = codes "Expirado"
status_description canceled = codes "Cancelado"

-- `UserIdentifier`: an e-mail address (`EA`), a wallet (`CW`), or what else a row may hold.
pub data UserIdentifier : Type 0 where
  email crypto_wallet unknown_identifier : UserIdentifier

-- `OrderProps` and the private fields of the class.
pub record Order (F : Type 0) : Type 0 where
  pub id : Text
  pub iso_code : IsoCodeType
  pub total : F
  pub total_gas : F
  pub total_net : F
  pub total_knn : F
  pub amount_of_tokens : CurrencyAmount
  pub user_identifier : Text
  pub identifier_type : UserIdentifier
  pub desired_chain_id : ℕ
  pub parent_id : Option Text
  pub client_ip : Option Text
  pub client_agent : Option Text
  pub end_to_end_id : Option Text
  pub status : Option OrderStatus
  pub expires_at : Option ℕ
  pub created_at : ℕ
  pub payment_count : Option ℕ
  pub payment_sequence : Option ℕ
  pub payment_provider_id : Option Text
  pub claim_transaction_hash : Option Text
  pub lock_transaction_hash : Option Text
  pub total_locked_uint256 : Option ℕ
  pub contract_address : Option Text
  pub settled_chain_id : Option ℕ

-- `DEFAULT_ORDER_EXPIRATION`, in milliseconds
abbrev pub default_order_expiration : ℕ
default_order_expiration = 900 * 1000

-- `toUpperCase` on the letters of base 36
abbrev upper : ℕ → ℕ
upper c = if leb b'a' c && leb c b'z' then c - 32 else c

abbrev pub option_text_eq : Option Text → Text → Bool
option_text_eq none t = false
option_text_eq (some s) t = text_eq s t

abbrev pub or_else {ℓ} : {A : Type ℓ} → Option A → A → A
or_else none a = a
or_else (some b) _ = b

abbrev or_zero : Option ℕ → ℕ
or_zero none = 0
or_zero (some k) = k

module _ (to_base36 : Text → Text) where
  -- `Order.toEndId`; the encoder of the identifier is a package's.
  unfoldable pub to_end_id : Text → Result Text
  to_end_id uuid =
      let base36 = map upper (to_base36 uuid) in
      if length base36 == 25 || length base36 == 24 then ok base36 else err invalid_order_identifier

  module _ (n : Numbers) where
    open n use {F, lt, le, read}

    -- The conversions of `checkBindings`: the driver gives a decimal column as its text.
    unfoldable pub with_numbers : Order Text → Order F
    with_numbers o = record {
      id = o.id;
      iso_code = o.iso_code;
      total = read o.total;
      total_gas = read o.total_gas;
      total_net = read o.total_net;
      total_knn = read o.total_knn;
      amount_of_tokens = o.amount_of_tokens;
      user_identifier = o.user_identifier;
      identifier_type = o.identifier_type;
      desired_chain_id = o.desired_chain_id;
      parent_id = o.parent_id;
      client_ip = o.client_ip;
      client_agent = o.client_agent;
      end_to_end_id = o.end_to_end_id;
      status = o.status;
      expires_at = o.expires_at;
      created_at = o.created_at;
      payment_count = o.payment_count;
      payment_sequence = o.payment_sequence;
      payment_provider_id = o.payment_provider_id;
      claim_transaction_hash = o.claim_transaction_hash;
      lock_transaction_hash = o.lock_transaction_hash;
      total_locked_uint256 = o.total_locked_uint256;
      contract_address = o.contract_address;
      settled_chain_id = o.settled_chain_id;
    }

    -- `checkBindings`, on the properties of a loaded row
    unfoldable pub check_bindings : Order Text → Result (Order F)
    unfolding to_end_id with_numbers
    check_bindings o = do
      e ← to_end_id o.id
      throw_if (not (option_text_eq o.end_to_end_id e)) unable_to_load_order
      ok (with_numbers o)

    -- `props.total >= 4.19 && props.total <= 4.21`
    abbrev pub is_test_total : F → Bool
    is_test_total total = le (read (codes "4.19")) total && le total (read (codes "4.21"))

    -- `new Order(props)` for a new order, whose identifier has been drawn; the minimum total is
    -- that of the environment.
    unfoldable pub create : F → Order F → Result (Order F)
    unfolding to_end_id
    create minimum o = do
      throw_if (lt o.total minimum && not (is_test_total o.total)) invalid_order_total
      e ← to_end_id o.id
      ok (record o {
        end_to_end_id = some e;
        expires_at = some (or_else o.expires_at (o.created_at + default_order_expiration));
        status = some (or_else o.status requested);
      })

abbrev pub status_eq : Option OrderStatus → OrderStatus → Bool
status_eq none s = false
status_eq (some r) s = status_id r == status_id s

-- `expiresAt?.getTime() < now`, false where there is no date
abbrev pub is_past : Option ℕ → ℕ → Bool
is_past none now = false
is_past (some t) now = ltb t now

module _ {F : Type 0} where
  -- `setStatus`
  abbrev pub set_status : OrderStatus → Order F → Order F
  set_status s o = record o { status = some s }

  -- `setPaymentCount`
  unfoldable pub set_payment_count : ℕ → Order F → Order F
  set_payment_count entries o = record o {
    payment_count = some (or_zero o.payment_count + entries);
  }

  -- `hasPayments`
  unfoldable pub has_payments : Order F → Bool
  has_payments o = ltb 0 (or_zero o.payment_count)

  -- `inStatus`
  unfoldable pub in_status : List OrderStatus → Order F → Bool
  unfolding status_id
  in_status statuses o = any (status_eq o.status) statuses

  -- `isExpired`
  unfoldable pub is_expired : ℕ → Order F → Bool
  unfolding in_status
  is_expired now o =
      in_status (expired ∷ canceled ∷ []) o
      || (in_status (requested ∷ expired ∷ []) o && is_past o.expires_at now)
