-- ===== src/Placement.antt =====
-- src/domain/order/usecases/create-brazilian-pix-order.usecase.ts: an order is placed for a quote.
pub mod Laws
use offchain_service.Base.{
  ℕ, ◌==◌, Bool, true, false, ◌&&◌, ◌||◌, not, Option, none, some, List, [], ◌∷◌, ◌++◌, any,
  if◌then◌else◌, Text, Result, ok, err, ◌>>=◌, ◌>>◌, throw_if,
}
use offchain_service.Base.Results.{
  chain_not_informed, chain_not_allowed, layer_unavailable, invalid_identifier_type,
  identifier_required, below_minimum, database_failed,
}
use offchain_service.Base.Numbers.{Numbers}
use offchain_service.Common.Chain.{
  LayerType, l1, l2, IsoCodeType, brl, eth, knn, usd, matic, NetworkType, ethereum, polygon,
  ethereum_sepolia, polygon_mumbai, network_id, layer, Environment, is_production, new_chain,
}
use offchain_service.Common.Format.{format_decimals, decimal}
use offchain_service.Price.Calculus.{CurrencyAmount}
use offchain_service.Price.Rates.{Aggregate}
use offchain_service.Price.Quote.{truncated, is_below_minimum, execute}
use offchain_service.Price.Request.{
  TransactionType, lock_supply, claim, Request, Quote, QuotePorts, is_l1,
}
use offchain_service.Order.{
  Order, OrderStatus, UserIdentifier, email, crypto_wallet, unknown_identifier, create,
}
use offchain_service.Ledger.Sync.{Encryption}
use offchain_service.Supply.Claiming.Addresses.{validate_email_address, validate_crypto_wallet}

-- `CreateOrderDto`; no chain is the number 0.
pub record CreateOrder : Type 0 where
  pub amount : CurrencyAmount
  pub user_identifier : Text
  pub identifier_type : UserIdentifier
  pub chain_id : ℕ
  pub client_ip : Option Text
  pub client_agent : Option Text

-- What the use case is given: the quote's settings and ports, the cipher, a fresh identifier and its
-- encoder, whether the database answers, and the payload and image of the payment.
pub record PlacementPorts (n : Numbers) : Type 1 where
  pub quotes : QuotePorts n
  pub cipher : Encryption
  pub cbc_key : Text
  pub new_id : Text
  pub to_base36 : Text → Text
  pub is_up : Bool
  pub generate_pix : n.F → Option Text → Result (Text × Text)

-- `BrazilianPixOrderDto`: the order, with the payload and the image.
pub record Placed (F : Type 0) : Type 0 where
  pub order : Order F
  pub payload : Text
  pub base64 : Text

-- `allowedChains`
unfoldable pub allowed_chains : Environment → List NetworkType
unfolding is_production
allowed_chains env =
    if is_production env || env.allow_debug_prod
    then ethereum ∷ polygon ∷ []
    else ethereum_sepolia ∷ polygon_mumbai ∷ []

-- `allowedChains.includes(chainId)`
abbrev pub is_allowed : Environment → ℕ → Bool
is_allowed env id = any (λ c. network_id c == id) (allowed_chains env)

-- `isLayer2Request`
abbrev pub is_layer2_request : Environment → IsoCodeType → ℕ → Result Bool
is_layer2_request env matic id = ok true
is_layer2_request env brl id = new_chain env id >>= λ c. ok (not (is_l1 (layer c)))
is_layer2_request env eth id = new_chain env id >>= λ c. ok (not (is_l1 (layer c)))
is_layer2_request env knn id = new_chain env id >>= λ c. ok (not (is_l1 (layer c)))
is_layer2_request env usd id = new_chain env id >>= λ c. ok (not (is_l1 (layer c)))

abbrev validate_identifier : UserIdentifier → Text → Result (Unit {0})
validate_identifier crypto_wallet t = validate_crypto_wallet (some t)
validate_identifier email t = validate_email_address t
validate_identifier unknown_identifier t = err invalid_identifier_type

abbrev is_unknown : UserIdentifier → Bool
is_unknown unknown_identifier = true
is_unknown email = false
is_unknown crypto_wallet = false

abbrev is_missing : Text → Bool
is_missing [] = true
is_missing (_ ∷ _) = false

abbrev is_fiat : IsoCodeType → Bool
is_fiat brl = true
is_fiat usd = true
is_fiat eth = false
is_fiat knn = false
is_fiat matic = false

-- `identifierType === 'CW' ? 'Claim' : 'LockSupply'`
abbrev transaction_type_of : UserIdentifier → TransactionType
transaction_type_of crypto_wallet = claim
transaction_type_of email = lock_supply
transaction_type_of unknown_identifier = lock_supply

module _ (n : Numbers) (ports : PlacementPorts n) where
  open n use {F, read}
  open ports use {quotes, cipher, cbc_key, new_id, to_base36, is_up, generate_pix}
  open quotes use {environment, current_chain, minimum_total, now}

  -- The chain, where the request names none on layer 1.
  abbrev pub with_chain : CreateOrder → CreateOrder
  with_chain r =
      if r.chain_id == 0 && is_l1 (layer current_chain)
      then record r { chain_id = network_id current_chain }
      else r

  -- `validateCurrentChain`
  unfoldable pub validate_current_chain : CreateOrder → Result (Unit {0})
  unfolding allowed_chains
  validate_current_chain r = do
    throw_if (r.chain_id == 0) chain_not_informed
    throw_if (not (is_allowed environment r.chain_id)) chain_not_allowed
    on_layer2 ← is_layer2_request environment r.amount.iso_code r.chain_id
    throw_if (on_layer2 && is_l1 (layer current_chain)) layer_unavailable

  -- `validateMinimumAmount`
  unfoldable pub validate_minimum : CurrencyAmount → Result (Unit {0})
  validate_minimum a = throw_if (is_below_minimum n quotes (truncated n quotes a)) below_minimum

  -- `validate`; the currencies of the enum are all allowed.
  unfoldable pub validate : CreateOrder → Result (Unit {0})
  unfolding validate_minimum
  validate r = do
    throw_if (is_unknown r.identifier_type) invalid_identifier_type
    throw_if (is_missing r.user_identifier) identifier_required
    validate_identifier r.identifier_type r.user_identifier
    if is_fiat r.amount.iso_code then validate_minimum r.amount else ok tt

  abbrev pub quote_request : CreateOrder → Request
  quote_request r = record {
    amount = r.amount;
    transaction_type = some (transaction_type_of r.identifier_type);
    force_reload = false;
    chain_id = r.chain_id;
  }

  -- `Number(formatDecimals(amount.unassignedNumber, amount.decimals, { truncateDecimals }))`
  abbrev pub number_of : CurrencyAmount → ℕ → F
  number_of a places = read (format_decimals (decimal a.unassigned_number) a.decimals (some places))

  -- The properties of the new order.
  abbrev pub order_properties : CreateOrder → Quote → Order F
  order_properties r q = record {
    id = new_id;
    iso_code = brl;
    total = number_of q.total.in_brl 2;
    total_gas = number_of q.gas_amount.in_brl 2;
    total_net = number_of q.net_total.in_brl 2;
    total_knn = number_of q.final_amount_of_tokens 8;
    amount_of_tokens = q.final_amount_of_tokens;
    user_identifier = r.user_identifier;
    identifier_type = r.identifier_type;
    desired_chain_id = r.chain_id;
    parent_id = none;
    client_ip = r.client_ip;
    client_agent = r.client_agent;
    end_to_end_id = none;
    status = none;
    expires_at = none;
    created_at = now;
    payment_count = none;
    payment_sequence = none;
    payment_provider_id = none;
    claim_transaction_hash = none;
    lock_transaction_hash = none;
    total_locked_uint256 = none;
    contract_address = none;
    settled_chain_id = none;
  }

  -- The new order, with its identifier encrypted.
  abbrev pub order_of : CreateOrder → Quote → Result (Order F)
  order_of r q = do
    o ← create to_base36 n minimum_total (order_properties r q)
    encrypted ← cipher.encrypt r.user_identifier o.id cbc_key
    ok (record o { user_identifier = encrypted })

  -- What follows the quote; without one there is no order.
  abbrev pub after_quote : CreateOrder → Result Quote → Result (Option (Order F))
  after_quote r (err _) = ok none
  after_quote r (ok q) = validate_minimum q.total.in_brl >> (order_of r q >>= λ o. ok (some o))

  -- `execute` up to the row, for a request with its chain.
  abbrev pub prepare : CreateOrder → Result (Option (Order F))
  prepare r = do
    validate_current_chain r
    validate r
    after_quote r (execute n quotes (quote_request r))

  abbrev with_pix : Order F → Result (Text × Text) → Result (Option (Placed F))
  with_pix o (err k) = err k
  with_pix o (ok (payload, base64)) =
      ok (some (record { order = o; payload = payload; base64 = base64 }))

  -- `PersistableOrderPort.create`, and the payment.
  abbrev pub store_order :
      Result (Option (Order F)) → List (Order F) → List (Order F) × Result (Option (Placed F))
  store_order (err k) rows = (rows, err k)
  store_order (ok none) rows = (rows, ok none)
  store_order (ok (some o)) rows =
      if is_up
      then (rows ++ o ∷ [], with_pix o (generate_pix o.total o.end_to_end_id))
      else (rows, err database_failed)

  -- `execute`, on the rows of the table `order`
  unfoldable pub place_order :
      CreateOrder → List (Order F) → List (Order F) × Result (Option (Placed F))
  unfolding validate_current_chain validate
  place_order r rows = store_order (prepare (with_chain r)) rows
