-- ===== src/Tests/DelegationExamples.antt =====
-- The properties of signed orders at one request.
use offchain_service.Base.{ℕ, ◌≡◌, refl, some, none, codes, ok, false}
use offchain_service.Common.Chain.{IsoCodeType, eth, knn, usd, brl, matic, new_chain, layer}
use offchain_service.Common.Chain.{network_id, is_targetable}
use offchain_service.Common.Format.{format_decimals, decimal, validate_decimals}
use offchain_service.Price.Calculus.{CurrencyAmount, divide, multiply, sub, pad_units}
use offchain_service.Price.Rates.{get_quotation, calculate_knn}
use offchain_service.Price.Quote.{
  execute, validate_entry, calculate_gas, prepare_entry_amount, per_token,
}
use offchain_service.Price.Request.{Quote, claim}
use offchain_service.Delegation
use offchain_service.Delegation.{
  validate_result, WalletRequest, DelegationPorts, DelegateOrder, one_token, unchecked_order,
  create_delegate_order, knn_to_currencies, signature_payload,
}
use offchain_service.Delegation.Laws.{
  IsSigned, create_delegate_order_unchecked, create_delegate_order-IsSigned,
}
use offchain_service.Tests.Instances.{numbers}
use offchain_service.Tests.QuoteExamples.{quote_ports}

abbrev units : ℕ → IsoCodeType → CurrencyAmount
units k c = record { unassigned_number = k; decimals = 18; iso_code = c }

abbrev wallet_request : WalletRequest
wallet_request = record {
  request = record {
    amount = units 3000000 eth;
    transaction_type = some claim;
    force_reload = false;
    chain_id = 11155111;
  };
  crypto_wallet = codes "0xa";
  client_agent = none;
  client_ip = none;
}

abbrev delegation_ports : DelegationPorts numbers
delegation_ports = record {
  quotes = quote_ports;
  hash = λ t. t;
  sign = λ p c. ok (record { signature = codes "s"; nonce = codes "7" });
  fetch_nonce = λ w c. ok (record { due_date = codes "9"; incremental_nonce = codes "1" });
}

-- The quote that the request gets.
abbrev quote : Quote
quote = record {
  transaction_type = claim;
  chain_id = 11155111;
  user_amount = units 3000000 eth;
  final_amount_of_tokens = units 300000000 knn;
  total = record {
    in_knn = units 300000000 knn;
    in_brl = units 150000000 brl;
    in_usd = units 30000000 usd;
    in_eth = units 3000000 eth;
    in_matic = units 300000000 matic;
  };
  total_per_token = record {
    per_usd = units 100000000000000000 usd;
    per_eth = units 10000000000000000 eth;
    per_brl = units 500000000000000000 brl;
    per_matic = units 1000000000000000000 matic;
  };
  gas_amount = record {
    in_knn = units 8751000000 knn;
    in_brl = units 4375500000 brl;
    in_usd = units 875100000 usd;
    in_eth = units 87510000 eth;
    in_matic = units 8751000000 matic;
  };
  net_total = record {
    in_knn = units 300000000 knn;
    in_brl = units 150000000 brl;
    in_usd = units 30000000 usd;
    in_eth = units 3000000 eth;
    in_matic = units 300000000 matic;
  };
  created_at = 200;
  expires_at = 60200;
}

-- The order that it gets.
abbrev signed_order : DelegateOrder
signed_order = record {
  quote = quote;
  price = record {
    in_knn = one_token;
    in_brl = units 500000000000000000 brl;
    in_usd = units 100000000000000000 usd;
    in_eth = units 10000000000000000 eth;
    in_matic = units 1000000000000000000 matic;
  };
  gas_estimate = codes "101130";
  signature = codes "s";
  incremental_nonce = codes "1";
  due_date = codes "9";
  nonce = codes "7";
}

is_created : create_delegate_order numbers delegation_ports wallet_request ≡ ok signed_order
unfolding create_delegate_order unchecked_order Delegation.validate_entry validate_result execute
    validate_entry validate_decimals layer format_decimals decimal network_id new_chain
    is_targetable calculate_gas multiply pad_units divide prepare_entry_amount sub get_quotation
    per_token one_token knn_to_currencies calculate_knn signature_payload
is_created = refl

create_delegate_order-IsSigned_example :
    IsSigned numbers delegation_ports wallet_request signed_order
create_delegate_order-IsSigned_example =
    create_delegate_order-IsSigned numbers delegation_ports wallet_request is_created

create_delegate_order_unchecked_example :
    create_delegate_order numbers delegation_ports wallet_request
    ≡ unchecked_order numbers delegation_ports wallet_request
create_delegate_order_unchecked_example =
    create_delegate_order_unchecked numbers delegation_ports wallet_request
