-- ===== src/Tests/QuoteExamples.antt =====
-- The properties of quotes and placements at a request of a hundred reais.
use offchain_service.Base.{ℕ, ◌+◌, ◌*◌, ◌≡◌, ◌⊎◌, refl, true, false, none, some, [], codes, ok, err}
use offchain_service.Base.Lists.{replicate}
use offchain_service.Base.Results.{port}
use offchain_service.Common.Chain.{
  IsoCodeType, brl, usd, eth, knn, matic, ethereum_sepolia, NetworkType, new_chain, layer,
  network_id, is_targetable,
}
use offchain_service.Common.Format.{format_decimals, decimal, validate_decimals}
use offchain_service.Price.Calculus.{CurrencyAmount, pad_units, multiply, divide, sub}
use offchain_service.Price.Rates.{Bases, amount_in, get_quotation}
use offchain_service.Price.Quote.{
  is_below_minimum, truncated, execute, validate_entry, calculate_gas, prepare_entry_amount,
  per_token,
}
use offchain_service.Price.Request.{Request, Quote, QuotePorts, transfer, claim, is_misplaced}
use offchain_service.Price.Quote.Laws.{Nets, execute-on_chain, execute-Nets}
use offchain_service.Order.{email}
use offchain_service.Placement.{CreateOrder, PlacementPorts, place_order}
use offchain_service.Placement.Laws.{Places, place_order-Places}
use offchain_service.Tests.Instances.{numbers, ethers, exact, plain}

abbrev amount : ℕ → IsoCodeType → CurrencyAmount
amount k c = record { unassigned_number = k; decimals = 2; iso_code = c }

abbrev units : ℕ → IsoCodeType → CurrencyAmount
units k c = record { unassigned_number = k; decimals = 18; iso_code = c }

abbrev bases : Bases
bases = record {
  usd_brl = amount 500 brl;
  knn_usd = amount 10 usd;
  knn_eth = amount 1 eth;
  matic_eth = amount 1 eth;
}

abbrev pub quote_ports : QuotePorts numbers
quote_ports = record {
  ethers = ethers;
  environment = record { node_env = codes "test"; allow_debug_prod = false };
  current_chain = ethereum_sepolia;
  minimum_total = 5;
  quote_expiration_seconds = 60;
  now = 200;
  bases = λ reload. ok bases;
  ethereum_gas_price =
      λ reload. ok (record { unassigned_number = 1000; decimals = 18; iso_code = eth });
  polygon_gas_price = λ reload. err (port 0);
  is_negative_error = λ e. false;
}

abbrev request : Request
request = record {
  amount = amount 10000 brl;
  transaction_type = some claim;
  force_reload = false;
  chain_id = 0;
}

-- The quote that the request gets.
abbrev quote : Quote
quote = record {
  transaction_type = claim;
  chain_id = 11155111;
  user_amount = amount 10000 brl;
  final_amount_of_tokens = units 199999999991249000000 knn;
  total = record {
    in_knn = units 200000000000000000000 knn;
    in_brl = amount 10000 brl;
    in_usd = units 20000000000000000000 usd;
    in_eth = units 2000000000000000000 eth;
    in_matic = units 200000000000000000000 matic;
  };
  total_per_token = record {
    per_usd = units 100000000004375500 usd;
    per_eth = units 10000000000437550 eth;
    per_brl = units 500000000021877500 brl;
    per_matic = units 1000000000043755000 matic;
  };
  gas_amount = record {
    in_knn = units 8751000000 knn;
    in_brl = units 4375500000 brl;
    in_usd = units 875100000 usd;
    in_eth = units 87510000 eth;
    in_matic = units 8751000000 matic;
  };
  net_total = record {
    in_knn = units 199999999991249000000 knn;
    in_brl = units 99999999995624500000 brl;
    in_usd = units 19999999999124900000 usd;
    in_eth = units 1999999999912490000 eth;
    in_matic = units 199999999991249000000 matic;
  };
  created_at = 200;
  expires_at = 60200;
}

is_quoted : execute numbers quote_ports request ≡ ok quote
unfolding execute validate_entry validate_decimals layer format_decimals decimal network_id
    new_chain is_targetable calculate_gas multiply pad_units divide prepare_entry_amount sub
    get_quotation per_token
is_quoted = refl

execute-on_chain_example :
    ((chain : NetworkType) × (new_chain quote_ports.environment quote.chain_id ≡ ok chain)
      × (is_misplaced brl (layer chain) ≡ false))
    × ((quote.transaction_type ≡ transfer)
        ⊎ (is_below_minimum numbers quote_ports (truncated numbers quote_ports quote.total.in_brl)
            ≡ false))
    × (quote.expires_at ≡ quote.created_at + quote_ports.quote_expiration_seconds * 1000)
execute-on_chain_example = execute-on_chain numbers quote_ports request is_quoted

execute-Nets_example :
    (amount_in brl quote.total ≡ request.amount)
    × Nets brl
        (pad_units request.amount)
        (pad_units (amount_in brl quote.gas_amount))
        (pad_units (amount_in brl quote.net_total))
execute-Nets_example = execute-Nets numbers quote_ports exact request is_quoted

abbrev placement_ports : PlacementPorts numbers
placement_ports = record {
  quotes = quote_ports;
  cipher = plain;
  cbc_key = codes "k";
  new_id = codes "i1";
  to_base36 = λ t. replicate 24 b'e';
  is_up = true;
  generate_pix = λ total id. ok (codes "payload", codes "image");
}

abbrev placement : CreateOrder
placement = record {
  amount = amount 10000 brl;
  user_identifier = codes "a@b.c";
  identifier_type = email;
  chain_id = 0;
  client_ip = none;
  client_agent = none;
}

place_order-Places_example :
    Places numbers placement_ports placement [] (place_order numbers placement_ports placement []).0
place_order-Places_example = place_order-Places numbers placement_ports placement []
