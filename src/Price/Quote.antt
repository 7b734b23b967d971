-- ===== src/Price/Quote.antt =====
-- src/domain/price/usecases/create-quote.usecase.ts, `execute` and what it calls. An amount is a
-- number with a currency of the enum, so the tests for digits and for currencies hold as it is. The
-- four bases are fetched together; where several fail, the error here is the first one's.
pub mod Laws
use offchain_service.Base.{
  ℕ, ◌+◌, ◌*◌, ◌==◌, Bool, true, false, ◌&&◌, ◌||◌, not, any, if◌then◌else◌, Option, none, some,
  codes, Error, Result, ok, err, ◌>>=◌, ◌>>◌, throw_if,
}
use offchain_service.Base.Results.{
  invalid_decimals, below_minimum, chain_not_informed, invalid_chain, invalid_currency_layer,
  gas_above_amount,
}
use offchain_service.Base.Numbers.{Numbers}
use offchain_service.Common.Chain.{
  LayerType, l1, l2, IsoCodeType, brl, eth, knn, usd, matic, NetworkType, network_id, networks,
  layer, Environment, new_chain,
}
use offchain_service.Common.Format.{format_decimals, decimal, validate_decimals}
use offchain_service.Price.Calculus.{CurrencyAmount, Ethers, sum, sub, divide, multiply}
use offchain_service.Price.Rates.{
  Bases, Aggregate, amount_in, calculate_eth, calculate_matic, get_quotation,
}
use offchain_service.Price.Request.{
  TransactionType, transfer, lock_supply, claim, Request, PerToken, Quote, QuotePorts,
  estimated_gas, is_l1, is_transfer, or_claim, is_misplaced, is_brl,
}

module _ (n : Numbers) (ports : QuotePorts n) where
  open n use {F, lt, le, read}
  open ports use {ethers, environment, current_chain, minimum_total, now, is_negative_error}

  -- `Number(formatDecimals(…, { truncateDecimals: 2 }))`
  abbrev pub truncated : CurrencyAmount → F
  truncated a = read (format_decimals (decimal a.unassigned_number) a.decimals (some 2))

  abbrev pub is_below_minimum : F → Bool
  is_below_minimum x =
      lt x minimum_total && not (le (read (codes "4.19")) x && le x (read (codes "4.21")))

  -- `validateMinimumAmount`
  unfoldable pub validate_minimum_amount :
      CurrencyAmount → Option TransactionType → Result (Unit {0})
  validate_minimum_amount a t =
      throw_if (not (is_transfer t) && is_below_minimum (truncated a)) below_minimum

  -- `validateEntry` from the constructor of the chain on.
  abbrev pub validate_layer : IsoCodeType → NetworkType → Result (Unit {0})
  validate_layer c chain = throw_if (is_misplaced c (layer chain)) invalid_currency_layer

  -- `validateEntry` up to it: the amount, the minimum, and the number of the chain.
  unfoldable pub validate_amount : Request → Result (Unit {0})
  unfolding validate_minimum_amount
  validate_amount r = do
    throw_if (not (validate_decimals r.amount.decimals)) invalid_decimals
    (if is_brl r.amount.iso_code
        then validate_minimum_amount r.amount r.transaction_type
        else ok tt)
    throw_if (r.chain_id == 0) chain_not_informed
    throw_if (not (any (λ m. network_id m == r.chain_id) networks)) invalid_chain

  -- `validateEntry`
  unfoldable pub validate_entry : Request → Result (Unit {0})
  unfolding validate_amount
  validate_entry r = do
    validate_amount r
    chain ← new_chain environment r.chain_id
    validate_layer r.amount.iso_code chain

  abbrev pub rethrown : CurrencyAmount → Result CurrencyAmount → Result CurrencyAmount
  rethrown a (ok x) = ok x
  rethrown a (err k) = err (if is_negative_error k then gas_above_amount else k)

  -- `prepareEntryAmount`, by the currency of the entry.
  abbrev pub prepare_for : IsoCodeType → CurrencyAmount → Aggregate → Result CurrencyAmount
  prepare_for brl a gas = rethrown a (sub ethers a (amount_in brl gas))
  prepare_for usd a gas = rethrown a (sub ethers a (amount_in usd gas))
  prepare_for knn a gas = sum ethers a (amount_in knn gas)
  prepare_for eth a gas = ok a
  prepare_for matic a gas = ok a

  unfoldable pub prepare_entry_amount : CurrencyAmount → Aggregate → Result CurrencyAmount
  prepare_entry_amount a gas = prepare_for a.iso_code a gas

  -- The gas of a layer: its price, times the estimate, in all currencies.
  abbrev layer_gas : LayerType → Request → Bases → Result Aggregate
  layer_gas l2 r b = do
    price ← ports.polygon_gas_price r.force_reload
    in_matic ←
        multiply ethers
          (record {
            unassigned_number = estimated_gas (or_claim r.transaction_type);
            decimals = 0;
            iso_code = matic;
          })
          price matic
    calculate_matic ethers b in_matic
  layer_gas l1 r b = do
    price ← ports.ethereum_gas_price r.force_reload
    in_eth ←
        multiply ethers
          (record {
            unassigned_number = estimated_gas (or_claim r.transaction_type);
            decimals = 0;
            iso_code = eth;
          })
          price eth
    calculate_eth ethers b in_eth

  -- `calculateGas`
  unfoldable pub calculate_gas : Request → Bases → Result Aggregate
  unfolding layer estimated_gas calculate_eth calculate_matic
  calculate_gas r b = do chain ← new_chain environment r.chain_id; layer_gas (layer chain) r b

  -- `shouldEnforceChainId`
  abbrev pub enforced : Request → Request
  enforced r =
      if r.chain_id == 0 && is_l1 (layer current_chain)
      then record r { chain_id = network_id current_chain }
      else r

  -- `finalAmountOfTokens`
  abbrev pub final_tokens : CurrencyAmount → Aggregate → CurrencyAmount
  final_tokens a net = elim a.iso_code [
    | knn ↦ record a { iso_code = knn }
    | brl ↦ record net.in_knn { iso_code = knn }
    | usd ↦ record net.in_knn { iso_code = knn }
    | eth ↦ record net.in_knn { iso_code = knn }
    | matic ↦ record net.in_knn { iso_code = knn }
  ]

  -- `totalPerToken`
  unfoldable pub per_token : Aggregate → CurrencyAmount → Result PerToken
  per_token total tokens = do
    per_usd ← divide ethers total.in_usd tokens usd
    per_eth ← divide ethers total.in_eth tokens eth
    per_brl ← divide ethers total.in_brl tokens brl
    per_matic ← divide ethers total.in_matic tokens matic
    ok (record { per_usd = per_usd; per_eth = per_eth; per_brl = per_brl; per_matic = per_matic })

  abbrev pub quote_record : Request → Aggregate → Aggregate → Aggregate → PerToken → Quote
  quote_record r gas net total per = record {
    transaction_type = or_claim r.transaction_type;
    chain_id = r.chain_id;
    user_amount = r.amount;
    final_amount_of_tokens = final_tokens r.amount net;
    total = total;
    total_per_token = per;
    gas_amount = gas;
    net_total = net;
    created_at = now;
    expires_at = now + ports.quote_expiration_seconds * 1000;
  }

  -- `execute` from `validateMinimumAmount` on.
  abbrev pub finish : Request → Aggregate → Aggregate → Aggregate → Result Quote
  finish r gas net total = do
    validate_minimum_amount total.in_brl (some (or_claim r.transaction_type))
    per ← per_token total (final_tokens r.amount net)
    ok (quote_record r gas net total per)

  -- `execute` from `userQuotation` on.
  abbrev pub quote_from : Request → Bases → Aggregate → CurrencyAmount → Result Quote
  quote_from r b gas entry_amount = do
    net ← get_quotation ethers b r.amount.iso_code entry_amount
    total ← get_quotation ethers b r.amount.iso_code r.amount
    finish r gas net total

  -- `execute` from `calculateGas` on.
  abbrev pub quote_with : Request → Bases → Result Quote
  quote_with r b = do
    gas ← calculate_gas r b
    entry_amount ← prepare_entry_amount r.amount gas
    quote_from r b gas entry_amount

  -- `execute` on a request with its chain.
  abbrev pub quote_of : Request → Result Quote
  quote_of r = do validate_entry r; b ← ports.bases r.force_reload; quote_with r b

  -- `execute`
  unfoldable pub execute : Request → Result Quote
  execute r = quote_of (enforced r)
