-- ===== src/Price/Request.antt =====
-- The data of src/domain/price/usecases/create-quote.usecase.ts: the request, the quote, the ports,
-- and the tests of a kind of transaction or of a currency.
use offchain_service.Base.{ℕ, Bool, true, false, not, Option, none, some, Error, Result}
use offchain_service.Base.Numbers.{Numbers}
use offchain_service.Common.Chain.{
  LayerType, l1, l2, IsoCodeType, brl, eth, knn, usd, matic, NetworkType, Environment,
}
use offchain_service.Price.Calculus.{CurrencyAmount, Ethers}
use offchain_service.Price.Rates.{Bases, Aggregate}

-- `TransactionType`
pub data TransactionType : Type 0 where
  transfer lock_supply claim : TransactionType

-- `CreateQuoteDto`; no chain is the number 0.
pub record Request : Type 0 where
  pub amount : CurrencyAmount
  pub transaction_type : Option TransactionType
  pub force_reload : Bool
  pub chain_id : ℕ

-- `Quote`; `total_per_token` has no amount in tokens.
pub record PerToken : Type 0 where
  pub per_usd : CurrencyAmount
  pub per_eth : CurrencyAmount
  pub per_brl : CurrencyAmount
  pub per_matic : CurrencyAmount

pub record Quote : Type 0 where
  pub transaction_type : TransactionType
  pub chain_id : ℕ
  pub user_amount : CurrencyAmount
  pub final_amount_of_tokens : CurrencyAmount
  pub total : Aggregate
  pub total_per_token : PerToken
  pub gas_amount : Aggregate
  pub net_total : Aggregate
  pub created_at : ℕ
  pub expires_at : ℕ

-- The settings and the ports; `bases` are the four price ports, and `is_negative_error` says which
-- errors have a message with the word.
pub record QuotePorts (n : Numbers) : Type 1 where
  pub ethers : Ethers
  pub environment : Environment
  pub current_chain : NetworkType
  pub minimum_total : n.F
  pub quote_expiration_seconds : ℕ
  pub now : ℕ
  pub bases : Bool → Result Bases
  pub ethereum_gas_price : Bool → Result CurrencyAmount
  pub polygon_gas_price : Bool → Result CurrencyAmount
  pub is_negative_error : Error → Bool

-- `estimatedGasInWEI` and `estimatedGasInMATIC`, which agree
unfoldable pub estimated_gas : TransactionType → ℕ
estimated_gas transfer = 20000
estimated_gas lock_supply = 37800
estimated_gas claim = 87510

abbrev pub is_l1 : LayerType → Bool
is_l1 l1 = true
is_l1 l2 = false

abbrev pub is_transfer : Option TransactionType → Bool
is_transfer (some transfer) = true
is_transfer (some lock_supply) = false
is_transfer (some claim) = false
is_transfer none = false

-- `entry?.transactionType ?? 'Claim'`
abbrev pub or_claim : Option TransactionType → TransactionType
or_claim none = claim
or_claim (some t) = t

-- Whether the currency is that of the other layer's gas.
abbrev pub is_misplaced : IsoCodeType → LayerType → Bool
is_misplaced eth l = not (is_l1 l)
is_misplaced matic l = is_l1 l
is_misplaced brl l = false
is_misplaced knn l = false
is_misplaced usd l = false

abbrev pub is_brl : IsoCodeType → Bool
is_brl brl = true
is_brl _ = false
