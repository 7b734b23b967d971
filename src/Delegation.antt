-- ===== src/Delegation.antt =====
-- src/domain/order/usecases/create-signed-delegate-order.usecase.ts, and
-- src/domain/price/usecases/knn-to-currencies.usecase.ts: a quote is signed, for the user to buy the
-- tokens on the chain. The log lines that precede a rethrown error are left out.
pub mod Laws
use offchain_service.Base.{
  ℕ, ◌==◌, Bool, true, false, not, Option, none, some, List, [], ◌∷◌, any, Text, codes, Result, ok,
  err, ◌>>=◌, ◌>>◌, throw_if,
}
use offchain_service.Base.Results.{
  missing_wallet, missing_chain, invalid_amount, missing_transaction_type, amount_mismatch,
  invalid_decimals,
}
use offchain_service.Base.Numbers.{Numbers}
use offchain_service.Common.Chain.{
  LayerType, l1, l2, IsoCodeType, brl, eth, knn, usd, matic, NetworkType, layer, new_chain,
}
use offchain_service.Common.Format.{decimal}
use offchain_service.Price.Calculus.{CurrencyAmount}
use offchain_service.Price.Rates.{Aggregate, amount_in, calculate_knn}
use offchain_service.Price.Quote.{execute}
use offchain_service.Price.Request.{TransactionType, Request, Quote, QuotePorts}

-- `CreateQuoteWithWallet`
pub record WalletRequest : Type 0 where
  pub request : Request
  pub crypto_wallet : Text
  pub client_agent : Option Text
  pub client_ip : Option Text

-- `SignaturePayload`
pub record SignaturePayload : Type 0 where
  pub types : List Text
  pub values : List Text

-- `NonceAndExpirationDto`
pub record NonceAndExpiration : Type 0 where
  pub due_date : Text
  pub incremental_nonce : Text

-- `SignatureResult`, of which these two are read.
pub record Signed : Type 0 where
  pub signature : Text
  pub nonce : Text

-- `DelegateOrderDto`
pub record DelegateOrder : Type 0 where
  pub quote : Quote
  pub price : Aggregate
  pub gas_estimate : Text
  pub signature : Text
  pub incremental_nonce : Text
  pub due_date : Text
  pub nonce : Text

-- The ports; `sign` is the port's with the signer `DynamicSaleClaimManager`.
pub record DelegationPorts (n : Numbers) : Type 1 where
  pub quotes : QuotePorts n
  pub hash : Text → Text
  pub sign : SignaturePayload → NetworkType → Result Signed
  pub fetch_nonce : Text → NetworkType → Result NonceAndExpiration

abbrev is_blank : Text → Bool
is_blank [] = true
is_blank (_ ∷ _) = false

abbrev is_none : {A : Type 0} → Option A → Bool
is_none none = true
is_none (some _) = false

abbrev is_tradable : IsoCodeType → Bool
is_tradable eth = true
is_tradable knn = true
is_tradable brl = false
is_tradable usd = false
is_tradable matic = false

-- `validateEntry`
unfoldable pub validate_entry : WalletRequest → Result (Unit {0})
validate_entry w = do
  throw_if (is_blank w.crypto_wallet) missing_wallet
  throw_if (w.request.chain_id == 0) missing_chain
  throw_if (not (is_tradable w.request.amount.iso_code)) invalid_amount
  throw_if (is_none w.request.transaction_type) missing_transaction_type
  throw_if (not (w.request.amount.decimals == 18)) invalid_decimals

-- `toKNN(1)`: the digits of `1.00000000`
unfoldable pub one_token : CurrencyAmount
one_token = record { unassigned_number = 100000000; decimals = 8; iso_code = knn }

-- `chainIsoCode`
unfoldable pub chain_iso_code : NetworkType → IsoCodeType
unfolding layer
chain_iso_code c = elim (layer c) [ l1 ↦ eth | l2 ↦ matic ]

-- `buyTypeHash` and `buyTypeHashL2`
abbrev pub buy_type : LayerType → Text
buy_type l1 =
    codes
      "BuyTokens(address recipient, uint256 knnPriceInUSD, uint16 incrementalNonce, uint256 dueDate, uint256 amountInETH, uint256 amountInETH, uint256 nonce)"
buy_type l2 =
    codes
      "BuyTokens(address recipient, uint256 knnPriceInUSD, uint16 incrementalNonce, uint256 dueDate, uint256 amountInETH, uint256 amountInKNN, uint256 nonce, uint256 chainId)"

-- Whether the currency's amount in the totals has not eighteen decimal places.
abbrev pub is_imprecise : IsoCodeType → Aggregate → Bool
is_imprecise c q = not ((amount_in c q).decimals == 18)

-- `validateResult`
unfoldable pub validate_result : WalletRequest → DelegateOrder → Result (Unit {0})
validate_result w d = do
  throw_if
      (not (
        (amount_in w.request.amount.iso_code d.quote.total).unassigned_number
        == w.request.amount.unassigned_number))
      amount_mismatch
  throw_if (any (λ c. is_imprecise c d.quote.total) (brl ∷ usd ∷ knn ∷ eth ∷ matic ∷ []))
      invalid_decimals

module _ (n : Numbers) (ports : DelegationPorts n) where
  open ports use {quotes, hash, sign, fetch_nonce}

  -- `KnnToCurrenciesUseCase.execute`
  unfoldable pub knn_to_currencies : CurrencyAmount → Result Aggregate
  unfolding calculate_knn
  knn_to_currencies a = quotes.bases false >>= λ b. calculate_knn quotes.ethers b a

  -- `getSignaturePayload`
  unfoldable pub signature_payload :
      NetworkType → Text → Aggregate → NonceAndExpiration → Quote → SignaturePayload
  unfolding layer chain_iso_code
  signature_payload c wallet price e q = record {
    types =
        codes "bytes32"
        ∷ codes "address"
        ∷ codes "uint256"
        ∷ codes "uint16"
        ∷ codes "uint256"
        ∷ codes "uint256"
        ∷ codes "uint256"
        ∷ [];
    values =
        hash (buy_type (layer c))
        ∷ wallet
        ∷ decimal price.in_usd.unassigned_number
        ∷ e.incremental_nonce
        ∷ e.due_date
        ∷ decimal (amount_in (chain_iso_code c) q.total).unassigned_number
        ∷ decimal q.total.in_knn.unassigned_number
        ∷ [];
  }

  abbrev pub delegate_order : Quote → Aggregate → NonceAndExpiration → Signed → DelegateOrder
  delegate_order q price e s = record {
    quote = q;
    price = price;
    gas_estimate = codes "101130";
    signature = s.signature;
    incremental_nonce = e.incremental_nonce;
    due_date = e.due_date;
    nonce = s.nonce;
  }

  -- `execute` from the constructor of the chain to the new order
  abbrev pub sign_quote : WalletRequest → Quote → Aggregate → Result DelegateOrder
  sign_quote w q price = do
    c ← new_chain quotes.environment w.request.chain_id
    e ← fetch_nonce w.crypto_wallet c
    s ← sign (signature_payload c w.crypto_wallet price e q) c
    ok (delegate_order q price e s)

  -- `execute` up to the check of the result
  unfoldable pub unchecked_order : WalletRequest → Result DelegateOrder
  unfolding validate_entry one_token knn_to_currencies signature_payload
  unchecked_order w = do
    validate_entry w
    q ← execute n quotes w.request
    price ← knn_to_currencies one_token
    sign_quote w q price

  -- `execute`
  unfoldable pub create_delegate_order : WalletRequest → Result DelegateOrder
  unfolding unchecked_order validate_result
  create_delegate_order w = do d ← unchecked_order w; validate_result w d; ok d
