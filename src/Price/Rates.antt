-- ===== src/Price/Rates.antt =====
-- src/domain/price/usecases/create-quote.usecase.ts, the five strategies: an amount in one currency
-- as an amount in each.
pub mod Precise
use offchain_service.Base.{◌≡◌, arith, Result, ok, ◌>>=◌}
use offchain_service.Common.Chain.{IsoCodeType, brl, eth, knn, usd, matic}
use offchain_service.Price.Calculus.{CurrencyAmount, Ethers, divide, multiply}

-- The prices that the strategies read of the bases: a dollar in reais, a token in dollars and in
-- ether, and a matic in ether.
pub record Bases : Type 0 where
  pub usd_brl : CurrencyAmount
  pub knn_usd : CurrencyAmount
  pub knn_eth : CurrencyAmount
  pub matic_eth : CurrencyAmount

-- `QuotationAggregate`
pub record Aggregate : Type 0 where
  pub in_knn : CurrencyAmount
  pub in_brl : CurrencyAmount
  pub in_usd : CurrencyAmount
  pub in_eth : CurrencyAmount
  pub in_matic : CurrencyAmount

-- `aggregate[isoCode]`
abbrev pub amount_in : IsoCodeType → Aggregate → CurrencyAmount
amount_in brl q = q.in_brl
amount_in eth q = q.in_eth
amount_in knn q = q.in_knn
amount_in usd q = q.in_usd
amount_in matic q = q.in_matic

module _ (e : Ethers) (b : Bases) where
  unfoldable pub calculate_brl : CurrencyAmount → Result Aggregate
  calculate_brl in_brl = do
    in_usd ← divide e in_brl b.usd_brl usd
    in_knn ← divide e in_usd b.knn_usd knn
    in_eth ← multiply e in_knn b.knn_eth eth
    in_matic ← divide e in_eth b.matic_eth matic
    ok (record {
      in_knn = in_knn;
      in_brl = in_brl;
      in_usd = in_usd;
      in_eth = in_eth;
      in_matic = in_matic;
    })

  unfoldable pub calculate_usd : CurrencyAmount → Result Aggregate
  calculate_usd in_usd = do
    in_brl ← multiply e in_usd b.usd_brl brl
    in_knn ← divide e in_usd b.knn_usd knn
    in_eth ← multiply e in_knn b.knn_eth eth
    in_matic ← divide e in_eth b.matic_eth matic
    ok (record {
      in_knn = in_knn;
      in_brl = in_brl;
      in_usd = in_usd;
      in_eth = in_eth;
      in_matic = in_matic;
    })

  unfoldable pub calculate_knn : CurrencyAmount → Result Aggregate
  calculate_knn in_knn = do
    in_usd ← multiply e in_knn b.knn_usd usd
    in_eth ← multiply e in_knn b.knn_eth eth
    in_matic ← divide e in_eth b.matic_eth matic
    in_brl ← multiply e in_usd b.usd_brl brl
    ok (record {
      in_knn = in_knn;
      in_brl = in_brl;
      in_usd = in_usd;
      in_eth = in_eth;
      in_matic = in_matic;
    })

  unfoldable pub calculate_eth : CurrencyAmount → Result Aggregate
  calculate_eth in_eth = do
    in_knn ← divide e in_eth b.knn_eth knn
    in_usd ← multiply e in_knn b.knn_usd usd
    in_brl ← multiply e in_usd b.usd_brl brl
    in_matic ← divide e in_eth b.matic_eth matic
    ok (record {
      in_knn = in_knn;
      in_brl = in_brl;
      in_usd = in_usd;
      in_eth = in_eth;
      in_matic = in_matic;
    })

  unfoldable pub calculate_matic : CurrencyAmount → Result Aggregate
  calculate_matic in_matic = do
    in_eth ← multiply e in_matic b.matic_eth eth
    in_knn ← divide e in_eth b.knn_eth knn
    in_usd ← multiply e in_knn b.knn_usd usd
    in_brl ← multiply e in_usd b.usd_brl brl
    ok (record {
      in_knn = in_knn;
      in_brl = in_brl;
      in_usd = in_usd;
      in_eth = in_eth;
      in_matic = in_matic;
    })

  -- `this.getQuotation[isoCode]`
  unfoldable pub get_quotation : IsoCodeType → CurrencyAmount → Result Aggregate
  unfolding calculate_brl calculate_usd calculate_knn calculate_eth calculate_matic
  get_quotation brl a = calculate_brl a
  get_quotation usd a = calculate_usd a
  get_quotation eth a = calculate_eth a
  get_quotation knn a = calculate_knn a
  get_quotation matic a = calculate_matic a

-- Each strategy keeps the amount that it was given in its own currency.
pub get_quotation-amount_in :
    (e : Ethers) (b : Bases) (c : IsoCodeType) (a : CurrencyAmount) {q : Aggregate}
    → get_quotation e b c a ≡ ok q
    → amount_in c q ≡ a
unfolding get_quotation calculate_brl calculate_usd calculate_knn calculate_eth calculate_matic
get_quotation-amount_in e b brl a h = ground arith
get_quotation-amount_in e b eth a h = ground arith
get_quotation-amount_in e b knn a h = ground arith
get_quotation-amount_in e b usd a h = ground arith
get_quotation-amount_in e b matic a h = ground arith
