-- ===== src/Price/Rates/Precise.antt =====
-- The decimal places of what the strategies compute.
use offchain_service.Base.{
  ◌≡◌, sym, ap, subst, Result, ok, ◌>>=◌, throw_if, bind-ok, then-ok, ok_injective,
}
use offchain_service.Base.Results.{possible_underflow}
use offchain_service.Common.Chain.{IsoCodeType, brl, eth, knn, usd, matic}
use offchain_service.Price.Calculus.{
  CurrencyAmount, Ethers, to_fixed_number, to_currency, through, divide, multiply,
}
use offchain_service.Price.Rates.{
  Bases, Aggregate, amount_in, calculate_brl, calculate_usd, calculate_knn, calculate_eth,
  calculate_matic, get_quotation,
}

-- All amounts have eighteen decimal places.
abbrev pub IsPrecise : Aggregate → Type 0
IsPrecise q = (c : IsoCodeType) → (amount_in c q).decimals ≡ 18

abbrev Gives18 : Result CurrencyAmount → Type 0
Gives18 m = (x : CurrencyAmount) → m ≡ ok x → x.decimals ≡ 18

to_currency-Gives18 : (e : Ethers) (z : e.Fixed) (c : IsoCodeType) → Gives18 (to_currency e z 18 c)
unfolding to_currency
to_currency-Gives18 e z c x h =
    let (_, h1) =
      then-ok (throw_if (e.is_negative z) possible_underflow)
        (e.parse_ether z >>= λ k.
          ok (record { unassigned_number = k; decimals = 18; iso_code = c }))
        h in
    let (k, _, h2) =
      bind-ok (e.parse_ether z)
        (λ k. ok (record { unassigned_number = k; decimals = 18; iso_code = c })) h1 in
    ap (λ (y : CurrencyAmount). y.decimals) (sym (ok_injective h2))

through-Gives18 :
    (e : Ethers) (op : e.Fixed → e.Fixed → Result e.Fixed) (a b : CurrencyAmount) (c : IsoCodeType)
    → Gives18 (through e op a b c)
unfolding through
through-Gives18 e op a b c x h =
    let (u, _, h1) =
      bind-ok (to_fixed_number e a)
        (λ u. to_fixed_number e b >>= λ v. op u v >>= λ z. to_currency e z 18 c) h in
    let (v, _, h2) = bind-ok (to_fixed_number e b) (λ v. op u v >>= λ z. to_currency e z 18 c) h1 in
    let (z, _, h3) = bind-ok (op u v) (λ z. to_currency e z 18 c) h2 in
    to_currency-Gives18 e z c x h3

divide-Gives18 : (e : Ethers) (a b : CurrencyAmount) (c : IsoCodeType) → Gives18 (divide e a b c)
unfolding divide
divide-Gives18 e a b c = through-Gives18 e e.div_unsafe a b c

multiply-Gives18 :
    (e : Ethers) (a b : CurrencyAmount) (c : IsoCodeType) → Gives18 (multiply e a b c)
unfolding multiply
multiply-Gives18 e a b c = through-Gives18 e e.mul_unsafe a b c

step-IsPrecise :
    {m : Result CurrencyAmount} {next : CurrencyAmount → Result Aggregate} {q : Aggregate}
    → Gives18 m
    → ((x : CurrencyAmount) → x.decimals ≡ 18 → next x ≡ ok q → IsPrecise q)
    → (m >>= next) ≡ ok q
    → IsPrecise q
step-IsPrecise {m} {next} gives rest h =
    let (x, is_x, h1) = bind-ok m next h in rest x (gives x is_x) h1

aggregate-IsPrecise :
    (p : Aggregate) {q : Aggregate}
    → p.in_knn.decimals ≡ 18
    → p.in_brl.decimals ≡ 18
    → p.in_usd.decimals ≡ 18
    → p.in_eth.decimals ≡ 18
    → p.in_matic.decimals ≡ 18
    → ok p ≡ ok q
    → IsPrecise q
aggregate-IsPrecise p {q} k b u e m h = subst IsPrecise (ok_injective h) all
  where
    all : IsPrecise p
    all brl = b
    all eth = e
    all knn = k
    all usd = u
    all matic = m

-- Of an amount with eighteen decimal places all amounts have eighteen.
pub get_quotation-IsPrecise :
    (e : Ethers) (b : Bases) (c : IsoCodeType) (a : CurrencyAmount) {q : Aggregate}
    → a.decimals ≡ 18
    → get_quotation e b c a ≡ ok q
    → IsPrecise q
unfolding get_quotation calculate_brl calculate_usd calculate_knn calculate_eth calculate_matic
get_quotation-IsPrecise e b brl a d h =
    step-IsPrecise (divide-Gives18 e a b.usd_brl usd)
      (λ u du. step-IsPrecise (divide-Gives18 e u b.knn_usd knn) (λ k dk.
        step-IsPrecise (multiply-Gives18 e k b.knn_eth eth) (λ t dt.
          step-IsPrecise (divide-Gives18 e t b.matic_eth matic) (λ m dm g.
            aggregate-IsPrecise
              (record { in_knn = k; in_brl = a; in_usd = u; in_eth = t; in_matic = m }) dk d du dt
              dm g))))
      h
get_quotation-IsPrecise e b usd a d h =
    step-IsPrecise (multiply-Gives18 e a b.usd_brl brl)
      (λ r dr. step-IsPrecise (divide-Gives18 e a b.knn_usd knn) (λ k dk.
        step-IsPrecise (multiply-Gives18 e k b.knn_eth eth) (λ t dt.
          step-IsPrecise (divide-Gives18 e t b.matic_eth matic) (λ m dm g.
            aggregate-IsPrecise
              (record { in_knn = k; in_brl = r; in_usd = a; in_eth = t; in_matic = m }) dk dr d dt
              dm g))))
      h
get_quotation-IsPrecise e b knn a d h =
    step-IsPrecise (multiply-Gives18 e a b.knn_usd usd)
      (λ u du. step-IsPrecise (multiply-Gives18 e a b.knn_eth eth) (λ t dt.
        step-IsPrecise (divide-Gives18 e t b.matic_eth matic) (λ m dm.
          step-IsPrecise (multiply-Gives18 e u b.usd_brl brl) (λ r dr g.
            aggregate-IsPrecise
              (record { in_knn = a; in_brl = r; in_usd = u; in_eth = t; in_matic = m }) d dr du dt
              dm g))))
      h
get_quotation-IsPrecise e b eth a d h =
    step-IsPrecise (divide-Gives18 e a b.knn_eth knn)
      (λ k dk. step-IsPrecise (multiply-Gives18 e k b.knn_usd usd) (λ u du.
        step-IsPrecise (multiply-Gives18 e u b.usd_brl brl) (λ r dr.
          step-IsPrecise (divide-Gives18 e a b.matic_eth matic) (λ m dm g.
            aggregate-IsPrecise
              (record { in_knn = k; in_brl = r; in_usd = u; in_eth = a; in_matic = m }) dk dr du d
              dm g))))
      h
get_quotation-IsPrecise e b matic a d h =
    step-IsPrecise (multiply-Gives18 e a b.matic_eth eth)
      (λ t dt. step-IsPrecise (divide-Gives18 e t b.knn_eth knn) (λ k dk.
        step-IsPrecise (multiply-Gives18 e k b.knn_usd usd) (λ u du.
          step-IsPrecise (multiply-Gives18 e u b.usd_brl brl) (λ r dr g.
            aggregate-IsPrecise
              (record { in_knn = k; in_brl = r; in_usd = u; in_eth = t; in_matic = a }) dk dr du dt
              d g))))
      h
