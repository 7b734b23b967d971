-- ===== src/Price/Quote/Laws.antt =====
-- What the amounts of a quote add up to.
use offchain_service.Base.{
  ℕ, ◌+◌, ◌*◌, ◌≡◌, ◌⊎◌, refl, Bool, false, some, Result, ok, err, ok_injective, throw_if-ok,
  bind-ok, then-ok, throw_if, not, ◌&&◌, ◌∙◌, ap, sym, subst, ◌>>=◌, ◌<◌, ◌≤◌, arith,
}
use offchain_service.Base.Results.{invalid_currency_layer, below_minimum}
use offchain_service.Base.Numbers.{Numbers}
use offchain_service.Common.Chain.{
  IsoCodeType, brl, eth, knn, usd, matic, NetworkType, layer, new_chain,
}
use offchain_service.Price.Calculus.{CurrencyAmount, IsExact, fixed_limit, pad_units, sub}
use offchain_service.Price.Calculus.Laws.{Gives, sum-Gives, sub-Gives}
use offchain_service.Price.Rates.{
  Bases, Aggregate, amount_in, get_quotation, get_quotation-amount_in,
}
use offchain_service.Price.Quote.{
  is_below_minimum, truncated, validate_entry, validate_minimum_amount, prepare_for, rethrown,
  prepare_entry_amount, calculate_gas, enforced, final_tokens, per_token, quote_of, execute, finish,
  quote_from, quote_with, quote_record, validate_amount, validate_layer,
}
use offchain_service.Price.Request.{
  Request, Quote, QuotePorts, TransactionType, transfer, or_claim, is_misplaced, is_transfer,
}

-- How the net amount follows from the entered amount and the gas, by the currency of the entry.
abbrev pub Nets : IsoCodeType → ℕ → ℕ → ℕ → Type 0
Nets brl amount gas net = net + gas ≡ amount
Nets usd amount gas net = net + gas ≡ amount
Nets knn amount gas net = net ≡ amount + gas
Nets eth amount gas net = net ≡ amount
Nets matic amount gas net = net ≡ amount

module _ (n : Numbers) (ports : QuotePorts n) where
  -- What a call of `execute` has computed when it returns.
  record Computed (r : Request) (q : Quote) : Type 0 where
    chain : NetworkType
    entry_amount : CurrencyAmount
    bases : Bases
    on_chain : new_chain ports.environment r.chain_id ≡ ok chain
    placed : is_misplaced r.amount.iso_code (layer chain) ≡ false
    prepared : prepare_entry_amount n ports r.amount q.gas_amount ≡ ok entry_amount
    net : get_quotation ports.ethers bases r.amount.iso_code entry_amount ≡ ok q.net_total
    total : get_quotation ports.ethers bases r.amount.iso_code r.amount ≡ ok q.total
    enough : validate_minimum_amount n ports q.total.in_brl (some q.transaction_type) ≡ ok tt
    same_chain : q.chain_id ≡ r.chain_id
    expires : q.expires_at ≡ q.created_at + ports.quote_expiration_seconds * 1000

  validate_entry-ok :
      (r : Request)
      → validate_entry n ports r ≡ ok tt
      → (chain : NetworkType) × (new_chain ports.environment r.chain_id ≡ ok chain)
        × (is_misplaced r.amount.iso_code (layer chain) ≡ false)
  unfolding validate_entry
  validate_entry-ok r h =
      let placed_on = validate_layer n ports r.amount.iso_code in
      let (_, h1) =
        then-ok (validate_amount n ports r) (new_chain ports.environment r.chain_id >>= placed_on)
          h in
      let (chain, on_chain, h2) = bind-ok (new_chain ports.environment r.chain_id) placed_on h1 in
      (
        chain,
        on_chain,
        throw_if-ok (is_misplaced r.amount.iso_code (layer chain)) invalid_currency_layer h2,
      )

  quote_of-Computed : (r : Request) {q : Quote} → quote_of n ports r ≡ ok q → Computed r q
  quote_of-Computed r {q} h =
      let currency = r.amount.iso_code in
      let (valid, h1) =
        then-ok (validate_entry n ports r) (ports.bases r.force_reload >>= quote_with n ports r)
          h in
      let (b, _, h2) = bind-ok (ports.bases r.force_reload) (quote_with n ports r) h1 in
      let (gas, _, h3) =
        bind-ok (calculate_gas n ports r b)
          (λ gas. prepare_entry_amount n ports r.amount gas >>= quote_from n ports r b gas) h2 in
      let (entry_amount, prepared, h4) =
        bind-ok (prepare_entry_amount n ports r.amount gas) (quote_from n ports r b gas) h3 in
      let (net, is_net, h5) =
        bind-ok (get_quotation ports.ethers b currency entry_amount)
          (λ net. get_quotation ports.ethers b currency r.amount >>= finish n ports r gas net) h4 in
      let (total, is_total, h6) =
        bind-ok (get_quotation ports.ethers b currency r.amount) (finish n ports r gas net) h5 in
      let (enough, h7) =
        then-ok (validate_minimum_amount n ports total.in_brl (some (or_claim r.transaction_type)))
          (per_token n ports total (final_tokens n ports r.amount net) >>= λ per.
            ok (quote_record n ports r gas net total per))
          h6 in
      let (per, _, h8) =
        bind-ok (per_token n ports total (final_tokens n ports r.amount net))
          (λ per. ok (quote_record n ports r gas net total per)) h7 in
      let (chain, on_chain, placed) = validate_entry-ok r valid in
      subst (Computed r) (ok_injective h8) (record {
        chain = chain;
        entry_amount = entry_amount;
        bases = b;
        on_chain = on_chain;
        placed = placed;
        prepared = prepared;
        net = is_net;
        total = is_total;
        enough = enough;
        same_chain = refl;
        expires = refl;
      })

  enforced-amount : (r : Request) → (enforced n ports r).amount ≡ r.amount
  enforced-amount r = ground arith

  -- A quote that is given is for a chain that the environment may target and whose gas the currency
  -- can be; its total reaches the minimum or is the test total, unless it is for a transfer; and it
  -- ends the set number of seconds after its creation.
  pub execute-on_chain :
      (r : Request) {q : Quote}
      → execute n ports r ≡ ok q
      → ((chain : NetworkType) × (new_chain ports.environment q.chain_id ≡ ok chain)
          × (is_misplaced r.amount.iso_code (layer chain) ≡ false))
        × ((q.transaction_type ≡ transfer)
            ⊎ (is_below_minimum n ports (truncated n ports q.total.in_brl) ≡ false))
        × (q.expires_at ≡ q.created_at + ports.quote_expiration_seconds * 1000)
  unfolding execute validate_minimum_amount
  execute-on_chain r {q} h =
      let d = quote_of-Computed (enforced n ports r) h in
      (
        (
          d.chain,
          ap (new_chain ports.environment) d.same_chain ∙ d.on_chain,
          ap (λ a. is_misplaced a.iso_code (layer d.chain)) (sym (enforced-amount r)) ∙ d.placed,
        ),
        enough_or_transfer q.transaction_type _ d.enough,
        d.expires,
      )
    where
      enough_or_transfer :
          (t : TransactionType) (below : Bool)
          → throw_if (not (is_transfer (some t)) && below) below_minimum ≡ ok tt
          → (t ≡ transfer) ⊎ (below ≡ false)
      enough_or_transfer t below h = ground arith

  pub execute_total :
      (r : Request) {q : Quote}
      → execute n ports r ≡ ok q
      → (b : Bases) × (get_quotation ports.ethers b r.amount.iso_code r.amount ≡ ok q.total)
  unfolding execute
  execute_total r {q} h =
      let d = quote_of-Computed (enforced n ports r) h in
      (
        d.bases,
        ap (λ a. get_quotation ports.ethers d.bases a.iso_code a) (sym (enforced-amount r))
            ∙ d.total,
      )

  module _ (exact : IsExact ports.ethers) where
    given :
        (fits : Type 0) (units : ℕ) (r : Result CurrencyAmount) {x : CurrencyAmount}
        → Gives fits units r
        → r ≡ ok x
        → fits × (pad_units x ≡ units)
    unfolding pad_units
    given fits units (ok y) (f, u, d) h =
        subst (λ z. fits × (pad_units z ≡ units)) (ok_injective h) (f, ground arith)
    given fits units (err k) g h = ground arith

    rethrown-ok :
        (a : CurrencyAmount) (r : Result CurrencyAmount) {x : CurrencyAmount}
        → rethrown n ports a r ≡ ok x
        → r ≡ ok x
    rethrown-ok a (ok y) h = h
    rethrown-ok a (err k) h = ground arith

    sub_units :
        (a b : CurrencyAmount) {x : CurrencyAmount}
        → sub ports.ethers a b ≡ ok x
        → pad_units x + pad_units b ≡ pad_units a
    sub_units a b h =
        let (f, u) =
          given ((pad_units a < fixed_limit) × (pad_units b ≤ pad_units a)) _ _
            (sub-Gives ports.ethers exact a b) h in
        omega (arith, f.1, u)

    prepare_for-Nets :
        (c : IsoCodeType) (a : CurrencyAmount) (gas : Aggregate) {x : CurrencyAmount}
        → prepare_for n ports c a gas ≡ ok x
        → Nets c (pad_units a) (pad_units (amount_in c gas)) (pad_units x)
    prepare_for-Nets brl a gas h = sub_units a gas.in_brl (rethrown-ok a _ h)
    prepare_for-Nets usd a gas h = sub_units a gas.in_usd (rethrown-ok a _ h)
    prepare_for-Nets knn a gas h =
        (given (pad_units a + pad_units gas.in_knn < fixed_limit) _ _
          (sum-Gives ports.ethers exact a gas.in_knn) h).1
    prepare_for-Nets eth a gas h = ap pad_units (sym (ok_injective h))
    prepare_for-Nets matic a gas h = ap pad_units (sym (ok_injective h))

    Nets-net :
        (c : IsoCodeType) (a x : CurrencyAmount) (gas net : Aggregate)
        → amount_in c net ≡ x
        → Nets c (pad_units a) (pad_units (amount_in c gas)) (pad_units x)
        → Nets c (pad_units a) (pad_units (amount_in c gas)) (pad_units (amount_in c net))
    Nets-net c a x gas net e h =
        subst (λ y. Nets c (pad_units a) (pad_units (amount_in c gas)) (pad_units y)) (sym e) h

    Computed-Nets :
        (r : Request) (q : Quote)
        → Computed r q
        → let c = r.amount.iso_code in
          (amount_in c q.total ≡ r.amount)
          × Nets c
              (pad_units r.amount)
              (pad_units (amount_in c q.gas_amount))
              (pad_units (amount_in c q.net_total))
    unfolding prepare_entry_amount
    Computed-Nets r q d =
        let c = r.amount.iso_code in
        (
          get_quotation-amount_in ports.ethers d.bases c r.amount d.total,
          Nets-net c r.amount d.entry_amount q.gas_amount q.net_total
              (get_quotation-amount_in ports.ethers d.bases c d.entry_amount d.net)
              (prepare_for-Nets c r.amount q.gas_amount d.prepared),
        )

    -- With an exact fixed-point library, a quote is for the entered amount: its total in the
    -- currency of the entry is that amount, and the net amount in that currency is the amount less
    -- the gas for reais and dollars, the amount and the gas for tokens, and the amount for the
    -- currencies of the gas.
    pub execute-Nets :
        (r : Request) {q : Quote}
        → execute n ports r ≡ ok q
        → let c = r.amount.iso_code in
          (amount_in c q.total ≡ r.amount)
          × Nets c
              (pad_units r.amount)
              (pad_units (amount_in c q.gas_amount))
              (pad_units (amount_in c q.net_total))
    unfolding execute
    execute-Nets r {q} h =
        let d = quote_of-Computed (enforced n ports r) h in
        subst
          (λ a.
            (amount_in a.iso_code q.total ≡ a)
            × Nets a.iso_code (pad_units a) (pad_units (amount_in a.iso_code q.gas_amount))
                (pad_units (amount_in a.iso_code q.net_total)))
          (enforced-amount r) (Computed-Nets (enforced n ports r) q d)
