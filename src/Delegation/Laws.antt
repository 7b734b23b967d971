-- ===== src/Delegation/Laws.antt =====
-- What a signed order holds.
use offchain_service.Base.{
  ℕ, ◌==◌, ◌≡◌, refl, sym, ap, ◌∙◌, subst, true, not, any, length, Text, List, [], ◌∷◌, Result, ok,
  err, ◌>>=◌, ◌>>◌, throw_if, ok_injective, bind-ok, then-ok, arith,
}
use offchain_service.Base.Results.{amount_mismatch, invalid_decimals}
use offchain_service.Base.Numbers.{Numbers}
use offchain_service.Common.Chain.{
  LayerType, l1, l2, brl, eth, knn, usd, matic, NetworkType, ethereum, polygon, polygonzk_evm,
  ethereum_sepolia, polygon_mumbai, polygonzk_evm_testnet, layer, new_chain,
}
use offchain_service.Common.Format.{decimal}
use offchain_service.Price.Calculus.{CurrencyAmount}
use offchain_service.Price.Rates.{Aggregate, amount_in, get_quotation-amount_in}
use offchain_service.Price.Rates.Precise.{IsPrecise, get_quotation-IsPrecise}
use offchain_service.Price.Request.{Quote}
use offchain_service.Price.Quote.{execute}
use offchain_service.Price.Quote.Laws.{execute_total}
use offchain_service.Delegation.{
  WalletRequest, SignaturePayload, NonceAndExpiration, buy_type, Signed, DelegateOrder,
  DelegationPorts, is_tradable, validate_entry, one_token, is_imprecise, validate_result,
  knn_to_currencies, signature_payload, delegate_order, sign_quote, unchecked_order,
  create_delegate_order,
}

validate_entry-ok :
    (w : WalletRequest)
    → validate_entry w ≡ ok tt
    → (is_tradable w.request.amount.iso_code ≡ true) × (w.request.amount.decimals ≡ 18)
unfolding validate_entry
validate_entry-ok w h = (ground arith, ground arith)

module _ (n : Numbers) (ports : DelegationPorts n) where
  open ports use {quotes, hash, sign, fetch_nonce}

  -- What a payload states: the hash of the type of the layer, the wallet, the price of a token in
  -- dollars, the nonce and the due date that were fetched, the total in the currency of the layer,
  -- and the total in tokens.
  abbrev States :
      LayerType
      → CurrencyAmount
      → Text
      → Aggregate
      → NonceAndExpiration
      → Aggregate
      → List Text
      → Type 0
  States l paid wallet price e total values =
      values
      ≡ hash (buy_type l)
        ∷ wallet
        ∷ decimal price.in_usd.unassigned_number
        ∷ e.incremental_nonce
        ∷ e.due_date
        ∷ decimal paid.unassigned_number
        ∷ decimal total.in_knn.unassigned_number
        ∷ []

  abbrev StatesOn :
      LayerType → Text → Aggregate → NonceAndExpiration → Aggregate → List Text → Type 0
  StatesOn l1 wallet price e total values = States l1 total.in_eth wallet price e total values
  StatesOn l2 wallet price e total values = States l2 total.in_matic wallet price e total values

  signature_payload-StatesOn :
      (c : NetworkType) (wallet : Text) (price : Aggregate) (e : NonceAndExpiration) (q : Quote)
      → StatesOn
          (layer c)
          wallet
          price
          e
          q.total
          (signature_payload n ports c wallet price e q).values
  unfolding signature_payload
  signature_payload-StatesOn ethereum wallet price e q = refl
  signature_payload-StatesOn polygon wallet price e q = refl
  signature_payload-StatesOn polygonzk_evm wallet price e q = refl
  signature_payload-StatesOn ethereum_sepolia wallet price e q = refl
  signature_payload-StatesOn polygon_mumbai wallet price e q = refl
  signature_payload-StatesOn polygonzk_evm_testnet wallet price e q = refl

  -- An order on the chain of the request, in a currency that may be traded, for the quote of the
  -- request and the price of a token, with the signature of a payload that states the wallet, the
  -- price, the totals, and the nonce and the due date of the order. Its total in the currency of
  -- the entry is the entered amount, and its totals have eighteen decimal places.
  pub record IsSigned (w : WalletRequest) (d : DelegateOrder) : Type 0 where
    chain : NetworkType
    nonces : NonceAndExpiration
    signed : Signed
    on_chain : new_chain quotes.environment w.request.chain_id ≡ ok chain
    quoted : execute n quotes w.request ≡ ok d.quote
    priced : knn_to_currencies n ports one_token ≡ ok d.price
    for_wallet : fetch_nonce w.crypto_wallet chain ≡ ok nonces
    payload : SignaturePayload
    states : StatesOn (layer chain) w.crypto_wallet d.price nonces d.quote.total payload.values
    typed : length payload.types ≡ length payload.values
    is_signed : sign payload chain ≡ ok signed
    answered : (d.signature ≡ signed.signature) × (d.nonce ≡ signed.nonce)
    dated : (d.due_date ≡ nonces.due_date) × (d.incremental_nonce ≡ nonces.incremental_nonce)
    tradable : is_tradable w.request.amount.iso_code ≡ true
    entered : amount_in w.request.amount.iso_code d.quote.total ≡ w.request.amount
    precise : IsPrecise d.quote.total

  unchecked_order-IsSigned :
      (w : WalletRequest) {d : DelegateOrder} → unchecked_order n ports w ≡ ok d → IsSigned w d
  unfolding unchecked_order
  unchecked_order-IsSigned w {d} h =
      let (valid, h1) =
        then-ok (validate_entry w)
          (execute n quotes w.request >>= λ q.
            knn_to_currencies n ports one_token >>= sign_quote n ports w q)
          h in
      let (q, quoted, h2) =
        bind-ok (execute n quotes w.request)
          (λ q. knn_to_currencies n ports one_token >>= sign_quote n ports w q) h1 in
      let (price, priced, h3) =
        bind-ok (knn_to_currencies n ports one_token) (sign_quote n ports w q) h2 in
      let (c, on_chain, h4) =
        bind-ok (new_chain quotes.environment w.request.chain_id)
          (λ c. fetch_nonce w.crypto_wallet c >>= λ e.
            sign (signature_payload n ports c w.crypto_wallet price e q) c >>= λ s.
            ok (delegate_order n ports q price e s))
          h3 in
      let (e, for_wallet, h5) =
        bind-ok (fetch_nonce w.crypto_wallet c)
          (λ e. sign (signature_payload n ports c w.crypto_wallet price e q) c >>= λ s.
            ok (delegate_order n ports q price e s))
          h4 in
      let (s, is_signed, h6) =
        bind-ok (sign (signature_payload n ports c w.crypto_wallet price e q) c)
          (λ s. ok (delegate_order n ports q price e s)) h5 in
      let (tradable, decimals) = validate_entry-ok w valid in
      let (b, total) = execute_total n quotes w.request quoted in
      subst (IsSigned w) (ok_injective h6) (record {
        chain = c;
        nonces = e;
        signed = s;
        on_chain = on_chain;
        quoted = quoted;
        priced = priced;
        for_wallet = for_wallet;
        payload = signature_payload n ports c w.crypto_wallet price e q;
        states = signature_payload-StatesOn c w.crypto_wallet price e q;
        typed = unfold signature_payload in refl;
        is_signed = is_signed;
        answered = (refl, refl);
        dated = (refl, refl);
        tradable = tradable;
        entered =
            get_quotation-amount_in quotes.ethers b w.request.amount.iso_code w.request.amount
              total;
        precise =
            get_quotation-IsPrecise quotes.ethers b w.request.amount.iso_code w.request.amount
              decimals total;
      })

  -- The check of the result passes every signed order.
  IsSigned-validate_result :
      (w : WalletRequest) (d : DelegateOrder) → IsSigned w d → validate_result w d ≡ ok tt
  unfolding validate_result
  IsSigned-validate_result w d s =
      let same = ap (λ (a : CurrencyAmount). a.unassigned_number) s.entered in
      checks _ _ (s.precise brl) (s.precise usd) (s.precise knn) (s.precise eth) (s.precise matic)
        same
    where
      checks :
          (x y : ℕ)
          → d.quote.total.in_brl.decimals ≡ 18
          → d.quote.total.in_usd.decimals ≡ 18
          → d.quote.total.in_knn.decimals ≡ 18
          → d.quote.total.in_eth.decimals ≡ 18
          → d.quote.total.in_matic.decimals ≡ 18
          → x ≡ y
          → (throw_if (not (x == y)) amount_mismatch
              >> throw_if
                  (any (λ c. is_imprecise c d.quote.total) (brl ∷ usd ∷ knn ∷ eth ∷ matic ∷ []))
                  invalid_decimals)
            ≡ ok tt
      checks x y b u k e m h = ground arith

  -- The check of the result refuses nothing: whatever the library of fixed-point numbers and the
  -- ports do, the order is the one before the check, or the error is thrown before it.
  pub create_delegate_order_unchecked :
      (w : WalletRequest) → create_delegate_order n ports w ≡ unchecked_order n ports w
  unfolding create_delegate_order
  create_delegate_order_unchecked w = go (unchecked_order n ports w) refl
    where
      go :
          (r : Result DelegateOrder)
          → unchecked_order n ports w ≡ r
          → (r >>= λ d. validate_result w d >> ok d) ≡ r
      go (err k) e = refl
      go (ok d) e =
          ap (λ t. t >> ok d) (IsSigned-validate_result w d (unchecked_order-IsSigned w e))

  -- An order that is given is signed: it is on the chain of the request, in a currency that may be
  -- traded, for the quote of the request and the price of a token, with the signature of a payload
  -- that states in this sequence the hash of the type of the layer, the wallet, the price of a token
  -- in dollars, the nonce and the due date that the order gives, the total in ether on the first
  -- layer and in matic on the second, and the total in tokens. Its total in the currency of the
  -- entry is the entered amount, and its totals have eighteen decimal places.
  pub create_delegate_order-IsSigned :
      (w : WalletRequest) {d : DelegateOrder}
      → create_delegate_order n ports w ≡ ok d
      → IsSigned w d
  create_delegate_order-IsSigned w h =
      unchecked_order-IsSigned w (sym (create_delegate_order_unchecked w) ∙ h)
