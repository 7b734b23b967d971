-- ===== src/Placement/Laws.antt =====
-- What an order that is placed has gone through.
use offchain_service.Base.{
  ◌+◌, ◌==◌, ◌≡◌, ◌⊎◌, refl, sym, subst, Bool, true, false, ◌&&◌, not, Option, none, some, List, [],
  ◌∷◌, ◌++◌, if◌then◌else◌, inl, inr, Result, ok, err, ◌>>=◌, ◌>>◌, throw_if, throw_if-ok, bind-ok,
  then-ok, ok_injective, arith,
}
use offchain_service.Base.Numbers.{Numbers}
use offchain_service.Base.Results.{database_failed}
use offchain_service.Price.Quote.{truncated, is_below_minimum, execute}
use offchain_service.Price.Request.{Quote}
use offchain_service.Order.{
  Order, requested, create, to_end_id, default_order_expiration, is_test_total,
}
use offchain_service.Placement.{
  CreateOrder, PlacementPorts, Placed, is_allowed, with_chain, validate_current_chain,
  validate_minimum, validate, quote_request, number_of, order_properties, order_of, after_quote,
  prepare, store_order, place_order,
}

module _ (n : Numbers) (ports : PlacementPorts n) where
  open n use {F, lt}
  open ports use {quotes, cipher, cbc_key, to_base36}
  open quotes use {environment, minimum_total, now}

  -- An order that has been placed for a request: its chain is an allowed one; it has the tokens and
  -- the total of a quote for the request, whose total reaches the minimum or is the test total; its
  -- identifier is encrypted under the order's own; it is requested, and expires at its time.
  pub record IsPlaced (r : CreateOrder) (o : Order F) : Type 0 where
    pub q : Quote
    pub quoted : execute n quotes (quote_request n ports (with_chain n ports r)) ≡ ok q
    pub allowed : is_allowed environment o.desired_chain_id ≡ true
    pub enough : is_below_minimum n quotes (truncated n quotes q.total.in_brl) ≡ false
    pub total : o.total ≡ number_of n ports q.total.in_brl 2
    pub tokens : o.amount_of_tokens ≡ q.final_amount_of_tokens
    pub encrypted : cipher.encrypt r.user_identifier o.id cbc_key ≡ ok o.user_identifier
    pub status : o.status ≡ some requested
    pub expiry : o.expires_at ≡ some (now + default_order_expiration)

  validate_current_chain-ok :
      (r : CreateOrder)
      → validate_current_chain n ports r ≡ ok tt
      → is_allowed environment r.chain_id ≡ true
  unfolding validate_current_chain
  validate_current_chain-ok r h =
      let (_, k) = then-ok (throw_if (r.chain_id == 0) _) _ h in
      let (a, _) = then-ok (throw_if (not (is_allowed environment r.chain_id)) _) _ k in
      let b = throw_if-ok (not (is_allowed environment r.chain_id)) _ a in ground arith

  validate_minimum-ok :
      (q : Quote)
      → validate_minimum n ports q.total.in_brl ≡ ok tt
      → is_below_minimum n quotes (truncated n quotes q.total.in_brl) ≡ false
  unfolding validate_minimum
  validate_minimum-ok q h =
      throw_if-ok (is_below_minimum n quotes (truncated n quotes q.total.in_brl)) _ h

  -- The order as it is made, before its identifier is encrypted.
  record IsMade (r : CreateOrder) (q : Quote) (o : Order F) : Type 0 where
    chain : o.desired_chain_id ≡ r.chain_id
    total : o.total ≡ number_of n ports q.total.in_brl 2
    tokens : o.amount_of_tokens ≡ q.final_amount_of_tokens
    status : o.status ≡ some requested
    expiry : o.expires_at ≡ some (now + default_order_expiration)

  create-IsMade :
      (r : CreateOrder) (q : Quote) {o : Order F}
      → create to_base36 n minimum_total (order_properties n ports r q) ≡ ok o
      → IsMade r q o
  unfolding create
  create-IsMade r q h =
      let p = order_properties n ports r q in
      let (_, k) =
        then-ok (throw_if (lt p.total minimum_total && not (is_test_total to_base36 n p.total)) _) _
          h in
      let (e, _, f) = bind-ok (to_end_id to_base36 p.id) _ k in
      subst (IsMade r q) (ok_injective f)
        (record { chain = refl; total = refl; tokens = refl; status = refl; expiry = refl })

  with_chain_identifier :
      (r : CreateOrder) → (with_chain n ports r).user_identifier ≡ r.user_identifier
  with_chain_identifier r = ground arith

  order_of-IsPlaced :
      (r : CreateOrder) (q : Quote) {o : Order F}
      → execute n quotes (quote_request n ports (with_chain n ports r)) ≡ ok q
      → is_allowed environment (with_chain n ports r).chain_id ≡ true
      → is_below_minimum n quotes (truncated n quotes q.total.in_brl) ≡ false
      → order_of n ports (with_chain n ports r) q ≡ ok o
      → IsPlaced r o
  order_of-IsPlaced r q e a m h =
      let r' = with_chain n ports r in
      let (made, g, k) =
        bind-ok (create to_base36 n minimum_total (order_properties n ports r' q)) _ h in
      let i = create-IsMade r' q g in
      let (text, c, f) = bind-ok (cipher.encrypt r'.user_identifier made.id cbc_key) _ k in
      subst (IsPlaced r) (ok_injective f) (record {
        q = q;
        quoted = e;
        allowed = subst (λ id. is_allowed environment id ≡ true) (sym i.chain) a;
        enough = m;
        total = i.total;
        tokens = i.tokens;
        encrypted =
            subst (λ t. cipher.encrypt t made.id cbc_key ≡ ok text) (with_chain_identifier r) c;
        status = i.status;
        expiry = i.expiry;
      })

  -- What `prepare` gives is an order that may be placed, if any.
  abbrev Prepared : CreateOrder → Result (Option (Order F)) → Type 0
  Prepared r (err k) = Unit
  Prepared r (ok none) = Unit
  Prepared r (ok (some o)) = IsPlaced r o

  after_quote-Prepared :
      (r : CreateOrder) (x : Result Quote)
      → execute n quotes (quote_request n ports (with_chain n ports r)) ≡ x
      → is_allowed environment (with_chain n ports r).chain_id ≡ true
      → Prepared r (after_quote n ports (with_chain n ports r) x)
  after_quote-Prepared r (err k) e a = tt
  after_quote-Prepared r (ok q) e a =
      let r' = with_chain n ports r in
      by_minimum (validate_minimum n ports q.total.in_brl) (order_of n ports r' q) refl refl
    where
      by_minimum :
          (m : Result (Unit {0})) (x : Result (Order F))
          → validate_minimum n ports q.total.in_brl ≡ m
          → order_of n ports (with_chain n ports r) q ≡ x
          → Prepared r (m >> (x >>= λ o. ok (some o)))
      by_minimum (err k) x f g = tt
      by_minimum (ok t) (err k) f g = tt
      by_minimum (ok t) (ok o) f g = order_of-IsPlaced r q e a (validate_minimum-ok q f) g

  prepare-Prepared : (r : CreateOrder) → Prepared r (prepare n ports (with_chain n ports r))
  prepare-Prepared r =
      let r' = with_chain n ports r in
      by_tests (validate_current_chain n ports r') (validate n ports r') refl
    where
      by_tests :
          (c v : Result (Unit {0}))
          → validate_current_chain n ports (with_chain n ports r) ≡ c
          → Prepared r (
              c
              >> (v
                  >> after_quote n ports
                      (with_chain n ports r)
                      (execute n quotes (quote_request n ports (with_chain n ports r)))))
      by_tests (err k) v f = tt
      by_tests (ok t) (err k) f = tt
      by_tests (ok t) (ok u) f =
          after_quote-Prepared r _ refl (validate_current_chain-ok (with_chain n ports r) f)

  -- What a placement does to the rows: nothing, or it adds one order, which has been placed.
  abbrev pub Places : CreateOrder → List (Order F) → List (Order F) → Type 0
  Places r rows rows' = (rows' ≡ rows) ⊎ ((o : Order F) × (rows' ≡ rows ++ o ∷ []) × IsPlaced r o)

  store_order-Places :
      (r : CreateOrder) (x : Result (Option (Order F))) (rows : List (Order F))
      → Prepared r x
      → Places r rows (store_order n ports x rows).0
  store_order-Places r (err k) rows h = inl refl
  store_order-Places r (ok none) rows h = inl refl
  store_order-Places r (ok (some o)) rows h = by_answer ports.is_up _
    where
      by_answer :
          (b : Bool) (y : Result (Option (Placed F)))
          → let x : List (Order F) × Result (Option (Placed F)) =
              if b then (rows ++ o ∷ [], y) else (rows, err database_failed) in
            Places r rows x.0
      by_answer true y = inr (o, refl, h)
      by_answer false y = inl refl

  -- However a placement ends, it adds no row, or one: an order on an allowed chain with the tokens
  -- and the total of the request's quote, whose total reaches the minimum or is the test total; with
  -- the identifier encrypted under the order's own, requested, and expiring at its time.
  pub place_order-Places :
      (r : CreateOrder) (rows : List (Order F)) → Places r rows (place_order n ports r rows).0
  unfolding place_order
  place_order-Places r rows =
      store_order-Places r (prepare n ports (with_chain n ports r)) rows (prepare-Prepared r)
