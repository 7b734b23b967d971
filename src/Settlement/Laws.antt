-- ===== src/Settlement/Laws.antt =====
-- Which orders are settled.
use offchain_service.Base.{
  ℕ, ◌≡◌, ◌⊎◌, inl, inr, refl, ap, subst, Bool, true, false, not, some, List, [], ◌∷◌,
  if◌then◌else◌, Bool-cases, Text, text_eq, text_eq_iff, text_eq_refl, Result, ok, err, arith,
}
use offchain_service.Base.Dict.{lookup, lookup-insert}
use offchain_service.Base.Results.{payment_mismatch}
use offchain_service.Order.{Order}
use offchain_service.Clearing.Database.{Tables, create_transition}
use offchain_service.Supply.Dispatch.{DispatchPorts, PaidBy, Call, Receipt, execute}
use offchain_service.Supply.Dispatch.Laws.{all_calls, IsSettled, execute-IsSettled}
use offchain_service.Settlement.{Settled, store, after_dispatch, settle_order}

module _ (ports : DispatchPorts) (up : ℕ → Bool) {F : Type 0} (payment : PaidBy) where
  -- No call of the dispatch is made, and no table changes, for an order that the payment does not
  -- name.
  pub settle_order_guard :
      (o : Order F) (t : Tables F)
      → (o.id ≡ payment.order_id)
        ⊎ (((settle_order ports up payment o t).calls ≡ [])
            × ((settle_order ports up payment o t).tables ≡ t))
  unfolding settle_order
  settle_order_guard o t = ground (arith, text_eq_iff o.id payment.order_id)

  stored_status :
      (calls : List Call) (o : Order F) (hash : Text) (t : Tables F)
      → (store ports up payment calls o hash t).result ≡ ok tt
      → lookup o.id (store ports up payment calls o hash t).tables.statuses ≡ some o.status
  unfolding create_transition
  stored_status calls o [] t h = ground arith
  stored_status calls o (c ∷ hash) t h = elim (Bool-cases (up t.calls)) [
    | inl u ↦ rw (u, lookup-insert, text_eq_refl o.id)
    | inr u ↦ ground arith
  ]

  -- What holds after a settlement that ended well.
  abbrev pub IsDone : Order F → Settled F → Type 0
  IsDone o s =
      (s.calls ≡ all_calls)
      × IsSettled o s.order
      × (lookup s.order.id s.tables.statuses ≡ some s.order.status)

  store-IsDone :
      (o : Order F) (calls : List Call) (o' : Order F) (hash : Text) (t : Tables F)
      → (calls ≡ all_calls) × IsSettled o o'
      → (store ports up payment calls o' hash t).result ≡ ok tt
      → IsDone o (store ports up payment calls o' hash t)
  store-IsDone o calls o' [] t c h = ground arith
  store-IsDone o calls o' (x ∷ hash) t (all, settled) h =
      (all, settled, stored_status calls o' (x ∷ hash) t h)

  after_dispatch-IsDone :
      (o : Order F) (x : List Call × Order F × Result Receipt) (t : Tables F)
      → execute ports o payment ≡ x
      → (after_dispatch ports up payment x t).result ≡ ok tt
      → IsDone o (after_dispatch ports up payment x t)
  after_dispatch-IsDone o (calls, o', err k) t e h = ground arith
  after_dispatch-IsDone o (calls, o', ok receipt) t e h =
      store-IsDone o calls o' receipt.transaction_hash t
        (subst (λ y. (y.0 ≡ all_calls) × IsSettled o y.1) e
          (execute-IsSettled ports o payment (ap (λ y. y.2) e)))
        h

  guarded-IsDone :
      (named : Bool) (o : Order F) (t : Tables F)
      → let s =
          if not named
          then record { calls = []; order = o; tables = t; result = err payment_mismatch }
          else after_dispatch ports up payment (execute ports o payment) t in
        s.result ≡ ok tt → IsDone o s
  guarded-IsDone true o t h = after_dispatch-IsDone o (execute ports o payment) t refl h
  guarded-IsDone false o t h = ground arith

  -- A settlement that ends well has made all calls of the dispatch, has claimed or locked the order
  -- by its type, and has stored the order's status.
  pub settle_order-IsDone :
      (o : Order F) (t : Tables F)
      → (settle_order ports up payment o t).result ≡ ok tt
      → IsDone o (settle_order ports up payment o t)
  unfolding settle_order
  settle_order-IsDone o t h = guarded-IsDone (text_eq o.id payment.order_id) o t h
