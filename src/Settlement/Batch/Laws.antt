-- ===== src/Settlement/Batch/Laws.antt =====
-- What the settlements of a batch leave.
use offchain_service.Base.{
  ℕ, ◌≡◌, ◌≢◌, inl, inr, refl, sym, ap, ◌∙◌, Bool, some, List, [], ◌∷◌, Bool-cases, Text, text_eq,
  text_eq_iff, Result, ok, err, arith,
}
use offchain_service.Base.Dict.{lookup, lookup-insert}
use offchain_service.Order.{Order}
use offchain_service.Clearing.Database.{Tables, create_transition}
use offchain_service.Supply.Dispatch.{DispatchPorts, PaidBy, Call, Receipt, execute}
use offchain_service.Supply.Dispatch.Kept.{execute-id}
use offchain_service.Supply.Dispatch.Laws.{all_calls, IsSettled}
use offchain_service.Settlement.{Settled, store, after_dispatch, settle_order}
use offchain_service.Settlement.Laws.{settle_order-IsDone}
use offchain_service.Settlement.Batch.{settle_orders}

module _ (ports : DispatchPorts) (up : ℕ → Bool) {F : Type 0} (payment : PaidBy) where
  -- The status of another order in the tables of an outcome.
  abbrev Keeps : Text → Text → Tables F → Settled F → Type 0
  Keeps id other t s = (id ≢ other) → lookup other s.tables.statuses ≡ lookup other t.statuses

  store-Keeps :
      (calls : List Call) (o : Order F) (hash other : Text) (t : Tables F)
      → Keeps o.id other t (store ports up payment calls o hash t)
  unfolding create_transition
  store-Keeps calls o [] other t ne = refl
  store-Keeps calls o (c ∷ hash) other t ne =
      ground (arith, lookup-insert o.id other o.status t.statuses, text_eq_iff o.id other)

  after_dispatch-Keeps :
      (o : Order F) (x : List Call × Order F × Result Receipt) (other : Text) (t : Tables F)
      → x.1.id ≡ o.id
      → Keeps o.id other t (after_dispatch ports up payment x t)
  after_dispatch-Keeps o (calls, o', err k) other t e ne = refl
  after_dispatch-Keeps o (calls, o', ok receipt) other t e ne =
      store-Keeps calls o' receipt.transaction_hash other t (λ same. ne (sym e ∙ same))

  after_dispatch-id :
      (x : List Call × Order F × Result Receipt) (t : Tables F)
      → (after_dispatch ports up payment x t).order.id ≡ x.1.id
  after_dispatch-id (calls, o', err k) t = refl
  after_dispatch-id (calls, o', ok receipt) t = store-id calls o' receipt.transaction_hash t
    where
      store-id :
          (calls : List Call) (o : Order F) (hash : Text) (t : Tables F)
          → (store ports up payment calls o hash t).order.id ≡ o.id
      store-id calls o [] t = refl
      store-id calls o (c ∷ hash) t = refl

  settle_order-Keeps :
      (o : Order F) (other : Text) (t : Tables F)
      → Keeps o.id other t (settle_order ports up payment o t)
  unfolding settle_order
  settle_order-Keeps o other t ne = elim (Bool-cases (text_eq o.id payment.order_id)) [
    | inl e ↦
        rw e
          (after_dispatch-Keeps o (execute ports o payment) other t (execute-id ports payment o) ne)
    | inr e ↦ rw e
  ]

  settle_order-id :
      (o : Order F) (t : Tables F) → (settle_order ports up payment o t).order.id ≡ o.id
  unfolding settle_order
  settle_order-id o t = elim (Bool-cases (text_eq o.id payment.order_id)) [
    | inl e ↦ rw e (after_dispatch-id (execute ports o payment) t ∙ execute-id ports payment o)
    | inr e ↦ rw e
  ]

module _ (ports : PaidBy → DispatchPorts) (up : ℕ → Bool) {F : Type 0} where
  -- The batch has no order of the identifier.
  abbrev pub IsAbsent : Text → List (PaidBy × Order F) → Type 0
  IsAbsent id [] = Unit
  IsAbsent id ((payment, o) ∷ batch) = (o.id ≢ id) × IsAbsent id batch

  -- No two entries of the batch have one order.
  abbrev pub HasDistinctOrders : List (PaidBy × Order F) → Type 0
  HasDistinctOrders [] = Unit
  HasDistinctOrders ((payment, o) ∷ batch) = IsAbsent o.id batch × HasDistinctOrders batch

  -- Each order has an outcome, in the sequence of the batch, and an outcome that ended well made all
  -- calls, settled the order by its type, and its status stands in the tables.
  abbrev pub AllDone : List (PaidBy × Order F) → List (Settled F) → Tables F → Type 0
  AllDone [] [] t = Unit
  AllDone [] (_ ∷ _) t = ⊥
  AllDone (_ ∷ _) [] t = ⊥
  AllDone ((payment, o) ∷ batch) (s ∷ outcomes) t =
      (s.result ≡ ok tt
        → (s.calls ≡ all_calls)
          × IsSettled o s.order
          × (lookup o.id t.statuses ≡ some s.order.status))
      × AllDone batch outcomes t

  settle_orders_keeps :
      (batch : List (PaidBy × Order F)) (t : Tables F) (id : Text)
      → IsAbsent id batch
      → lookup id (settle_orders ports up batch t).1.statuses ≡ lookup id t.statuses
  unfolding settle_orders
  settle_orders_keeps [] t id _ = refl
  settle_orders_keeps ((payment, o) ∷ batch) t id (ne, absent) =
      settle_orders_keeps batch (settle_order (ports payment) up payment o t).tables id absent
      ∙ settle_order-Keeps (ports payment) up payment o id t ne

  -- Where no two entries of a batch have one order, every order of it has its outcome, whatever the
  -- other settlements end with, and after the whole batch an order whose settlement ended well has
  -- had all calls, is claimed or locked by its type, and has that status in the tables.
  pub settle_orders-AllDone :
      (batch : List (PaidBy × Order F)) (t : Tables F)
      → HasDistinctOrders batch
      → AllDone batch (settle_orders ports up batch t).0 (settle_orders ports up batch t).1
  unfolding settle_orders
  settle_orders-AllDone [] t _ = tt
  settle_orders-AllDone ((payment, o) ∷ batch) t (absent, distinct) =
      let s = settle_order (ports payment) up payment o t in
      (
        λ ended.
            let (all, settled, stored) = settle_order-IsDone (ports payment) up payment o t ended in
            (
              all,
              settled,
              settle_orders_keeps batch s.tables o.id absent
                  ∙ ap (λ id. lookup id s.tables.statuses)
                      (sym (settle_order-id (ports payment) up payment o t))
                  ∙ stored,
            ),
        settle_orders-AllDone batch s.tables distinct,
      )
