-- ===== src/Clearing/Process/Laws.antt =====
-- One transaction processed by itself.
use offchain_service.Base.{
  ℕ, zero, suc, ◌+◌, ◌-◌, ◌≤◌, ◌≡◌, ◌⊎◌, inl, inr, refl, Bool, true, false, none, some, [], ◌∷◌,
  ◌++◌, any, Bool-cases, Text, text_eq_iff, arith,
}
use offchain_service.Base.Numbers.{Numbers}
use offchain_service.Order.{
  Order, requested, expired, confirmed, has_payments, in_status, is_expired,
}
use offchain_service.Clearing.Entities.{Transaction, Payment}
use offchain_service.Clearing.Database.{
  Tables, create_payment, create_transition, refresh, conflicts, numbered,
}
use offchain_service.Clearing.Process.{
  ProcessPorts, Phase, start, late, quoting, refreshing, paying, paid, confirming, finished,
  advance, run, execute, new_payment,
}

abbrev pub is_finished : {F : Type 0} → Phase F → Bool
is_finished (finished _) = true
is_finished _ = false

-- How many parts are left at most.
abbrev pub parts_left : {F : Type 0} → Phase F → ℕ
parts_left start = 7
parts_left (late _) = 6
parts_left (quoting _) = 5
parts_left refreshing = 4
parts_left paying = 3
parts_left (paid _) = 2
parts_left (confirming _) = 1
parts_left (finished _) = 0

module _ (n : Numbers) (ports : ProcessPorts) (clearing_id : Text) (x : Transaction) where
  open n use {F, to_fixed2}

  pub parts_left-advance :
      (p : Phase F) (o : Order F) (t : Tables F)
      → parts_left (advance n ports clearing_id x p o t).0 ≤ parts_left p - 1
  unfolding advance
  parts_left-advance start o t = ground arith
  parts_left-advance p o t = ground arith

  run-finished :
      (k : ℕ) (p : Phase F) (o : Order F) (t : Tables F)
      → parts_left p ≤ k
      → is_finished (run n ports clearing_id x k p o t).0 ≡ true
  unfolding run
  run-finished zero p o t h = ground arith
  run-finished (suc k) p o t h =
      run-finished k (advance n ports clearing_id x p o t).0 (advance n ports clearing_id x p o t).1
        (advance n ports clearing_id x p o t).2 (omega (arith, parts_left-advance p o t))

  -- Seven parts are enough: a call always comes to its end.
  pub execute-finished :
      (o : Order F) (t : Tables F) → is_finished (execute n ports clearing_id x o t).0 ≡ true
  unfolding execute
  execute-finished o t = run-finished 7 start o t (omega arith)

  -- The tests that let a transaction pay an order.
  pub record IsPayable (o : Order F) : Type 0 where
    pub unpaid : has_payments o ≡ false
    pub exact : to_fixed2 o.total ≡ x.value
    pub open_status : in_status (requested ∷ expired ∷ []) o ≡ true

  -- The payment is the one row that was added, for this order and transaction, and no row before
  -- it had its order or its provider's identifier.
  pub record IsMade (o : Order F) (before now : Tables F) (p : Payment F) : Type 0 where
    pub added : now.payments ≡ before.payments ++ p ∷ []
    pub for_order : p.order_id ≡ o.id
    pub for_transaction : p.provider_id ≡ x.provider_payment_id
    pub in_clearing : p.clearing_id ≡ clearing_id
    pub no_conflict : any (conflicts p) before.payments ≡ false

  -- What holds at each phase of a call that began with `o` and `t`.
  abbrev Reached : Order F → Tables F → Phase F → Order F → Tables F → Type 0
  Reached o t start o' t' = (o' ≡ o) × (t' ≡ t)
  Reached o t (paid p) o' t' = IsPayable o × IsMade o t t' p × (o'.id ≡ o.id)
  Reached o t (confirming p) o' t' =
      IsPayable o × IsMade o t t' p × (o'.id ≡ o.id) × (o'.status ≡ some confirmed)
  Reached o t (finished (some p)) o' t' =
      IsPayable o × IsMade o t t' p × (o'.id ≡ o.id) × (o'.status ≡ some confirmed)
  Reached o t (finished none) o' t' =
      (t'.payments ≡ t.payments) ⊎ (IsPayable o × ((p : Payment F) × IsMade o t t' p))
  Reached o t _ o' t' = IsPayable o × (o'.id ≡ o.id) × (t'.payments ≡ t.payments)

  advance-Reached :
      (o : Order F) (t : Tables F) (p : Phase F) (o' : Order F) (t' : Tables F)
      → Reached o t p o' t'
      → let (p2, o2, t2) = advance n ports clearing_id x p o' t' in Reached o t p2 o2 t2
  unfolding advance create_payment create_transition refresh new_payment
  advance-Reached o t start o' t' h = ground (arith, text_eq_iff (to_fixed2 o.total) x.value)
  advance-Reached o t (late e) o' t' h = ground arith
  advance-Reached o t (quoting e) o' t' h = ground arith
  advance-Reached o t refreshing o' t' h = ground arith
  advance-Reached o t paying o' t' h = ground arith
  advance-Reached o t (paid p) o' t' h = ground arith
  advance-Reached o t (confirming p) o' t' h = elim (Bool-cases (ports.up t'.calls)) [
    | inl answered ↦ rw answered (ground arith)
    | inr failed ↦ rw failed (
        inr (
          h.0,
          (
            p,
            record {
              added = h.1.added;
              for_order = h.1.for_order;
              for_transaction = h.1.for_transaction;
              in_clearing = h.1.in_clearing;
              no_conflict = h.1.no_conflict;
            },
          ),
        ))
  ]
  advance-Reached o t (finished none) o' t' h = h
  advance-Reached o t (finished (some p)) o' t' h = h

  run-Reached :
      (k : ℕ) (o : Order F) (t : Tables F) (p : Phase F) (o' : Order F) (t' : Tables F)
      → Reached o t p o' t'
      → let (p2, o2, t2) = run n ports clearing_id x k p o' t' in Reached o t p2 o2 t2
  unfolding run
  run-Reached zero o t p o' t' h = h
  run-Reached (suc k) o t p o' t' h =
      let (p2, o2, t2) = advance n ports clearing_id x p o' t' in
      run-Reached k o t p2 o2 t2 (advance-Reached o t p o' t' h)

  -- A confirmed payment was due: the order had none, its total is the amount to the cent, its
  -- status was open, the payment is the one new row and in conflict with none; and the order is
  -- now `confirmed`.
  pub execute-confirmed :
      (o : Order F) (t : Tables F) (p : Payment F)
      → (execute n ports clearing_id x o t).0 ≡ finished (some p)
      → IsPayable o
        × IsMade o t (execute n ports clearing_id x o t).2 p
        × ((execute n ports clearing_id x o t).1.status ≡ some confirmed)
  unfolding execute
  execute-confirmed o t p h =
      let reached : Reached o t (finished (some p)) (run n ports clearing_id x 7 start o t).1
          (run n ports clearing_id x 7 start o t).2 =
        rw h at (run-Reached 7 o t start o t (refl, refl)) in
      (reached.0, reached.1, reached.3)

  -- A transaction that is given up leaves the payments as they were, or was payable and leaves
  -- its payment behind.
  pub execute-given_up :
      (o : Order F) (t : Tables F)
      → (execute n ports clearing_id x o t).0 ≡ finished none
      → ((execute n ports clearing_id x o t).2.payments ≡ t.payments)
        ⊎ (IsPayable o × ((p : Payment F) × IsMade o t (execute n ports clearing_id x o t).2 p))
  unfolding execute
  execute-given_up o t h = rw h at (run-Reached 7 o t start o t (refl, refl))

  -- The payment stays behind where the database fails at the last transition: the row is there, the
  -- call gives no record, and the stored status of the order is what it was.
  pub execute-lost_confirmation :
      (o : Order F) (t : Tables F)
      → IsPayable o
      → is_expired ports.now o ≡ false
      → any (conflicts (new_payment n ports clearing_id x o)) t.payments ≡ false
      → ports.up t.calls ≡ true
      → ports.up (t.calls + 1) ≡ false
      → ((execute n ports clearing_id x o t).0 ≡ finished none)
        × ((execute n ports clearing_id x o t).2.payments
            ≡ t.payments ++ numbered ports.up (new_payment n ports clearing_id x o) t ∷ [])
        × ((execute n ports clearing_id x o t).2.statuses ≡ t.statuses)
  unfolding execute create_payment create_transition
  execute-lost_confirmation o t pay fresh none_yet first second =
      rw (pay.unpaid, (text_eq_iff _ _).1 pay.exact, pay.open_status, fresh, first, none_yet)
        (rw second (refl, refl, refl))
