-- ===== src/Supply/Reconciliation/Settled.antt =====
-- Which orders are reconciled with which receipts.
use offchain_service.Base.{
  ℕ, zero, suc, ◌≡◌, ◌≢◌, ◌↔◌, inl, inr, refl, sym, ap, ◌∙◌, subst, Bool, true, false, Option, none,
  some, List, [], ◌∷◌, if◌then◌else◌, codes, arith,
}
use mathlib.Core.Option.{none-ne-some}
use offchain_service.Base.Lists.{IsOneOf}
use offchain_service.Base.Numbers.{Numbers}
use offchain_service.Order.{Order}
use offchain_service.Supply.Reconciliation.{
  UserReceipt, parse_dictionary, order_at, is_mismatched, settle_receipt, settle_receipts,
  reconcile,
}
use offchain_service.Supply.Reconciliation.Dictionary.{
  AreDistinct, order_at_sound, order_at_complete,
}

module _ (n : Numbers) where
  open n use {F, add, lt, read}

  abbrev IsMatched : List (ℕ × Order F) → List (UserReceipt F) → Order F → UserReceipt F → Type 0
  IsMatched d rs o r =
      IsOneOf r rs × (order_at r.payment_sequence d ≡ some o) × (is_mismatched n o r ≡ false)

  settled_sound :
      (d : List (ℕ × Order F)) (q : UserReceipt F) (rs : List (UserReceipt F)) (o : Order F)
      (r : UserReceipt F) (rest : List (Order F × UserReceipt F)) (p : Order F) (b : Bool)
      → order_at q.payment_sequence d ≡ some p
      → is_mismatched n p q ≡ b
      → (IsOneOf (o, r) rest → IsMatched d (q ∷ rs) o r)
      → IsOneOf (o, r) (if b then rest else (p, q) ∷ rest)
      → IsMatched d (q ∷ rs) o r
  settled_sound d q rs o r rest p true e m later i = later i
  settled_sound d q rs o r rest p false e m later (inr i) = later i
  settled_sound d q rs o r rest p false e m later (inl same) = (
    inl (ap (λ t. t.1) same),
    ap (λ (x : UserReceipt F). order_at x.payment_sequence d) (ap (λ t. t.1) same)
        ∙ e
        ∙ ap some (sym (ap (λ t. t.0) same)),
    ap (λ (t : Order F × UserReceipt F). is_mismatched n t.0 t.1) same ∙ m,
  )

  settle_receipt_sound :
      (d : List (ℕ × Order F)) (q : UserReceipt F) (rs : List (UserReceipt F)) (o : Order F)
      (r : UserReceipt F) (rest : List (Order F × UserReceipt F)) (found : Option (Order F))
      → order_at q.payment_sequence d ≡ found
      → (IsOneOf (o, r) rest → IsMatched d (q ∷ rs) o r)
      → IsOneOf (o, r) (settle_receipt n found q rest)
      → IsMatched d (q ∷ rs) o r
  settle_receipt_sound d q rs o r rest none e later i = later i
  settle_receipt_sound d q rs o r rest (some p) e later i =
      settled_sound d q rs o r rest p (is_mismatched n p q) e refl later i

  settle_receipts_sound :
      (d : List (ℕ × Order F)) (rs : List (UserReceipt F)) (o : Order F) (r : UserReceipt F)
      → IsOneOf (o, r) (settle_receipts n d rs)
      → IsMatched d rs o r
  unfolding settle_receipts
  settle_receipts_sound d [] o r never = elim never [ ]
  settle_receipts_sound d (q ∷ rs) o r i =
      settle_receipt_sound d q rs o r (settle_receipts n d rs) (order_at q.payment_sequence d) refl
        (λ j. later (settle_receipts_sound d rs o r j)) i
    where
      later : IsMatched d rs o r → IsMatched d (q ∷ rs) o r
      later (received, found, matches) = (inr received, found, matches)

  settle_receipt-keeps :
      (found : Option (Order F)) (q : UserReceipt F) (rest : List (Order F × UserReceipt F))
      (x : Order F × UserReceipt F)
      → IsOneOf x rest
      → IsOneOf x (settle_receipt n found q rest)
  settle_receipt-keeps none q rest x i = i
  settle_receipt-keeps (some p) q rest x i =
      elim (is_mismatched n p q) as (λ b. IsOneOf x (if b then rest else (p, q) ∷ rest)) [
        | true ↦ i
        | false ↦ inr i
      ]

  settle_receipts_complete :
      (d : List (ℕ × Order F)) (rs : List (UserReceipt F)) (o : Order F) (r : UserReceipt F)
      → IsOneOf r rs
      → order_at r.payment_sequence d ≡ some o
      → is_mismatched n o r ≡ false
      → IsOneOf (o, r) (settle_receipts n d rs)
  unfolding settle_receipts
  settle_receipts_complete d [] o r never e m = elim never [ ]
  settle_receipts_complete d (q ∷ rs) o r (inr i) e m =
      settle_receipt-keeps (order_at q.payment_sequence d) q (settle_receipts n d rs) (o, r)
        (settle_receipts_complete d rs o r i e m)
  settle_receipts_complete d (q ∷ rs) o r (inl same) e m =
      subst (λ x. IsOneOf (o, r) (settle_receipt n x q (settle_receipts n d rs)))
        (sym (ap (λ (x : UserReceipt F). order_at x.payment_sequence d) (sym same) ∙ e))
        (subst
          (λ t.
            IsOneOf (o, r) (if t then settle_receipts n d rs else (o, q) ∷ settle_receipts n d rs))
          (sym (ap (λ x. is_mismatched n o x) (sym same) ∙ m)) (inl (ap (λ x. (o, x)) same)))

  matched_iff :
      (orders : List (Order F)) (receipts : List (UserReceipt F)) (o : Order F) (r : UserReceipt F)
      → AreDistinct orders
      → IsOneOf (o, r) (reconcile n orders receipts) ↔ (
          IsOneOf o orders
          × IsOneOf r receipts
          × (o.payment_sequence ≡ some r.payment_sequence)
          × (r.payment_sequence ≢ 0)
          × (is_mismatched n o r ≡ false))
  unfolding reconcile
  matched_iff orders receipts o r distinct = (
    λ i. sound (settle_receipts_sound (parse_dictionary [] orders) receipts o r i),
    λ (i, j, e, z, m).
        settle_receipts_complete (parse_dictionary [] orders) receipts o r j
          (found r.payment_sequence e z i) m,
  )
    where
      found :
          (k : ℕ)
          → o.payment_sequence ≡ some k
          → k ≢ 0
          → IsOneOf o orders
          → order_at k (parse_dictionary [] orders) ≡ some o
      found zero e z i = absurd (z refl)
      found (suc k) e z i = order_at_complete k [] orders o distinct i e

      sound :
          IsOneOf r receipts
            × (order_at r.payment_sequence (parse_dictionary [] orders) ≡ some o)
            × (is_mismatched n o r ≡ false)
          → IsOneOf o orders
            × IsOneOf r receipts
            × (o.payment_sequence ≡ some r.payment_sequence)
            × (r.payment_sequence ≢ 0)
            × (is_mismatched n o r ≡ false)
      sound (j, f, m) = elim (order_at_sound r.payment_sequence [] orders o f) [
        | inl (i, e, z) ↦ (i, j, e, z, m)
        | inr never ↦ absurd (none-ne-some o never)
      ]

  -- The claimed amount is at most 0.001 away from the total in tokens.
  abbrev IsClose : Order F → UserReceipt F → Type 0
  IsClose o r =
      (lt (add r.amount_in_knn (read (codes "0.001"))) o.total_knn ≡ false)
      × (lt o.total_knn (n.sub r.amount_in_knn (read (codes "0.001"))) ≡ false)

  is_mismatched_iff :
      (o : Order F) (r : UserReceipt F) → (is_mismatched n o r ≡ false) ↔ IsClose o r
  unfolding is_mismatched
  is_mismatched_iff o r = (λ h. ground arith, λ h. ground arith)

  -- Where no two unsettled orders have one payment sequence, an order is reconciled with a receipt
  -- exactly when both were given, the order has the sequence that the receipt names, which is not 0,
  -- and the order's total in tokens is neither above the claimed amount and 0.001 nor below the
  -- claimed amount less 0.001.
  pub reconcile_iff :
      (orders : List (Order F)) (receipts : List (UserReceipt F)) (o : Order F) (r : UserReceipt F)
      → AreDistinct orders
      → IsOneOf (o, r) (reconcile n orders receipts) ↔ (
          IsOneOf o orders
          × IsOneOf r receipts
          × (o.payment_sequence ≡ some r.payment_sequence)
          × (r.payment_sequence ≢ 0)
          × (lt (add r.amount_in_knn (read (codes "0.001"))) o.total_knn ≡ false)
          × (lt o.total_knn (n.sub r.amount_in_knn (read (codes "0.001"))) ≡ false))
  reconcile_iff orders receipts o r distinct =
      let (to, from) = matched_iff orders receipts o r distinct in
      (
        λ i.
            let (given, received, same, nonzero, m) = to i in
            let (above, below) = (is_mismatched_iff o r).0 m in
            (given, received, same, nonzero, above, below),
        λ (given, received, same, nonzero, above, below).
            from (given, received, same, nonzero, (is_mismatched_iff o r).1 (above, below)),
      )
