-- ===== src/Supply/Reconciliation.antt =====
-- src/domain/supply/usecases/reconcile-delegate-signature-claim.usecase.ts: the claims that users
-- made on the chain are matched with the orders by the sequence of their payment. The dictionary of
-- the orders is the list of its assignments, the latest first.
pub mod Dictionary
pub mod Settled
use offchain_service.Base.{
  ℕ, zero, suc, ◌==◌, Bool, ◌||◌, Option, none, some, List, [], ◌∷◌, if◌then◌else◌, Text, codes,
  Result, ok, err, ◌>>=◌,
}
use offchain_service.Base.Numbers.{Numbers}
use offchain_service.Order.{Order, OrderStatus, owned, challenged, locked}

-- `OnChainUserReceipt`
pub record UserReceipt (F : Type 0) : Type 0 where
  pub chain_id : ℕ
  pub crypto_wallet : Text
  pub payment_sequence : ℕ
  pub amount_in_knn : F
  pub block_number : ℕ
  pub transaction_hash : Text
  pub from : Text
  pub to : Text
  pub gas_used : F
  pub cumulative_gas_used : F
  pub effective_gas_price : F
  pub past_due : Option ℕ
  pub uint256_amount : Option Text

module _ {F : Type 0} where
  abbrev assign : Option ℕ → Order F → List (ℕ × Order F) → List (ℕ × Order F)
  assign none o d = d
  assign (some zero) o d = d
  assign (some (suc k)) o d = (suc k, o) ∷ d

  -- `parseDictionary`, from the assignments so far
  unfoldable pub parse_dictionary : List (ℕ × Order F) → List (Order F) → List (ℕ × Order F)
  parse_dictionary d [] = d
  parse_dictionary d (o ∷ os) = parse_dictionary (assign o.payment_sequence o d) os

  -- `orders[sequence]`
  abbrev pub order_at : ℕ → List (ℕ × Order F) → Option (Order F)
  order_at k [] = none
  order_at k ((j, o) ∷ d) = let rest = order_at k d in if j == k then some o else rest

module _ (n : Numbers) where
  open n use {F, add, lt, read}

  -- The test of the claimed amount.
  unfoldable pub is_mismatched : Order F → UserReceipt F → Bool
  is_mismatched o r =
      lt (add r.amount_in_knn (read (codes "0.001"))) o.total_knn
      || lt o.total_knn (n.sub r.amount_in_knn (read (codes "0.001")))

  abbrev settle_receipt :
      Option (Order F)
      → UserReceipt F
      → List (Order F × UserReceipt F)
      → List (Order F × UserReceipt F)
  settle_receipt none r rest = rest
  settle_receipt (some o) r rest = if is_mismatched o r then rest else (o, r) ∷ rest

  -- The loop of `reconcile`
  unfoldable pub settle_receipts :
      List (ℕ × Order F) → List (UserReceipt F) → List (Order F × UserReceipt F)
  settle_receipts d [] = []
  settle_receipts d (r ∷ rs) =
      settle_receipt (order_at r.payment_sequence d) r (settle_receipts d rs)

  -- `reconcile`
  unfoldable pub reconcile : List (Order F) → List (UserReceipt F) → List (Order F × UserReceipt F)
  unfolding parse_dictionary settle_receipts
  reconcile orders receipts = settle_receipts (parse_dictionary [] orders) receipts

  -- `execute`, on the two ports
  unfoldable pub execute :
      (List OrderStatus → Result (List (Order F)))
      → Result (List (UserReceipt F))
      → Result (List (Order F × UserReceipt F))
  unfolding reconcile
  execute fetch_locked events = do
    orders ← fetch_locked (owned ∷ challenged ∷ locked ∷ [])
    receipts ← events
    ok (reconcile orders receipts)
