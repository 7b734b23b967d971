-- ===== src/Tests/SupplyExamples.antt =====
-- The properties of the reconciliation at one locked order.
use offchain_service.Base.{ℕ, ◌≡◌, ◌≢◌, ◌↔◌, refl, false, none, some, [], ◌∷◌, codes}
use offchain_service.Base.Lists.{IsOneOf}
use offchain_service.Order.{Order, locked}
use offchain_service.Supply.Reconciliation.{UserReceipt, reconcile}
use offchain_service.Supply.Reconciliation.Settled.{reconcile_iff}
use offchain_service.Tests.Instances.{numbers}
use offchain_service.Tests.Data.{order}

-- A locked order with a lock of its amount.
abbrev locked_order : Order ℕ
locked_order = record order {
  user_identifier = codes "A@b.c";
  status = some locked;
  total_knn = 10;
  payment_count = some 1;
  payment_sequence = some 1;
  payment_provider_id = some (codes "p1");
  lock_transaction_hash = some (codes "h1");
  total_locked_uint256 = some 6;
}

abbrev receipt : UserReceipt ℕ
receipt = record {
  chain_id = 1;
  crypto_wallet = codes "0xa";
  payment_sequence = 1;
  amount_in_knn = 12;
  block_number = 7;
  transaction_hash = codes "h2";
  from = codes "0xa";
  to = codes "0xb";
  gas_used = 1;
  cumulative_gas_used = 1;
  effective_gas_price = 1;
  past_due = none;
  uint256_amount = none;
}

reconcile_iff_example :
    IsOneOf (locked_order, receipt) (reconcile numbers (locked_order ∷ order ∷ []) (receipt ∷ []))
    ↔ (IsOneOf locked_order (locked_order ∷ order ∷ [])
        × IsOneOf receipt (receipt ∷ [])
        × (locked_order.payment_sequence ≡ some receipt.payment_sequence)
        × (receipt.payment_sequence ≢ 0)
        × (numbers.lt
              (numbers.add receipt.amount_in_knn (numbers.read (codes "0.001")))
              locked_order.total_knn
            ≡ false)
        × (numbers.lt locked_order.total_knn
              (numbers.sub receipt.amount_in_knn (numbers.read (codes "0.001")))
            ≡ false))
reconcile_iff_example =
    reconcile_iff numbers (locked_order ∷ order ∷ []) (receipt ∷ []) locked_order receipt
      (refl, (refl, tt))
