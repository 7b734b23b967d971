-- ===== src/Settlement.antt =====
-- src/domain/settlement/usecases/process-order-settlement.usecase.ts, up to the mail, whose failures
-- are caught.
pub mod Laws
pub mod Batch
use offchain_service.Base.{
  ℕ, Bool, not, List, [], ◌∷◌, if◌then◌else◌, Text, text_eq, Result, ok, err,
}
use offchain_service.Base.Results.{payment_mismatch, missing_receipt}
use offchain_service.Order.{Order}
use offchain_service.Clearing.Database.{Tables, settled, create_transition}
use offchain_service.Supply.Dispatch.{DispatchPorts, PaidBy, Call, Receipt, execute}

-- What a settlement leaves: the calls of the dispatch, the order in memory and the tables.
pub record Settled (F : Type 0) : Type 0 where
  pub calls : List Call
  pub order : Order F
  pub tables : Tables F
  pub result : Result (Unit {0})

module _ (ports : DispatchPorts) (up : ℕ → Bool) {F : Type 0} (payment : PaidBy) where
  -- The transition of an order whose receipt names a transaction.
  abbrev pub store : List Call → Order F → Text → Tables F → Settled F
  store calls o [] t = record { calls = calls; order = o; tables = t; result = err missing_receipt }
  store calls o (c ∷ hash) t =
      let (t', r) = create_transition up o (settled payment.sequence payment.id (c ∷ hash)) t in
      record { calls = calls; order = o; tables = t'; result = r }

  abbrev pub after_dispatch : List Call × Order F × Result Receipt → Tables F → Settled F
  after_dispatch (calls, o, err k) t = record {
    calls = calls;
    order = o;
    tables = t;
    result = err k;
  }
  after_dispatch (calls, o, ok receipt) t = store calls o receipt.transaction_hash t

  -- `execute`
  unfoldable pub settle_order : Order F → Tables F → Settled F
  settle_order o t =
      if not (text_eq o.id payment.order_id)
      then record { calls = []; order = o; tables = t; result = err payment_mismatch }
      else after_dispatch (execute ports o payment) t
