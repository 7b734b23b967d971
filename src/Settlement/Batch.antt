-- ===== src/Settlement/Batch.antt =====
-- src/domain/settlement/usecases/create-settlement.usecase.ts: the orders that wait for a settlement,
-- one after the other.
pub mod Laws
use offchain_service.Base.{ℕ, Bool, List, [], ◌∷◌}
use offchain_service.Order.{Order}
use offchain_service.Clearing.Database.{Tables}
use offchain_service.Supply.Dispatch.{DispatchPorts, PaidBy}
use offchain_service.Settlement.{Settled, settle_order}

module _ (ports : PaidBy → DispatchPorts) (up : ℕ → Bool) {F : Type 0} where
  -- `execute`, on the orders in the sequence of their payments; each settlement has its own answers
  -- of the chain, and its errors are caught and written to the console.
  unfoldable pub settle_orders : List (PaidBy × Order F) → Tables F → List (Settled F) × Tables F
  settle_orders [] t = ([], t)
  settle_orders ((payment, o) ∷ batch) t =
      let s = settle_order (ports payment) up payment o t in
      let (rest, t') = settle_orders batch s.tables in (s ∷ rest, t')
