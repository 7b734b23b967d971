-- ===== src/Supply/Dispatch/Kept.antt =====
-- A dispatch keeps the order's identifier.
use offchain_service.Base.{◌≡◌, refl, List, Result, ok, err, arith}
use offchain_service.Common.Chain.{NetworkType, new_chain}
use offchain_service.Order.{Order, UserIdentifier, email, crypto_wallet, unknown_identifier}
use offchain_service.Supply.Dispatch.{
  DispatchPorts, PaidBy, Call, Receipt, after_claim, after_lock, by_type, on_chain, execute,
}

module _ (ports : DispatchPorts) {F : Type 0} (payment : PaidBy) where
  after_claim-id :
      (o : Order F) (x : List Call × Result Receipt) → (after_claim ports o x).1.id ≡ o.id
  after_claim-id o (calls, err k) = refl
  after_claim-id o (calls, ok receipt) = ground arith

  after_lock-id :
      (o : Order F) (x : List Call × Result Receipt) → (after_lock ports o x).1.id ≡ o.id
  after_lock-id o (calls, err k) = refl
  after_lock-id o (calls, ok receipt) = ground arith

  by_type-id :
      (o : Order F) (u : UserIdentifier) (c : NetworkType)
      → (by_type ports u o payment c).1.id ≡ o.id
  by_type-id o crypto_wallet c = after_claim-id o _
  by_type-id o email c = after_lock-id o _
  by_type-id o unknown_identifier c = refl

  on_chain-id : (o : Order F) (c : Result NetworkType) → (on_chain ports c o payment).1.id ≡ o.id
  on_chain-id o (err k) = refl
  on_chain-id o (ok c) = by_type-id o o.identifier_type c

  pub execute-id : (o : Order F) → (execute ports o payment).1.id ≡ o.id
  unfolding execute
  execute-id o = on_chain-id o (new_chain ports.environment o.desired_chain_id)
