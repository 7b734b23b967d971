-- ===== src/Tests/SettlementExamples.antt =====
-- The properties of the settlements at a batch of one order of an e-mail address.
use offchain_service.Base.{[], ◌∷◌}
use offchain_service.Settlement.Batch.{settle_orders}
use offchain_service.Settlement.Batch.Laws.{AllDone, settle_orders-AllDone}
use offchain_service.Tests.Data.{order, tables, ports}
use offchain_service.Tests.DispatchExamples.{dispatch_ports, paid_by}

settle_orders-AllDone_example :
    AllDone
      (λ _. dispatch_ports)
      ports.up
      ((paid_by, order) ∷ [])
      (settle_orders (λ _. dispatch_ports) ports.up ((paid_by, order) ∷ []) tables).0
      (settle_orders (λ _. dispatch_ports) ports.up ((paid_by, order) ∷ []) tables).1
settle_orders-AllDone_example =
    settle_orders-AllDone (λ _. dispatch_ports) ports.up ((paid_by, order) ∷ []) tables (tt, tt)
