-- ===== src/Tests/ExpiryExamples.antt =====
-- The properties of the expiry at a requested order that is older than a day.
use offchain_service.Base.{refl, ℕ, [], ◌∷◌, List, codes, Result, ok}
use offchain_service.Order.{Order, OrderStatus}
use offchain_service.Expiry.{expire_orders}
use offchain_service.Expiry.Laws.{Leaves, expire_orders-Leaves}
use offchain_service.Tests.Instances.{plain}
use offchain_service.Tests.Data.{order, tables, ports}

abbrev one_order : List OrderStatus → ℕ → Result (List (Order ℕ))
one_order statuses limit = ok (order ∷ [])

expire_orders-Leaves_example :
    Leaves ports.up 90000000 plain
      (codes "k")
      (order ∷ [])
      tables
      (expire_orders ports.up 90000000 plain (codes "k") one_order tables)
expire_orders-Leaves_example =
    expire_orders-Leaves ports.up 90000000 plain (codes "k") one_order (order ∷ []) tables refl
