-- ===== src/Tests/RefinementExamples.antt =====
-- The refinement of the ledger at a transfer between two holders.
use offchain_service.Base.{◌≢◌, refl, Text, [], ◌∷◌, codes, arith}
use offchain_service.Ledger.Entry.{AccountGroup, holder}
use offchain_service.Ledger.Sync.{sync_balances}
use offchain_service.Ledger.Sync.Refinement.{Refines, sync_balances-Refines}
use offchain_service.Tests.Instances.{numbers, exact, sync_ports}
use offchain_service.Tests.Data.{credit_b, no_rows}

abbrev all_holders : Text → AccountGroup
all_holders account = holder

named : codes "b" ≢ []
named h = ground arith

sync_balances-Refines_example :
    Refines no_rows (sync_balances numbers sync_ports 0 (credit_b ∷ []) no_rows)
sync_balances-Refines_example =
    sync_balances-Refines numbers sync_ports exact all_holders 0 (credit_b ∷ []) no_rows
      ((named, refl), tt) tt
