-- ===== src/Tests/ClearingExamples.antt =====
-- The properties of clearing at the order and the transaction that pays it.
use offchain_service.Base.{ℕ, ◌≡◌, ◌⊎◌, refl, none, some, [], ◌∷◌, All, map, codes}
use offchain_service.Clearing.Entities.{Payment}
use offchain_service.Order.{confirmed, is_expired, has_payments, in_status, set_status}
use offchain_service.Clearing.Database.{create_payment, create_transition, numbered}
use offchain_service.Clearing.Database.Laws.{IsUnique}
use offchain_service.Clearing.Process.{finished, execute, new_payment}
use offchain_service.Clearing.Process.Laws.{
  IsPayable, IsMade, execute-confirmed, execute-given_up, execute-lost_confirmation,
}
use offchain_service.Clearing.Schedule.{run_schedule}
use offchain_service.Clearing.Schedule.Held.{held, PairwiseApart, IsIn}
use offchain_service.Clearing.Schedule.Once.{run_schedule-paid_once}
use offchain_service.Tests.Instances.{numbers}
use offchain_service.Tests.Data.{
  order, transaction, tables, ports, failing_ports, task, second_task, shared,
}

abbrev payment : Payment ℕ
payment = numbered ports.up (new_payment numbers ports (codes "c1") transaction order) tables

execute-confirmed_example :
    IsPayable numbers ports (codes "c1") transaction order
    × IsMade numbers ports
        (codes "c1")
        transaction
        order
        tables
        (execute numbers ports (codes "c1") transaction order tables).2
        payment
    × ((execute numbers ports (codes "c1") transaction order tables).1.status ≡ some confirmed)
unfolding execute create_payment create_transition new_payment has_payments in_status is_expired
execute-confirmed_example =
    execute-confirmed numbers ports (codes "c1") transaction order tables payment refl

execute-given_up_example :
    ((execute numbers ports (codes "c1") transaction (set_status confirmed order) tables).2.payments
      ≡ [])
    ⊎ (IsPayable numbers ports (codes "c1") transaction (set_status confirmed order)
        × ((p : Payment ℕ) × IsMade numbers ports
              (codes "c1")
              transaction
              (set_status confirmed order)
              tables
              (execute numbers ports (codes "c1") transaction (set_status confirmed order) tables).2
              p))
unfolding execute has_payments in_status is_expired
execute-given_up_example =
    execute-given_up numbers ports (codes "c1") transaction (set_status confirmed order) tables refl

execute-lost_confirmation_example :
    ((execute numbers failing_ports (codes "c1") transaction order tables).0 ≡ finished none)
    × ((execute numbers failing_ports (codes "c1") transaction order tables).2.payments
        ≡ numbered failing_ports.up
            (new_payment numbers failing_ports (codes "c1") transaction order)
            tables
          ∷ [])
    × ((execute numbers failing_ports (codes "c1") transaction order tables).2.statuses ≡ [])
unfolding is_expired new_payment has_payments in_status
execute-lost_confirmation_example =
    execute-lost_confirmation numbers failing_ports (codes "c1") transaction order tables
      (record { unpaid = refl; exact = refl; open_status = refl }) refl refl refl refl

-- Both transactions come to the insertion of their payment before either has done it.
run_schedule-paid_once_example :
    let (ks, s) =
      run_schedule numbers ports
        (codes "c1")
        (0 ∷ 1 ∷ 0 ∷ 1 ∷ 0 ∷ 1 ∷ 0 ∷ 1 ∷ 0 ∷ 1 ∷ [])
        (task ∷ second_task ∷ [])
        shared in
    All (IsIn s.tables.payments) (map held ks)
    × PairwiseApart (map held ks)
    × IsUnique s.tables.payments
run_schedule-paid_once_example =
    run_schedule-paid_once numbers ports (codes "c1") (0 ∷ 1 ∷ 0 ∷ 1 ∷ 0 ∷ 1 ∷ 0 ∷ 1 ∷ 0 ∷ 1 ∷ [])
      (task ∷ second_task ∷ []) shared (refl, (refl, tt)) tt
