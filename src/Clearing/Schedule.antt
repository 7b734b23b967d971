-- ===== src/Clearing/Schedule.antt =====
-- src/domain/clearing/usecases/create-clearing.usecase.ts, `processStatementTransaction` under
-- `Promise.all`: the transactions of a page advance in any order. Two of them may name one order,
-- which they then share.
pub mod Held
pub mod Done
pub mod Returned
pub mod Once
pub mod Recorded
pub mod Cached
use offchain_service.Base.{
  ℕ, zero, suc, Bool, true, false, Option, none, some, List, [], ◌∷◌, ◌++◌, if◌then◌else◌, Text,
  is_some,
}
use offchain_service.Base.Lists.{replicate}
use offchain_service.Base.Dict.{Dict, lookup, insert}
use offchain_service.Base.Numbers.{Numbers}
use offchain_service.Order.{Order}
use offchain_service.Clearing.Entities.{Transaction, Payment, ConfirmationRecord}
use offchain_service.Clearing.Database.{Tables}
use offchain_service.Clearing.Process.{ProcessPorts, Phase, start, finished, advance}

-- One call of `processStatementTransaction`: it is waiting for its turn, is in a part of the
-- interactor's `execute`, or has returned.
pub record Task (F : Type 0) : Type 0 where
  pub transaction : Transaction
  pub phase : Option (Phase F)
  pub returned : Bool

-- What the tasks share: the cache of the seen transactions, the orders by their end-to-end
-- identifier, the processed payments and the database.
pub record Shared (F : Type 0) : Type 0 where
  pub cache : Dict Bool
  pub orders : Dict (Order F)
  pub processed : Dict (ConfirmationRecord F)
  pub tables : Tables F

abbrev pub is_cached : Option Bool → Bool
is_cached none = false
is_cached (some b) = b

module _ {F : Type 0} where
  abbrev cached : Text → Shared F → Shared F
  cached id s = record s { cache = insert id true s.cache }

  -- The part up to the interactor's call: the cache, then the order.
  abbrev pub find_order : Task F → Option (Order F) → Shared F → Task F × Shared F
  find_order k none s = (record k { returned = true }, cached k.transaction.provider_payment_id s)
  find_order k (some o) s = (record k { phase = some start }, s)

  unfoldable pub begin : Task F → Shared F → Task F × Shared F
  begin k s =
      if is_cached (lookup k.transaction.provider_payment_id s.cache)
      then (record k { returned = true }, s)
      else find_order k (lookup k.transaction.end_to_end_id s.orders) s

  -- What follows the interactor's result: the cache, and the record if there is one.
  abbrev record_result : Task F → Option (Payment F) → Order F → Shared F → Shared F
  record_result k none o s = cached k.transaction.provider_payment_id s
  record_result k (some p) o s =
      let s' = cached k.transaction.provider_payment_id s in
      record s' {
        processed =
            insert k.transaction.provider_payment_id (record { payment = p; order = o })
              s.processed;
      }

module _ (n : Numbers) (ports : ProcessPorts) (clearing_id : Text) where
  open n use {F}

  -- A part of the interactor on the shared order.
  abbrev pub move : Task F → Phase F → Option (Order F) → Shared F → Task F × Shared F
  move k p none s = (k, s)
  move k (finished r) (some o) s = (record k { returned = true }, record_result k r o s)
  move k p (some o) s =
      let (p', o', t') = advance n ports clearing_id k.transaction p o s.tables in
      (
        record k { phase = some p' },
        record s { orders = insert k.transaction.end_to_end_id o' s.orders; tables = t' },
      )

  abbrev pub resume : Task F → Option (Phase F) → Shared F → Task F × Shared F
  resume k none s = begin k s
  resume k (some p) s = move k p (lookup k.transaction.end_to_end_id s.orders) s

  -- One turn of a task.
  unfoldable pub turn : Task F → Shared F → Task F × Shared F
  unfolding begin
  turn k s = if k.returned then (k, s) else resume k k.phase s

  -- The turn of the task at a place; a place that there is not does nothing.
  unfoldable pub turn_at : ℕ → List (Task F) → Shared F → List (Task F) × Shared F
  turn_at i [] s = ([], s)
  turn_at zero (k ∷ ks) s = let (k', s') = turn k s in (k' ∷ ks, s')
  turn_at (suc i) (k ∷ ks) s = let (ks', s') = turn_at i ks s in (k ∷ ks', s')

  -- A schedule: the places of the tasks in the order of their turns.
  unfoldable pub run_schedule : List ℕ → List (Task F) → Shared F → List (Task F) × Shared F
  run_schedule [] ks s = (ks, s)
  run_schedule (i ∷ is) ks s = let (ks', s') = turn_at i ks s in run_schedule is ks' s'

-- Turns that let every task come to its end, for so many tasks: `Promise.all` waits for them.
unfoldable pub drain : ℕ → List ℕ
drain zero = []
drain (suc k) = replicate 9 k ++ drain k
