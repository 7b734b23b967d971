-- ===== src/Clearing/Pages.antt =====
-- src/domain/clearing/usecases/create-clearing.usecase.ts, `processStatement`: the pages of a
-- statement. The transactions of a page advance in the order of a schedule, and the page is over when
-- all have returned.
pub mod Seen
pub mod Accounts
pub mod Bounded
use offchain_service.Base.{
  ℕ, zero, suc, Bool, false, ◌||◌, Option, none, some, List, [], ◌∷◌, ◌++◌, map, keep, length,
  if◌then◌else◌, leb, ◌==◌, Text, codes, Result, ok, err,
}
use offchain_service.Base.Dict.{Dict, lookup}
use offchain_service.Base.Numbers.{Numbers}
use offchain_service.Order.{Order}
use offchain_service.Clearing.Entities.{
  ClearingStatus, empty, faulted, ran_to_completion, Clearing, Transaction, Statement,
  ConfirmationRecord, add_payments,
}
use offchain_service.Clearing.Database.{Tables}
use offchain_service.Clearing.Process.{ProcessPorts}
use offchain_service.Clearing.Schedule.{Task, Shared, run_schedule, drain, is_cached}
use offchain_service.Clearing.Bank.{Answer, thrown, answered, BankPorts, fetch_next}

-- What the use case is given: the interactor's services, the bank, the orders by their end-to-end
-- identifiers, the identifier of the new clearing, and for each page the order of the turns.
pub record CreatePorts (F : Type 0) : Type 0 where
  pub process : ProcessPorts
  pub bank : BankPorts
  pub fetch_many_by_end_id : List Text → Tables F → Result (Dict (Order F))
  pub new_id : Text
  pub schedule : ℕ → List ℕ

-- The state of the loop over the pages.
pub record Run (F : Type 0) : Type 0 where
  pub clearing : Clearing F
  pub cache : Dict Bool
  pub processed : Dict (ConfirmationRecord F)
  pub tables : Tables F

-- What a page ends in: the loop goes on, is left, or has thrown.
pub data Step (F : Type 0) : Type 0 where
  going_on : Statement → Run F → Step F
  ended : Run F → Step F
  broken : Run F → Step F

-- `isValid`
abbrev is_valid : Text → Bool
is_valid id = (length id == 25) || (length id == 24)

-- `endIds`
unfoldable pub end_ids : Dict Bool → List Transaction → List Text
end_ids cache xs = keep is_valid (
    map (λ x. if is_cached (lookup x.provider_payment_id cache) then codes "0" else x.end_to_end_id)
      xs)

module _ (n : Numbers) (ports : CreatePorts n.F) where
  open n use {F, of_ℕ, eq}
  open ports use {process, bank, fetch_many_by_end_id, new_id, schedule}
  open process use {up, now}

  abbrev pub waiting : Transaction → Task F
  waiting x = record { transaction = x; phase = none; returned = false }

  -- `FetchOrderBatchUseCase.fetchMany`
  abbrev pub fetch_many : List Text → Tables F → Result (Dict (Order F))
  fetch_many [] t = ok []
  fetch_many (id ∷ ids) t = fetch_many_by_end_id (id ∷ ids) t

  -- `Promise.all` over the transactions of the page.
  abbrev pub all_turns : ℕ → List Transaction → Run F → Dict (Order F) → List (Task F) × Shared F
  all_turns page xs r orders =
      run_schedule n process r.clearing.id (schedule page ++ drain (length (map waiting xs)))
        (map waiting xs)
        (record { cache = r.cache; orders = orders; processed = r.processed; tables = r.tables })

  -- The page's transactions, and `addPayments`.
  unfoldable pub process_page : ℕ → List Transaction → Run F → Dict (Order F) → Run F
  process_page page xs r orders =
      let (ks, s) = all_turns page xs r orders in
      record {
        clearing = add_payments n now s.processed r.clearing;
        cache = s.cache;
        processed = s.processed;
        tables = s.tables;
      }

  -- The test of the `while`.
  abbrev pub next_page : Answer Statement → Run F → Step F
  next_page (thrown _) r = broken r
  next_page (answered s) r = if leb s.current_page s.total_pages then going_on s r else ended r

  abbrev pub after_page : Statement → Run F → Step F
  after_page s r = if s.last_page then ended r else next_page (fetch_next bank s) r

  abbrev pub with_orders : Statement → List Transaction → Run F → Result (Dict (Order F)) → Step F
  with_orders s xs r (err _) = broken r
  with_orders s xs r (ok orders) = after_page s (process_page s.current_page xs r orders)

  -- One pass of the loop; a page without transactions throws.
  unfoldable pub pass : Statement → Run F → Step F
  pass s r = elim s.transactions [
    | none ↦ broken r
    | some xs ↦ with_orders s xs r (fetch_many (end_ids r.cache xs) r.tables)
  ]

  abbrev pub in_clearing_status : ClearingStatus → Run F → Run F
  in_clearing_status st r = record r { clearing = record r.clearing { status = st } }

  abbrev pub status_of : Dict (ConfirmationRecord F) → ClearingStatus
  status_of [] = empty
  status_of (_ ∷ _) = ran_to_completion

  -- The status after the loop.
  abbrev pub completed : Run F → Run F
  completed r = in_clearing_status (status_of r.processed) r

  abbrev pub by_step : (Statement → Run F → Option (Run F)) → Step F → Option (Run F)
  by_step loop (going_on s r) = loop s r
  by_step loop (ended r) = some (completed r)
  by_step loop (broken r) = some (in_clearing_status faulted r)

  -- `processStatement`, with fuel for the pages.
  unfoldable pub process_statement : ℕ → Statement → Run F → Option (Run F)
  unfolding pass
  process_statement zero s r = none
  process_statement (suc fuel) s r = by_step (process_statement fuel) (pass s r)
