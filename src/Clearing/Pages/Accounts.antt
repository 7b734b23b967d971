-- ===== src/Clearing/Pages/Accounts.antt =====
-- What a clearing counts, and the payments in the database.
use offchain_service.Base.{
  ℕ, zero, suc, ◌<◌, ◌≡◌, ◌⊎◌, inl, inr, refl, ap, true, Option, none, some, List, [], ◌∷◌, ◌++◌,
  leb, map, length, is_some, Bool-cases, Result, ok, err, arith,
}
use offchain_service.Base.Dict.{Dict}
use offchain_service.Base.Numbers.{Numbers}
use offchain_service.Order.{Order}
use offchain_service.Clearing.Entities.{
  empty, faulted, ran_to_completion, Transaction, Statement, ConfirmationRecord, add_payments,
}
use offchain_service.Clearing.Database.Laws.{IsUnique}
use offchain_service.Clearing.Bank.{Answer, thrown, answered, fetch_next}
use offchain_service.Clearing.Schedule.{Shared, drain}
use offchain_service.Clearing.Schedule.Once.{run_schedule-paid_once}
use offchain_service.Clearing.Schedule.Recorded.{Recorded, run_schedule-Recorded}
use offchain_service.Clearing.Pages.Bounded.{Announces, process_statement-some}
use offchain_service.Clearing.Pages.Seen.{waiting-IsWaiting}
use offchain_service.Clearing.Pages.{
  CreatePorts, Run, Step, going_on, ended, broken, waiting, pass, process_page, process_statement,
  next_page, by_step, with_orders, after_page, end_ids, fetch_many, completed, status_of,
  in_clearing_status,
}

module _ {F : Type 0} where
  -- The payments are unique, those of the records are in the database, and the clearing counts the
  -- records, or has counted none yet.
  abbrev pub Accounted : Run F → Type 0
  Accounted r =
      IsUnique r.tables.payments
      × Recorded r.tables.payments r.processed
      × ((r.clearing.total_entries ≡ some (length r.processed))
          ⊎ ((r.clearing.total_entries ≡ none) × (r.processed ≡ [])))

  -- The status says whether there are records.
  abbrev pub StatusFits : Run F → Type 0
  StatusFits r =
      (r.clearing.status ≡ faulted)
      ⊎ ((r.clearing.status ≡ empty) × (length r.processed ≡ 0))
      ⊎ ((r.clearing.status ≡ ran_to_completion) × (0 < length r.processed))

  abbrev StepAccounted : Step F → Type 0
  StepAccounted (going_on s r) = Accounted r
  StepAccounted (ended r) = Accounted r
  StepAccounted (broken r) = Accounted r

  abbrev pub IsSettledRun : Option (Run F) → Type 0
  IsSettledRun none = Unit
  IsSettledRun (some r) = Accounted r × StatusFits r

module _ (n : Numbers) (ports : CreatePorts n.F) where
  open n use {F}

  process_page-Accounted :
      (page : ℕ) (xs : List Transaction) (r : Run F) (orders : Dict (Order F))
      → Accounted r
      → Accounted (process_page n ports page xs r orders)
  unfolding process_page add_payments
  process_page-Accounted page xs r orders (u, rec, _) =
      let is = ports.schedule page ++ drain (length (map (waiting n ports) xs)) in
      let s : Shared F = record {
        cache = r.cache;
        orders = orders;
        processed = r.processed;
        tables = r.tables;
      } in
      let w = waiting-IsWaiting n ports xs in
      let ks = map (waiting n ports) xs in
      (
        (run_schedule-paid_once n ports.process r.clearing.id is ks s w u).2,
        run_schedule-Recorded n ports.process r.clearing.id is ks s w rec,
        inl refl,
      )

  next_page-Accounted :
      (a : Answer Statement) (r : Run F) → Accounted r → StepAccounted (next_page n ports a r)
  next_page-Accounted (thrown m) r h = h
  next_page-Accounted (answered s) r h = elim (Bool-cases (leb s.current_page s.total_pages)) [
    | inl e ↦ rw e h
    | inr e ↦ rw e h
  ]

  after_page-Accounted :
      (s : Statement) (r : Run F) → Accounted r → StepAccounted (after_page n ports s r)
  after_page-Accounted s r h = elim (Bool-cases s.last_page) [
    | inl e ↦ rw e h
    | inr e ↦ rw e (next_page-Accounted (fetch_next ports.bank s) r h)
  ]

  with_orders-Accounted :
      (s : Statement) (xs : List Transaction) (r : Run F) (found : Result (Dict (Order F)))
      → Accounted r
      → StepAccounted (with_orders n ports s xs r found)
  with_orders-Accounted s xs r (err e) h = h
  with_orders-Accounted s xs r (ok orders) h =
      after_page-Accounted s (process_page n ports s.current_page xs r orders)
        (process_page-Accounted s.current_page xs r orders h)

  pass-Accounted : (s : Statement) (r : Run F) → Accounted r → StepAccounted (pass n ports s r)
  unfolding pass
  pass-Accounted s r h =
      elim s.transactions
        as (λ t. StepAccounted (elim t [
          | none ↦ broken r
          | some xs ↦ with_orders n ports s xs r (fetch_many n ports (end_ids r.cache xs) r.tables)
        ])) [
          | none ↦ h
          | some xs ↦
              with_orders-Accounted s xs r (fetch_many n ports (end_ids r.cache xs) r.tables) h
        ]

  completed-Accounted :
      (r : Run F) → Accounted r → Accounted (completed n ports r) × StatusFits (completed n ports r)
  completed-Accounted r h = by_records r.processed refl
    where
      by_records :
          (d : Dict (ConfirmationRecord F))
          → r.processed ≡ d
          → let r' = in_clearing_status n ports (status_of n ports d) r in
            Accounted r' × StatusFits r'
      by_records [] e = (h, inr (inl (refl, ap length e)))
      by_records (x ∷ d) e = (h, inr (inr (refl, rw e (omega arith))))

  by_step-Accounted :
      (loop : Statement → Run F → Option (Run F)) (x : Step F)
      → StepAccounted x
      → ((s : Statement) (r : Run F) → Accounted r → IsSettledRun (loop s r))
      → IsSettledRun (by_step n ports loop x)
  by_step-Accounted loop (going_on s r) h f = f s r h
  by_step-Accounted loop (ended r) h f = completed-Accounted r h
  by_step-Accounted loop (broken r) h f = (h, inl refl)

  pub process_statement-IsSettledRun :
      (fuel : ℕ) (s : Statement) (r : Run F)
      → Accounted r
      → IsSettledRun (process_statement n ports fuel s r)
  unfolding process_statement
  process_statement-IsSettledRun zero s r h = tt
  process_statement-IsSettledRun (suc fuel) s r h =
      by_step-Accounted (process_statement n ports fuel) (pass n ports s r) (pass-Accounted s r h)
        (process_statement-IsSettledRun fuel)

  settled_run :
      (x : Option (Run F))
      → is_some x ≡ true
      → IsSettledRun x
      → (r : Run F) × (x ≡ some r) × Accounted r × StatusFits r
  settled_run none h k = ground arith
  settled_run (some r) h k = (r, refl, k.0, k.1)

  -- Where the provider never announces more than so many pages and there is fuel for one more, the
  -- loop over the pages of a statement, begun in a state that accounts, comes to its end: the payments
  -- are unique, the payment of each confirmation record is in the database, the clearing counts the
  -- records or has counted none yet, and its status is faulted, or says whether there are any records.
  pub process_statement-accounts :
      (m : ℕ) (bound : Announces m ports) (fuel : ℕ) (s : Statement) (r : Run F)
      → m < fuel
      → Accounted r
      → (r' : Run F) × (process_statement n ports fuel s r ≡ some r') × Accounted r' × StatusFits r'
  process_statement-accounts m bound fuel s r l h =
      settled_run (process_statement n ports fuel s r)
        (process_statement-some n ports m bound fuel s r (omega (arith, l)) (omega (arith, l)))
        (process_statement-IsSettledRun fuel s r h)
