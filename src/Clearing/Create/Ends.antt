-- ===== src/Clearing/Create/Ends.antt =====
-- That a run of the clearing comes to its end, and what is left when the bank does not answer.
use offchain_service.Base.{
  ℕ, ◌<◌, ◌≡◌, inl, inr, refl, true, Option, none, some, [], Text, is_some, Bool-cases, Result, ok,
  err, arith,
}
use offchain_service.Base.Numbers.{Numbers}
use offchain_service.Clearing.Entities.{Clearing, Statement, empty, get_hash}
use offchain_service.Clearing.Database.Laws.{IsUnique}
use offchain_service.Clearing.Bank.{
  Answer, thrown, answered, StatementParameter, fetch, get_statement_parameter,
}
use offchain_service.Clearing.Rows.{World, called, fetch_last, create}
use offchain_service.Clearing.Pages.{CreatePorts, Run, process_statement}
use offchain_service.Clearing.Pages.Bounded.{Announces, process_statement-some}
use offchain_service.Clearing.Create.{
  close, process_created, create_clearing, after_fetch, with_parameter, with_last, execute,
  is_not_changed, begun,
}
use offchain_service.Clearing.Create.Laws.{is_rethrown-ok, KeepsUnique, execute-KeepsUnique}

module _ (n : Numbers) (ports : CreatePorts n.F) (m : ℕ) (bound : Announces m ports) where
  open n use {F}
  open ports.process use {up, now}

  close-some :
      (w : World F) (r : Option (Run F)) → is_some r ≡ true → is_some (close n ports w r) ≡ true
  close-some w none h = ground arith
  close-some w (some r) h = refl

  process_created-some :
      (fuel : ℕ) (s : Statement) (x : World F × Result (Clearing F))
      → m < fuel
      → is_some (process_created n ports fuel s x) ≡ true
  process_created-some fuel s (w, err e) l = refl
  process_created-some fuel s (w, ok c) l =
      let r : Run F = record { clearing = c; cache = w.cache; processed = []; tables = w.tables } in
      close-some w (process_statement n ports fuel s r)
        (process_statement-some n ports m bound fuel s r (omega (arith, l)) (omega (arith, l)))

  create_clearing-some :
      (fuel : ℕ) (p : StatementParameter) (s : Statement) (w : World F)
      → m < fuel
      → is_some (create_clearing n ports fuel p s w) ≡ true
  unfolding create_clearing
  create_clearing-some fuel p s w l =
      process_created-some fuel s (create up (begun n ports (get_hash n s) p empty) w) l

  after_fetch-some :
      (fuel : ℕ) (p : StatementParameter) (last : Option (Clearing F)) (w : World F)
      (a : Answer Statement)
      → m < fuel
      → is_some (after_fetch n ports fuel p last w a) ≡ true
  after_fetch-some fuel p last w (thrown t) l = refl
  after_fetch-some fuel p last w (answered s) l =
      elim (Bool-cases (is_not_changed n ports s last)) [
        | inl e ↦ rw e refl
        | inr e ↦ rw e (create_clearing-some fuel p s (record w { disconnected = none }) l)
      ]

  with_parameter-some :
      (fuel : ℕ) (last : Option (Clearing F)) (w : World F) (p : Result StatementParameter)
      → m < fuel
      → is_some (with_parameter n ports fuel last w p) ≡ true
  with_parameter-some fuel last w (err e) l = refl
  with_parameter-some fuel last w (ok p) l = after_fetch-some fuel p last w (fetch ports.bank p) l

  with_last-some :
      (fuel : ℕ) (x : World F × Result (Option (Clearing F)))
      → m < fuel
      → is_some (with_last n ports fuel x) ≡ true
  with_last-some fuel (w, err e) l = refl
  with_last-some fuel (w, ok last) l =
      with_parameter-some fuel last w (get_statement_parameter ports.bank last) l

  execute-some : (fuel : ℕ) (w : World F) → m < fuel → is_some (execute n ports fuel w) ≡ true
  unfolding execute
  execute-some fuel w l = with_last-some fuel (fetch_last up w) l

  ended-IsUnique :
      (x : Option (World F × Result (Option (Clearing F))))
      → is_some x ≡ true
      → KeepsUnique n ports x
      → (w : World F) × (r : Result (Option (Clearing F))) × (x ≡ some (w, r))
        × IsUnique w.tables.payments
  ended-IsUnique none h k = ground arith
  ended-IsUnique (some (w, r)) h k = (w, r, refl, k)

  -- Where the provider never announces more than so many pages, a run of the clearing with more fuel
  -- than that comes to its end, and the payments stay unique in order and in provider's identifier,
  -- whatever the bank, the database and the quotes answer, and in whatever order the transactions
  -- advance.
  pub execute-paid_once :
      (fuel : ℕ) (w : World F)
      → m < fuel
      → IsUnique w.tables.payments
      → (w' : World F) × (r : Result (Option (Clearing F))) × (execute n ports fuel w
          ≡ some (w', r))
        × IsUnique w'.tables.payments
  execute-paid_once fuel w l u =
      ended-IsUnique (execute n ports fuel w) (execute-some fuel w l)
        (execute-KeepsUnique n ports fuel w u)

module _ (n : Numbers) (ports : CreatePorts n.F) where
  open n use {F}
  open ports.process use {up, now}

  -- The run has thrown, and has left nothing in the database.
  abbrev pub LeavesNothing : World F → Option (World F × Result (Option (Clearing F))) → Type 0
  LeavesNothing w none = ⊥
  LeavesNothing w (some (w', ok c)) = ⊥
  LeavesNothing w (some (w', err e)) =
      (w'.clearings ≡ w.clearings) × (w'.tables ≡ (called w).tables)

  with_parameter-LeavesNothing :
      (fuel : ℕ) (last : Option (Clearing F)) (w : World F) (p : Result StatementParameter)
      (m : Text)
      → ((target offset : Text) → ports.bank.request 0 target offset ≡ thrown m)
      → LeavesNothing w (with_parameter n ports fuel last (called w) p)
  with_parameter-LeavesNothing fuel last w (err e) m down = (refl, refl)
  with_parameter-LeavesNothing fuel last w (ok p) m down = elim (is_rethrown-ok m) [
    | inl e ↦ rw (down, e) (refl, refl)
    | inr e ↦ rw (down, e) (refl, refl)
  ]

  -- Where the bank throws on the first page, whatever its message is, the run throws, and there is
  -- neither a row of a clearing for the fault nor any other change of the database.
  pub execute-LeavesNothing :
      (fuel : ℕ) (w : World F) (m : Text)
      → ((target offset : Text) → ports.bank.request 0 target offset ≡ thrown m)
      → LeavesNothing w (execute n ports fuel w)
  unfolding execute fetch_last
  execute-LeavesNothing fuel w m down = elim (Bool-cases (up w.tables.calls)) [
    | inl e ↦ rw e (with_parameter-LeavesNothing fuel _ w _ m down)
    | inr e ↦ rw e (refl, refl)
  ]
