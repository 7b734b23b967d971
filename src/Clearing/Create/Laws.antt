-- ===== src/Clearing/Create/Laws.antt =====
-- One run of the clearing: the payments, the end of the run, and a bank that does not answer.
use offchain_service.Base.{
  ℕ, ◌≡◌, ◌⊎◌, inl, inr, refl, true, Option, none, some, [], Text, Bool-cases, Result, ok, err,
  arith,
}
use offchain_service.Base.Numbers.{Numbers}
use offchain_service.Base.Results.{type_error}
use offchain_service.Clearing.Entities.{Clearing, Statement, empty, get_hash}
use offchain_service.Clearing.Database.Laws.{IsUnique}
use offchain_service.Clearing.Bank.{
  Answer, thrown, answered, StatementParameter, fetch, get_statement_parameter,
}
use offchain_service.Clearing.Rows.{World, fetch_last, create, update, remove}
use offchain_service.Clearing.Pages.{CreatePorts, Run, process_statement}
use offchain_service.Clearing.Pages.Accounts.{IsSettledRun, process_statement-IsSettledRun}
use offchain_service.Clearing.Create.{
  is_rethrown, close, kept_from, is_empty, process_created, create_clearing, after_fetch,
  with_parameter, with_last, execute, is_not_changed, returning, begun,
}

-- No message gets as far as the row of the fault.
pub is_rethrown-ok : (m : Text) → (is_rethrown m ≡ ok true) ⊎ (is_rethrown m ≡ err type_error)
is_rethrown-ok m = ground arith

module _ (n : Numbers) (ports : CreatePorts n.F) where
  open n use {F}
  open ports.process use {up, now}

  -- The payments of an outcome are unique.
  abbrev pub KeepsUnique {ℓ} : {A : Type ℓ} → Option (World F × A) → Type 0
  KeepsUnique none = Unit
  KeepsUnique (some (w, r)) = IsUnique w.tables.payments

  returning-KeepsUnique :
      (c : Clearing F) (x : World F × Result (Unit {0}))
      → IsUnique x.0.tables.payments
      → KeepsUnique (some (returning n ports c x))
  returning-KeepsUnique c (w, ok _) u = u
  returning-KeepsUnique c (w, err e) u = u

  remove_payments :
      (c : Clearing F) (w : World F) → (remove up c w).0.tables.payments ≡ w.tables.payments
  unfolding remove
  remove_payments c w = ground arith

  update_payments :
      (c : Clearing F) (w : World F) → (update up c w).0.tables.payments ≡ w.tables.payments
  unfolding update
  update_payments c w = ground arith

  create_payments :
      (c : Clearing F) (w : World F) → (create up c w).0.tables.payments ≡ w.tables.payments
  unfolding create
  create_payments c w = ground arith

  fetch_last_payments : (w : World F) → (fetch_last up w).0.tables.payments ≡ w.tables.payments
  unfolding fetch_last
  fetch_last_payments w = ground arith

  create_IsUnique :
      (c : Clearing F) (w : World F)
      → IsUnique w.tables.payments
      → IsUnique (create up c w).0.tables.payments
  create_IsUnique c w u = rw (create_payments c w) u

  close-KeepsUnique :
      (w : World F) (r : Option (Run F)) → IsSettledRun r → KeepsUnique (close n ports w r)
  close-KeepsUnique w none h = tt
  close-KeepsUnique w (some r) ((u, _, _), _) =
      let w' = kept_from n ports r w in
      elim (Bool-cases (is_empty n ports r.clearing)) [
        | inl e ↦ rw e (
            returning-KeepsUnique r.clearing (remove up r.clearing w')
              (rw (remove_payments r.clearing w') u))
        | inr e ↦ rw e (
            returning-KeepsUnique r.clearing (update up r.clearing w')
              (rw (update_payments r.clearing w') u))
      ]

  -- A new clearing has counted nothing yet.
  abbrev IsFresh : Result (Clearing F) → Type 0
  IsFresh (err e) = Unit
  IsFresh (ok c) = c.total_entries ≡ none

  create-IsFresh :
      (c : Clearing F) (w : World F) → c.total_entries ≡ none → IsFresh (create up c w).1
  unfolding create
  create-IsFresh c w h = elim (Bool-cases (up w.tables.calls)) [ inl e ↦ rw e h | inr e ↦ rw e tt ]

  process_created-KeepsUnique :
      (fuel : ℕ) (s : Statement) (x : World F × Result (Clearing F))
      → IsUnique x.0.tables.payments
      → IsFresh x.1
      → KeepsUnique (process_created n ports fuel s x)
  process_created-KeepsUnique fuel s (w, err e) u f = u
  process_created-KeepsUnique fuel s (w, ok c) u f =
      let r : Run F = record { clearing = c; cache = w.cache; processed = []; tables = w.tables } in
      close-KeepsUnique w (process_statement n ports fuel s r)
        (process_statement-IsSettledRun n ports fuel s r (u, tt, inr (f, refl)))

  create_clearing-KeepsUnique :
      (fuel : ℕ) (p : StatementParameter) (s : Statement) (w : World F)
      → IsUnique w.tables.payments
      → KeepsUnique (create_clearing n ports fuel p s w)
  unfolding create_clearing
  create_clearing-KeepsUnique fuel p s w u =
      let c = begun n ports (get_hash n s) p empty in
      process_created-KeepsUnique fuel s (create up c w) (create_IsUnique c w u)
        (create-IsFresh c w refl)

  after_fetch-KeepsUnique :
      (fuel : ℕ) (p : StatementParameter) (last : Option (Clearing F)) (w : World F)
      (a : Answer Statement)
      → IsUnique w.tables.payments
      → KeepsUnique (after_fetch n ports fuel p last w a)
  after_fetch-KeepsUnique fuel p last w (thrown m) u = elim (is_rethrown-ok m) [
    | inl e ↦ rw e u
    | inr e ↦ rw e u
  ]
  after_fetch-KeepsUnique fuel p last w (answered s) u =
      elim (Bool-cases (is_not_changed n ports s last)) [
        | inl e ↦ rw e u
        | inr e ↦ rw e (create_clearing-KeepsUnique fuel p s (record w { disconnected = none }) u)
      ]

  with_parameter-KeepsUnique :
      (fuel : ℕ) (last : Option (Clearing F)) (w : World F) (p : Result StatementParameter)
      → IsUnique w.tables.payments
      → KeepsUnique (with_parameter n ports fuel last w p)
  with_parameter-KeepsUnique fuel last w (err e) u = u
  with_parameter-KeepsUnique fuel last w (ok p) u =
      after_fetch-KeepsUnique fuel p last w (fetch ports.bank p) u

  with_last-KeepsUnique :
      (fuel : ℕ) (x : World F × Result (Option (Clearing F)))
      → IsUnique x.0.tables.payments
      → KeepsUnique (with_last n ports fuel x)
  with_last-KeepsUnique fuel (w, err e) u = u
  with_last-KeepsUnique fuel (w, ok last) u =
      with_parameter-KeepsUnique fuel last w (get_statement_parameter ports.bank last) u

  pub execute-KeepsUnique :
      (fuel : ℕ) (w : World F) → IsUnique w.tables.payments → KeepsUnique (execute n ports fuel w)
  unfolding execute
  execute-KeepsUnique fuel w u =
      with_last-KeepsUnique fuel (fetch_last up w) (rw (fetch_last_payments w) u)
