-- ===== src/Clearing/Create.antt =====
-- src/domain/clearing/usecases/create-clearing.usecase.ts: one run of `execute`. `console` and the
-- logger are not modelled.
pub mod Laws
pub mod Ends
use offchain_service.Base.{
  ℕ, Bool, true, false, ◌&&◌, ◌||◌, not, Option, none, some, List, [], ◌∷◌, length, if◌then◌else◌,
  ltb, ◌==◌, Text, codes, text_eq, Result, ok, err,
}
use offchain_service.Base.Dict.{Dict}
use offchain_service.Base.Results.{bank_failed, type_error}
use offchain_service.Base.Texts.{includes_text}
use offchain_service.Base.Numbers.{Numbers}
use offchain_service.Clearing.Entities.{
  ClearingStatus, empty, faulted, Clearing, Transaction, Statement, get_hash,
}
use offchain_service.Clearing.Bank.{
  Answer, thrown, answered, StatementParameter, fetch, get_statement_parameter,
}
use offchain_service.Clearing.Rows.{World, fetch_last, create, update, remove}
use offchain_service.Clearing.Pages.{CreatePorts, Run, process_statement}

-- `MAX_CACHED_KEYS`
abbrev pub max_cached_keys : ℕ
max_cached_keys = 2000

-- `resizeCache`
unfoldable pub resize_cache : Dict Bool → Dict Bool
resize_cache cache = if ltb max_cached_keys (length cache) then [] else cache

-- `String.prototype.includes` of a regular expression throws.
abbrev includes_pattern : Text → Result Bool
includes_pattern message = err type_error

-- The tests of the message, up to the first that holds.
abbrev pub is_rethrown : Text → Result Bool
is_rethrown message =
    if includes_text (codes "ETIMEDOUT") message || includes_text (codes "ECONNRE") message
    then ok true
    else includes_pattern message

abbrev lacks {ℓ} : {A : Type ℓ} → (A → Bool) → Option A → Bool
lacks p none = true
lacks p (some a) = p a

module _ (n : Numbers) (ports : CreatePorts n.F) where
  open n use {F, of_ℕ, eq}
  open ports use {process, bank, new_id}
  open process use {up, now}

  abbrev pub kept_from : Run F → World F → World F
  kept_from r w = record w { tables = r.tables; cache = resize_cache r.cache }

  abbrev is_falsy : F → Bool
  is_falsy x = eq x (of_ℕ 0) || not (eq x x)

  -- `deleteEmptyClearing`
  abbrev pub is_empty : Clearing F → Bool
  is_empty c = lacks is_falsy c.total_amount && lacks (λ k. k == 0) c.total_entries

  abbrev pub returning :
      Clearing F → World F × Result (Unit {0}) → World F × Result (Option (Clearing F))
  returning c (w, ok _) = (w, ok (some c))
  returning c (w, err e) = (w, err e)

  -- What follows `processStatement`.
  abbrev pub close : World F → Option (Run F) → Option (World F × Result (Option (Clearing F)))
  close w none = none
  close w (some r) =
      let w' = kept_from r w in
      some (
        returning r.clearing
          (if is_empty r.clearing then remove up r.clearing w' else update up r.clearing w'))

  abbrev pub begun : Text → StatementParameter → ClearingStatus → Clearing F
  begun hash p st = record {
    id = new_id;
    hash = hash;
    target = p.target;
    offset = p.offset;
    created_at = now;
    status = st;
    ended_at = none;
    duration_ms = none;
    total_entries = none;
    total_amount = none;
  }

  abbrev pub process_created :
      ℕ
      → Statement
      → World F × Result (Clearing F)
      → Option (World F × Result (Option (Clearing F)))
  process_created fuel s (w, err e) = some (w, err e)
  process_created fuel s (w, ok c) = close w (
      process_statement n ports fuel s
        (record { clearing = c; cache = w.cache; processed = []; tables = w.tables }))

  -- `createClearing`
  unfoldable pub create_clearing :
      ℕ → StatementParameter → Statement → World F → Option (World F × Result (Option (Clearing F)))
  unfolding process_statement
  create_clearing fuel p s w = process_created fuel s (create up (begun (get_hash n s) p empty) w)

  abbrev recorded : World F × Result (Clearing F) → World F × Result (Option (Clearing F))
  recorded (w, ok _) = (w, err bank_failed)
  recorded (w, err e) = (w, err e)

  abbrev pub record_fault :
      StatementParameter → World F → Result Bool → World F × Result (Option (Clearing F))
  record_fault p w (err e) = (w, err e)
  record_fault p w (ok true) = (w, err bank_failed)
  record_fault p w (ok false) = recorded (create up (begun [] p faulted) w)

  abbrev pub lost : Option ℕ → Option ℕ
  lost none = some now
  lost (some t) = some t

  abbrev has_same_hash : Statement → Option (Clearing F) → Bool
  has_same_hash s none = false
  has_same_hash s (some c) = text_eq (get_hash n s) c.hash

  abbrev has_no_transactions : Option (List Transaction) → Bool
  has_no_transactions none = true
  has_no_transactions (some []) = true
  has_no_transactions (some (_ ∷ _)) = false

  -- `notChanged`
  abbrev pub is_not_changed : Statement → Option (Clearing F) → Bool
  is_not_changed s last = has_same_hash s last || has_no_transactions s.transactions

  -- What follows the bank's answer.
  abbrev pub after_fetch :
      ℕ
      → StatementParameter
      → Option (Clearing F)
      → World F
      → Answer Statement
      → Option (World F × Result (Option (Clearing F)))
  after_fetch fuel p last w (thrown m) =
      some (record_fault p (record w { disconnected = lost w.disconnected }) (is_rethrown m))
  after_fetch fuel p last w (answered s) =
      let w' = record w { disconnected = none } in
      if is_not_changed s last then some (w', ok last) else create_clearing fuel p s w'

  abbrev pub with_parameter :
      ℕ
      → Option (Clearing F)
      → World F
      → Result StatementParameter
      → Option (World F × Result (Option (Clearing F)))
  with_parameter fuel last w (err e) = some (w, err e)
  with_parameter fuel last w (ok p) = after_fetch fuel p last w (fetch bank p)

  abbrev pub with_last :
      ℕ → World F × Result (Option (Clearing F)) → Option (World F × Result (Option (Clearing F)))
  with_last fuel (w, err e) = some (w, err e)
  with_last fuel (w, ok last) = with_parameter fuel last w (get_statement_parameter bank last)

  -- `execute`
  unfoldable pub execute : ℕ → World F → Option (World F × Result (Option (Clearing F)))
  unfolding create_clearing
  execute fuel w = with_last fuel (fetch_last up w)
