-- ===== src/Clearing/Rows.antt =====
-- src/infrastructure/repositories/offchain/clearing: the table `clearing`. The connection gives the
-- columns of a row in camel case (src/infrastructure/repositories/offchain/knex-postgres.config.ts),
-- which are the names of the properties, so the entity that is read back is the row. The decimal
-- column of the total is kept as the number that its text stands for.
use offchain_service.Base.{
  ℕ, ◌+◌, Bool, true, false, not, Option, none, some, List, [], ◌∷◌, ◌++◌, keep, if◌then◌else◌, ltb,
  text_eq, Result, ok, err,
}
use offchain_service.Base.Dict.{Dict}
use offchain_service.Base.Results.{database_failed}
use offchain_service.Clearing.Entities.{ClearingStatus, empty, faulted, ran_to_completion, Clearing}
use offchain_service.Clearing.Database.{Tables}

-- The database, and what the use case keeps between its runs: the cache and when the bank was lost.
pub record World (F : Type 0) : Type 0 where
  pub clearings : List (Clearing F)
  pub tables : Tables F
  pub cache : Dict Bool
  pub disconnected : Option ℕ

abbrev has_completed : ClearingStatus → Bool
has_completed ran_to_completion = true
has_completed empty = false
has_completed faulted = false

module _ {F : Type 0} where
  abbrev pub called : World F → World F
  called w = record w { tables = record w.tables { calls = w.tables.calls + 1 } }

  abbrev later : Clearing F → Option (Clearing F) → Option (Clearing F)
  later c none = some c
  later c (some d) = if ltb c.created_at d.created_at then some d else some c

  -- The latest row that ran to completion.
  abbrev pub latest : List (Clearing F) → Option (Clearing F)
  latest [] = none
  latest (c ∷ cs) = let rest = latest cs in if has_completed c.status then later c rest else rest

  abbrev pub replace : Clearing F → List (Clearing F) → List (Clearing F)
  replace c [] = []
  replace c (d ∷ ds) = let rest = replace c ds in if text_eq d.id c.id then c ∷ rest else d ∷ rest

module _ {F : Type 0} (up : ℕ → Bool) where
  -- `fetchLast`
  unfoldable pub fetch_last : World F → World F × Result (Option (Clearing F))
  fetch_last w =
      if up w.tables.calls
      then (called w, ok (latest w.clearings))
      else (called w, err database_failed)

  -- `create`
  unfoldable pub create : Clearing F → World F → World F × Result (Clearing F)
  create c w =
      if up w.tables.calls
      then (record (called w) { clearings = w.clearings ++ c ∷ [] }, ok c)
      else (called w, err database_failed)

  abbrev answered_or : World F → World F × Result (Unit {0})
  answered_or w = if up w.tables.calls then (called w, ok tt) else (called w, err database_failed)

  -- `update`: the row is written, then read.
  unfoldable pub update : Clearing F → World F → World F × Result (Unit {0})
  update c w =
      if up w.tables.calls
      then answered_or (record (called w) { clearings = replace c w.clearings })
      else (called w, err database_failed)

  -- `remove`
  unfoldable pub remove : Clearing F → World F → World F × Result (Unit {0})
  remove c w =
      if up w.tables.calls
      then (
        record (called w) { clearings = keep (λ d. not (text_eq d.id c.id)) w.clearings },
        ok tt,
      )
      else (called w, err database_failed)
