-- ===== src/Ledger/Sync/Run.antt =====
-- src/domain/ledger/usecases/sync-ledger.usecase.ts, `execute`: the connection state and the lines
-- around the loop.
use offchain_service.Base.{
  ℕ, ◌==◌, Option, none, some, List, [], ◌∷◌, ◌++◌, if◌then◌else◌, Result, ok, err,
}
use offchain_service.Base.Numbers.{Numbers}
use offchain_service.Ledger.Entry.{JournalEntry, compare}
use offchain_service.Ledger.Sync.{LedgerRows, SyncPorts, sync_balances}

-- The lines that the use case logs.
pub data LogLine : Type 0 where
  api_back_up journal_not_responding sort_failed balances_not_responding : LogLine
  transfers_captured : ℕ → LogLine

abbrev back_up_line : Option ℕ → List LogLine
back_up_line none = []
back_up_line (some _) = api_back_up ∷ []

-- `if (creditAndDebitCount) …`, with the count that the line halves
abbrev captured_line : ℕ → List LogLine
captured_line m = if m == 0 then [] else transfers_captured m ∷ []

-- What `execute` leaves: the field `disconnected`, the rows and the lines.
pub record SyncOutcome (F : Type 0) : Type 0 where
  pub disconnected : Option ℕ
  pub rows : LedgerRows F
  pub log : List LogLine

module _ (n : Numbers) (ports : SyncPorts n) (now : ℕ) where
  open n use {F}

  -- The third `try`: the balances, with nothing disconnected before.
  abbrev finish_sync : List LogLine → LedgerRows F × Result ℕ → SyncOutcome F
  finish_sync log (rows, ok m) = record {
    disconnected = none;
    rows = rows;
    log = log ++ captured_line m;
  }
  finish_sync log (rows, err _) = record {
    disconnected = some now;
    rows = rows;
    log = log ++ balances_not_responding ∷ [];
  }

  -- `execute` on what `fetchJournalEvents` ends with. After a second failure in a row the list is
  -- undefined, and the call of its `sort` is what fails.
  unfoldable pub execute : Option ℕ → Result (List (JournalEntry F)) → LedgerRows F → SyncOutcome F
  execute none (err _) rows = record {
    disconnected = some now;
    rows = rows;
    log = journal_not_responding ∷ [];
  }
  execute (some since) (err _) rows = record {
    disconnected = some since;
    rows = rows;
    log = sort_failed ∷ [];
  }
  execute disconnected (ok []) rows = record {
    disconnected = none;
    rows = rows;
    log = back_up_line disconnected;
  }
  execute disconnected (ok (e ∷ es)) rows =
      finish_sync (back_up_line disconnected)
        (sync_balances n ports 0 (ports.sort compare (e ∷ es)) rows)
