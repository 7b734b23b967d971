-- ===== src/Tests/Data.antt =====
-- A transfer with its journal entries, an order with the transaction that pays it, and the tables
-- before.
use offchain_service.Base.{ℕ, zero, suc, Bool, true, false, none, some, [], ◌∷◌, codes, err}
use offchain_service.Base.Lists.{replicate}
use offchain_service.Base.Results.{port}
use offchain_service.Common.Chain.{ethereum, knn, brl}
use offchain_service.Price.Calculus.{CurrencyAmount}
use offchain_service.Ledger.Entry.{JournalEntry, debit, credit, movement, holder}
use offchain_service.Ledger.Balances.{Balance}
use offchain_service.Ledger.Sync.{LedgerRows}
use offchain_service.Order.{Order, requested, email}
use offchain_service.Clearing.Entities.{Transaction}
use offchain_service.Clearing.Database.{Tables}
use offchain_service.Clearing.Process.{ProcessPorts}
use offchain_service.Clearing.Schedule.{Task, Shared}

-- The credit of five units to the account `b`, and the debit of the account `a`.
abbrev pub credit_b : JournalEntry ℕ
credit_b = record {
  movement_type = credit;
  chain_id = ethereum;
  transaction_hash = codes "x1";
  log_index = 0;
  entry_type = movement;
  account = codes "b";
  account_group = holder;
  amount = 5;
  uint256amount = 5;
  entry_date = 100;
  iso_code = knn;
  block_number = 7;
  gas_used = 1;
  cumulative_gas_used = 1;
  effective_gas_price = 1;
}

abbrev pub debit_a : JournalEntry ℕ
debit_a = record credit_b { movement_type = debit; account = codes "a" }

abbrev pub balance_a : Balance ℕ
balance_a = record {
  account = codes "a";
  group = holder;
  total = 9;
  l1_total = 9;
  l2_total = 0;
  status = movement;
  nonce = 3;
  join_date = some 1;
  exit_date = none;
  last_journal_entry_date = 2;
  last_journal_movement_type = credit;
  last_journal_entry_amount = 9;
  last_journal_entry_chain_id = ethereum;
  checksum = [];
  uint256total = 9;
}

abbrev pub no_rows : LedgerRows ℕ
no_rows = record { balances = []; journal = [] }

abbrev pub tokens : CurrencyAmount
tokens = record { unassigned_number = 6; decimals = 18; iso_code = knn }

-- A requested order of four reais, and the transaction that pays it.
abbrev pub order : Order ℕ
order = record {
  id = codes "o1";
  iso_code = brl;
  total = 4;
  total_gas = 1;
  total_net = 3;
  total_knn = 6;
  amount_of_tokens = tokens;
  user_identifier = codes "u";
  identifier_type = email;
  desired_chain_id = 137;
  parent_id = none;
  client_ip = none;
  client_agent = none;
  end_to_end_id = none;
  status = some requested;
  expires_at = some 500;
  created_at = 100;
  payment_count = none;
  payment_sequence = none;
  payment_provider_id = none;
  claim_transaction_hash = none;
  lock_transaction_hash = none;
  total_locked_uint256 = none;
  contract_address = none;
  settled_chain_id = none;
}

abbrev pub transaction : Transaction
transaction = record {
  provider_payment_id = codes "p1";
  end_to_end_id = codes "e1";
  provider_payment_end_to_end_id = codes "E1";
  value = replicate 4 b'1';
  provider_timestamp = codes "t";
  effective_date = codes "d";
}

abbrev pub tables : Tables ℕ
tables = record {
  payments = [];
  transitions = [];
  statuses = [];
  amounts = [];
  next_sequence = 1;
  calls = 0;
}

-- A database that always answers, and one that answers once.
abbrev pub ports : ProcessPorts
ports = record { up = λ _. true; quote = λ _ _ _. err (port 0); now = 200 }

abbrev answers_once : ℕ → Bool
answers_once zero = true
answers_once (suc _) = false

abbrev pub failing_ports : ProcessPorts
failing_ports = record ports { up = answers_once }

-- Two transactions for the one order.
abbrev pub task : Task ℕ
task = record { transaction = transaction; phase = none; returned = false }

abbrev pub second_task : Task ℕ
second_task = record task { transaction = record transaction { provider_payment_id = codes "p2" } }

abbrev pub shared : Shared ℕ
shared = record { cache = []; orders = (codes "e1", order) ∷ []; processed = []; tables = tables }
