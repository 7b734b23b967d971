-- ===== src/Tests/StatementExamples.antt =====
-- The properties of a run of the clearing at a statement of one page, which names the order twice.
use offchain_service.Base.{
  ℕ, ◌≤◌, ◌≡◌, inr, refl, true, Option, none, some, List, [], ◌∷◌, codes, Text, Result, ok, arith,
}
use offchain_service.Base.Lists.{replicate}
use offchain_service.Clearing.Entities.{Clearing, Statement, Transaction, empty}
use offchain_service.Clearing.Database.Laws.{IsUnique}
use offchain_service.Clearing.Bank.{
  thrown, answered, PagedStatement, StatementTransaction, BankPorts,
}
use offchain_service.Clearing.Rows.{World}
use offchain_service.Clearing.Pages.{CreatePorts, Run, process_page, process_statement}
use offchain_service.Clearing.Pages.Accounts.{Accounted, StatusFits, process_statement-accounts}
use offchain_service.Clearing.Pages.Seen.{process_page-repeated}
use offchain_service.Clearing.Create.{execute}
use offchain_service.Clearing.Create.Ends.{LeavesNothing, execute-paid_once, execute-LeavesNothing}
use offchain_service.Tests.Instances.{numbers}
use offchain_service.Tests.Data.{order, transaction, tables, ports}

abbrev end_to_end_id : Text
end_to_end_id = replicate 24 b'e'

abbrev paid_twice : Text → StatementTransaction
paid_twice id = record {
  id_transacao = id;
  tx_id = end_to_end_id;
  end_to_end_id = codes "E1";
  valor = replicate 4 b'1';
  data_inclusao = codes "t";
  data_transacao = codes "d";
}

abbrev page : PagedStatement
page = record {
  total_paginas = 1;
  total_elementos = 2;
  ultima_pagina = true;
  transacoes = some (paid_twice (codes "p1") ∷ paid_twice (codes "p2") ∷ []);
}

abbrev bank : BankPorts
bank = record {
  request = λ k target offset. answered page;
  clock = 200;
  parse_date = λ t. some 100;
  date_of = λ t. codes "d";
  one_month_before = λ t. 0;
}

abbrev silent_bank : BankPorts
silent_bank = record bank { request = λ k target offset. thrown (codes "Unexpected token <") }

abbrev create_ports : CreatePorts ℕ
create_ports = record {
  process = ports;
  bank = bank;
  fetch_many_by_end_id = λ ids t. ok ((end_to_end_id, order) ∷ []);
  new_id = codes "c1";
  schedule = λ k. 1 ∷ 0 ∷ 1 ∷ 0 ∷ [];
}

abbrev world : World ℕ
world = record { clearings = []; tables = tables; cache = []; disconnected = none }

-- The bank announces one page.
one_page :
    (k : ℕ) (target offset : Text) (p : PagedStatement)
    → create_ports.bank.request k target offset ≡ answered p
    → p.total_paginas ≤ 1
one_page k target offset p h = ground arith

execute-paid_once_example :
    (w : World ℕ) × (r : Result (Option (Clearing ℕ))) × (execute numbers create_ports 2 world
      ≡ some (w, r))
    × IsUnique w.tables.payments
execute-paid_once_example =
    execute-paid_once numbers create_ports 1 one_page 2 world (omega arith) tt

-- The bank's message is not one of the two that are thrown on.
execute-LeavesNothing_example :
    LeavesNothing numbers
      (record create_ports { bank = silent_bank })
      world
      (execute numbers (record create_ports { bank = silent_bank }) 2 world)
execute-LeavesNothing_example =
    execute-LeavesNothing numbers (record create_ports { bank = silent_bank }) 2 world
      (codes "Unexpected token <") (λ target offset. refl)

abbrev clearing : Clearing ℕ
clearing = record {
  id = codes "c1";
  hash = codes "h";
  target = codes "d";
  offset = codes "d";
  created_at = 200;
  status = empty;
  ended_at = none;
  duration_ms = none;
  total_entries = none;
  total_amount = none;
}

abbrev first_run : Run ℕ
first_run = record { clearing = clearing; cache = []; processed = []; tables = tables }

abbrev transactions : List Transaction
transactions =
    record transaction { end_to_end_id = end_to_end_id }
    ∷ record transaction { end_to_end_id = end_to_end_id; provider_payment_id = codes "p2" }
    ∷ []

abbrev statement : Statement
statement = record {
  current_page = 0;
  total_pages = 1;
  total_statement_entries = 2;
  last_page = true;
  target = codes "d";
  offset = codes "d";
  transactions = some transactions;
}

process_statement-accounts_example :
    (r : Run ℕ) × (process_statement numbers create_ports 2 statement first_run ≡ some r)
    × Accounted r
    × StatusFits r
process_statement-accounts_example =
    process_statement-accounts numbers create_ports 1 one_page 2 statement first_run (omega arith)
      (tt, tt, inr (refl, refl))

process_page-repeated_example :
    let first =
      process_page numbers create_ports 0 transactions first_run ((end_to_end_id, order) ∷ []) in
    let second = process_page numbers create_ports 1 transactions first [] in
    (second.cache ≡ first.cache)
    × (second.processed ≡ first.processed)
    × (second.tables ≡ first.tables)
process_page-repeated_example =
    process_page-repeated numbers create_ports 0 1 transactions first_run
      ((end_to_end_id, order) ∷ []) []
