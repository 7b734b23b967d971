-- ===== src/Tests/DispatchExamples.antt =====
-- The properties of the dispatch at an order of an e-mail address.
use offchain_service.Base.{true, codes, ok}
use offchain_service.Supply.Dispatch.{DispatchPorts, PaidBy, execute}
use offchain_service.Supply.Dispatch.Laws.{SendsVerified, execute-SendsVerified}
use offchain_service.Tests.Instances.{plain}
use offchain_service.Tests.Data.{order}

abbrev pub dispatch_ports : DispatchPorts
dispatch_ports = record {
  environment = record { node_env = codes "production"; allow_debug_prod = true };
  encryption = plain;
  cbc_key = codes "k";
  now = 300;
  verify = λ _ _. ok tt;
  create = λ _ row. ok row;
  send = λ _ p. ok (record { transaction_hash = codes "x9"; chain_id = 137 });
  create_receipt = λ _ _. ok tt;
  update = λ _ _. ok tt;
}

abbrev pub paid_by : PaidBy
paid_by = record { id = codes "y1"; sequence = 1; order_id = codes "o1" }

execute-SendsVerified_example :
    SendsVerified dispatch_ports order paid_by (execute dispatch_ports order paid_by).0
execute-SendsVerified_example = execute-SendsVerified dispatch_ports order paid_by
