-- ===== src/Tests/OrderExamples.antt =====
-- The properties of orders at an order of four reais.
use offchain_service.Base.{ℕ, ◌≡◌, ◌↔◌, refl, some, Text, ok}
use offchain_service.Base.Lists.{replicate}
use offchain_service.Order.{Order, create, check_bindings}
use offchain_service.Order.Lifecycle.{IsLoaded, check_bindings-create_iff}
use offchain_service.Tests.Instances.{numbers, unary}
use offchain_service.Tests.Data.{order}

abbrev encoder : Text → Text
encoder _ = replicate 25 b'Z'

abbrev created : Order ℕ
created = record order { end_to_end_id = some (encoder order.id) }

-- Its row, with the totals as unary texts.
abbrev row : Order Text
row = record {
  id = created.id;
  iso_code = created.iso_code;
  total = unary 4;
  total_gas = unary 1;
  total_net = unary 3;
  total_knn = unary 6;
  amount_of_tokens = created.amount_of_tokens;
  user_identifier = created.user_identifier;
  identifier_type = created.identifier_type;
  desired_chain_id = created.desired_chain_id;
  parent_id = created.parent_id;
  client_ip = created.client_ip;
  client_agent = created.client_agent;
  end_to_end_id = created.end_to_end_id;
  status = created.status;
  expires_at = created.expires_at;
  created_at = created.created_at;
  payment_count = created.payment_count;
  payment_sequence = created.payment_sequence;
  payment_provider_id = created.payment_provider_id;
  claim_transaction_hash = created.claim_transaction_hash;
  lock_transaction_hash = created.lock_transaction_hash;
  total_locked_uint256 = created.total_locked_uint256;
  contract_address = created.contract_address;
  settled_chain_id = created.settled_chain_id;
}

check_bindings-create_iff_example :
    ((x : Order ℕ) × (check_bindings encoder numbers row ≡ ok x) × IsLoaded encoder numbers row x)
    ↔ (row.end_to_end_id ≡ created.end_to_end_id)
unfolding create
check_bindings-create_iff_example = check_bindings-create_iff encoder numbers 2 order row refl refl
