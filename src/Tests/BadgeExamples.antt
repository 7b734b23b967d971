-- ===== src/Tests/BadgeExamples.antt =====
-- The properties of signatures at a wallet with a signature on another chain.
use offchain_service.Base.{◌≡◌, true, some, is_some, [], ◌∷◌, codes, ok, arith}
use offchain_service.Badges.{MintRequest, Mints, BadgePorts}
use offchain_service.Badges.Signatures.{sign_mint}
use offchain_service.Badges.Signatures.Rested.{Signs}
use offchain_service.Badges.Signatures.Ends.{sign_mint-Signs}
use offchain_service.Badges.Signatures.Ended.{sign_mint-IsEnded}
use offchain_service.Tests.Sorting.{by_due, by_due-Sorts}

abbrev badge_ports : BadgePorts
badge_ports = record {
  environment = record { node_env = codes "production"; allow_debug_prod = true };
  now = 5000000;
  up = λ _. true;
  eligibility = λ _ _ _. ok (some 1);
  order_by_due = by_due;
  hash = λ t. t;
  sign = λ _ _. ok (record { signature = codes "s"; nonce = codes "n" });
}

abbrev request : MintRequest
request = record {
  crypto_wallet = codes "0x00000000000000000000000000000000000000aA";
  reference_metadata_id = 7;
  chain_id = 137;
  client_ip = codes "10.0.0.1";
  client_agent = codes "agent";
}

-- The table has a signature on another chain that is not due.
abbrev mints : Mints
mints = record {
  rows =
      record {
        reference_metadata_id = 7;
        crypto_wallet = codes "0x00000000000000000000000000000000000000aA";
        amount = 1;
        valid = true;
        description = [];
        client_ip = [];
        client_agent = [];
        due_date = some 5400000;
        chain_id = 1;
      }
      ∷ [];
  calls = 0;
}

sign_mint-Signs_example : Signs badge_ports request mints (sign_mint badge_ports 2 request mints)
sign_mint-Signs_example = sign_mint-Signs badge_ports request by_due-Sorts 2 mints

sign_mint-IsEnded_example : is_some (sign_mint badge_ports 2 request mints).1 ≡ true
sign_mint-IsEnded_example =
    sign_mint-IsEnded badge_ports request (λ earlier later a b le e f g. ground arith) 0 mints
