-- ===== src/Tests/ChallengeExamples.antt =====
-- The properties of challenges and answers at one locked order.
use offchain_service.Base.{ℕ, true, some, [], ◌∷◌, codes, ok, arith}
use offchain_service.Order.{Order, challenged}
use offchain_service.Supply.Claiming.{Entry, no_attempts}
use offchain_service.Supply.Claiming.Challenges.{Claims}
use offchain_service.Supply.Claiming.Steps.{ClaimPorts}
use offchain_service.Supply.Claiming.Answers.{execute_challenge, validate_answer}
use offchain_service.Supply.Claiming.Challenges.Active.{OneActive}
use offchain_service.Supply.Claiming.Answers.Active.{execute_challenge-OneActive}
use offchain_service.Supply.Claiming.Answers.Authorised.{IsSafe, validate_answer-IsSafe}
use offchain_service.Tests.Instances.{numbers, plain}
use offchain_service.Tests.Data.{order, tables}

abbrev entry : Entry
entry = record {
  client_agent = codes "agent";
  client_ip = codes "10.0.0.1";
  email_address = codes "A@b.c";
  code = some (codes "A1B2C3");
  crypto_wallet = some (codes "0x00000000000000000000000000000000000000aA");
}

-- Its number of tokens is the length of `0.00000000`, as a unary text is read.
abbrev locked_order : Order ℕ
locked_order = record order {
  user_identifier = codes "A@b.c";
  status = some challenged;
  total_knn = 10;
  payment_count = some 1;
  payment_sequence = some 1;
  payment_provider_id = some (codes "p1");
  lock_transaction_hash = some (codes "h1");
  total_locked_uint256 = some 6;
}

abbrev claim_ports : ClaimPorts ℕ
claim_ports = record {
  up = λ _. true;
  now = 200;
  fetch_locked = λ statuses t. (codes "o1", locked_order) ∷ [];
  hash = λ t. t;
  identity_secret = codes "s";
  cipher = plain;
  cbc_key = codes "k";
  one_time_password = codes "A1B2C3";
  is_mailed = true;
  delegate_claim_locked = λ e o. ok (some (codes "signature"));
  estimate_claim_locked = λ e o s. ok tt;
}

abbrev no_claims : Claims ℕ
no_claims = record {
  attempts = no_attempts;
  challenges = [];
  answers = [];
  next_challenge = 1;
  next_answer = 1;
  tables = tables;
  mails = [];
}

no_challenges : OneActive no_claims
no_challenges hash = omega arith

execute_challenge-OneActive_example :
    OneActive (execute_challenge numbers claim_ports entry no_claims).0
execute_challenge-OneActive_example =
    execute_challenge-OneActive numbers claim_ports entry no_claims no_challenges

abbrev challenged_claims : Claims ℕ
challenged_claims = (execute_challenge numbers claim_ports entry no_claims).0

validate_answer-IsSafe_example :
    IsSafe numbers claim_ports entry challenged_claims
      (validate_answer numbers claim_ports entry challenged_claims)
validate_answer-IsSafe_example = validate_answer-IsSafe numbers claim_ports entry challenged_claims
