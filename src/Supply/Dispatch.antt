-- ===== src/Supply/Dispatch.antt =====
-- src/domain/supply/usecases/dispatch-supply.usecase.ts: a paid order is settled by a claim of its
-- wallet, or by a lock for its e-mail address. The two branches make the same calls of two sets of
-- ports; `Way` says which. Log lines are left out, the chain that they construct is not.
pub mod Laws
pub mod Kept
use offchain_service.Base.{ℕ, Option, none, some, List, [], ◌∷◌, Text, Result, ok, err}
use offchain_service.Base.Results.{invalid_identifier_type}
use offchain_service.Common.Chain.{NetworkType, Environment, new_chain}
use offchain_service.Price.Calculus.{CurrencyAmount}
use offchain_service.Order.{
  Order, UserIdentifier, email, crypto_wallet, unknown_identifier, locked, claimed, set_status,
}
use offchain_service.Ledger.Sync.{Encryption}

pub data Way : Type 0 where
  claiming locking : Way

-- `ClaimSupplyDto` and `LockSupplyDto`; a lock has no address.
pub record Payload : Type 0 where
  pub onchain_address : Option Text
  pub amount : CurrencyAmount
  pub nonce : ℕ
  pub chain : NetworkType

-- `Claim` and `LockEntity`, with the on-chain or the off-chain address.
pub record SupplyRow : Type 0 where
  pub payment_id : Text
  pub order_id : Text
  pub address : Text
  pub uint256_amount : ℕ
  pub created_at : ℕ
  pub transaction_hash : Option Text

-- What is read of `OnChainReceipt`.
pub record Receipt : Type 0 where
  pub transaction_hash : Text
  pub chain_id : ℕ

-- The payment that comes with the order, as far as it is read.
pub record PaidBy : Type 0 where
  pub id : Text
  pub sequence : ℕ
  pub order_id : Text

pub record DispatchPorts : Type 0 where
  pub environment : Environment
  pub encryption : Encryption
  pub cbc_key : Text
  pub now : ℕ
  pub verify : Way → Payload → Result (Unit {0})
  pub create : Way → SupplyRow → Result SupplyRow
  pub send : Way → Payload → Result Receipt  -- `claim` and `lock`
  pub create_receipt : Receipt → Text → Result (Unit {0})
  pub update : Way → SupplyRow → Result (Unit {0})

-- The calls of the ports, in the order in which they are made.
pub data Call : Type 0 where
  verifying creating sending storing_receipt updating : Call

-- A call, and what follows it unless it throws.
abbrev pub attempt {ℓ κ} :
    {A : Type ℓ} {B : Type κ} → Call → Result A → (A → List Call × Result B) → List Call × Result B
attempt c (err k) next = (c ∷ [], err k)
attempt c (ok a) next = let (calls, r) = next a in (c ∷ calls, r)

module _ (ports : DispatchPorts) where
  open ports use {
    environment, encryption, cbc_key, now, verify, create, send, create_receipt, update,
  }

  -- The calls of one branch.
  unfoldable pub settle : Way → Payload → SupplyRow → List Call × Result Receipt
  settle way payload row = attempt verifying (verify way payload) λ _.
      attempt creating (create way row) λ created. attempt sending (send way payload) λ receipt.
        attempt storing_receipt (create_receipt receipt row.order_id) λ _.
          attempt updating
            (update way (record created { transaction_hash = some receipt.transaction_hash }))
            λ _. ([], ok receipt)

  -- `decrypt(…).catch(…)`
  abbrev pub or_encrypted : Text → Result Text → Text
  or_encrypted identifier (ok t) = t
  or_encrypted identifier (err _) = identifier

  abbrev pub after_claim :
      {F : Type 0} → Order F → List Call × Result Receipt → List Call × Order F × Result Receipt
  after_claim o (calls, err k) = (calls, o, err k)
  after_claim o (calls, ok receipt) = elim (new_chain environment receipt.chain_id) [
    | err k ↦ (calls, o, err k)
    | ok _ ↦ (calls, set_status claimed o, ok receipt)
  ]

  abbrev pub after_lock :
      {F : Type 0} → Order F → List Call × Result Receipt → List Call × Order F × Result Receipt
  after_lock o (calls, err k) = (calls, o, err k)
  after_lock o (calls, ok receipt) = elim (new_chain environment receipt.chain_id) [
    | err k ↦ (calls, set_status locked o, err k)
    | ok _ ↦ (calls, set_status locked o, ok receipt)
  ]

  abbrev pub new_row : {F : Type 0} → Order F → PaidBy → SupplyRow
  new_row o payment = record {
    payment_id = payment.id;
    order_id = o.id;
    address = o.user_identifier;
    uint256_amount = o.amount_of_tokens.unassigned_number;
    created_at = now;
    transaction_hash = none;
  }

  abbrev pub by_type :
      {F : Type 0}
      → UserIdentifier
      → Order F
      → PaidBy
      → NetworkType
      → List Call × Order F × Result Receipt
  by_type crypto_wallet o payment chain = after_claim o (
      settle claiming
        (record {
          onchain_address =
              some (
                or_encrypted o.user_identifier (encryption.decrypt o.user_identifier o.id cbc_key));
          amount = o.amount_of_tokens;
          nonce = payment.sequence;
          chain = chain;
        })
        (new_row o payment))
  by_type email o payment chain = after_lock o (
      settle locking
        (record {
          onchain_address = none;
          amount = o.amount_of_tokens;
          nonce = payment.sequence;
          chain = chain;
        })
        (new_row o payment))
  by_type unknown_identifier o payment chain = ([], o, err invalid_identifier_type)

  abbrev pub on_chain :
      {F : Type 0} → Result NetworkType → Order F → PaidBy → List Call × Order F × Result Receipt
  on_chain (err k) o payment = ([], o, err k)
  on_chain (ok chain) o payment = by_type o.identifier_type o payment chain

  -- `execute`: the calls, the order in memory and the result.
  unfoldable pub execute : {F : Type 0} → Order F → PaidBy → List Call × Order F × Result Receipt
  unfolding settle
  execute o payment = on_chain (new_chain environment o.desired_chain_id) o payment
