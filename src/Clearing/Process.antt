-- ===== src/Clearing/Process.antt =====
-- src/domain/clearing/usecases/process-statement-transaction.usecase.ts: `execute` as the parts
-- between its `await`s. The order is the object in memory that the parts change.
pub mod Laws
use offchain_service.Base.{
  ℕ, zero, suc, Bool, true, false, ◌&&◌, not, Option, none, some, List, [], ◌∷◌, ◌++◌,
  if◌then◌else◌, leb, keep, Text, codes, text_eq, Error, Result, ok, err, ◌>>=◌,
}
use offchain_service.Base.Numbers.{Numbers}
use offchain_service.Common.Format.{format_decimals, decimal}
use offchain_service.Price.Calculus.{CurrencyAmount}
use offchain_service.Price.Request.{TransactionType, lock_supply, claim}
use offchain_service.Order.{
  Order, requested, expired, confirmed, UserIdentifier, email, crypto_wallet, unknown_identifier,
  has_payments, in_status, is_expired, set_status,
}
use offchain_service.Clearing.Entities.{Transaction, Payment}
use offchain_service.Clearing.Database.{
  Tables, Reason, paid_after_expiration, streamed, create_payment, create_transition, refresh,
}

-- The amounts of a fresh quote that are read.
pub record Refreshed : Type 0 where
  pub total_brl : CurrencyAmount
  pub gas_brl : CurrencyAmount
  pub net_brl : CurrencyAmount
  pub tokens : CurrencyAmount

-- The quote's interactor: the digits of the amount in BRL cents, the chain and the transaction type.
pub record ProcessPorts : Type 0 where
  pub up : ℕ → Bool
  pub quote : Text → ℕ → TransactionType → Result Refreshed
  pub now : ℕ

-- Where a call of `execute` stands: `late` and `quoting` keep the expected amount that the call
-- read at its start, and `finished` holds the payment of its confirmation record.
pub data Phase (F : Type 0) : Type 0 where
  start : Phase F
  late : Text → Phase F
  quoting : Text → Phase F
  refreshing : Phase F
  paying : Phase F
  paid : Payment F → Phase F
  confirming : Payment F → Phase F
  finished : Option (Payment F) → Phase F

-- `expectedAmount.replace(/\D/g, '')`
abbrev is_digit : ℕ → Bool
is_digit c = leb b'0' c && leb c b'9'

abbrev transaction_type : UserIdentifier → TransactionType
transaction_type email = lock_supply
transaction_type crypto_wallet = claim
transaction_type unknown_identifier = claim

module _ (n : Numbers) (ports : ProcessPorts) (clearing_id : Text) (x : Transaction) where
  open n use {F, read, to_fixed2}
  open ports use {up, quote, now}

  -- The tests up to the first `await`.
  unfoldable pub admit : Order F → Phase F × Order F
  admit o =
      if has_payments o
      then (finished none, o)
      else if not (text_eq (to_fixed2 o.total) x.value)
      then (finished none, o)
      else if not (in_status (requested ∷ expired ∷ []) o)
      then (finished none, o)
      else if is_expired now o
      then (late (to_fixed2 o.total), set_status expired o)
      else (paying, o)

  -- `Number(formatDecimals(amount.unassignedNumber, amount.decimals, { truncateDecimals }))`
  abbrev number_of : CurrencyAmount → ℕ → F
  number_of a places = read (format_decimals (decimal a.unassigned_number) a.decimals (some places))

  -- The order with the amounts of the fresh quote.
  unfoldable pub requote : Refreshed → Order F → Order F
  requote r o = record o {
    amount_of_tokens = r.tokens;
    total = number_of r.total_brl 2;
    total_gas = number_of r.gas_brl 2;
    total_net = number_of r.net_brl 2;
    total_knn = number_of r.tokens 8;
  }

  abbrev quoted : Result Refreshed → Order F → Phase F × Order F
  quoted (ok r) o = (refreshing, requote r o)
  quoted (err _) o = (finished none, o)

  -- The payment that is created; its total is `Number(amountPaid)`.
  unfoldable pub new_payment : Order F → Payment F
  new_payment o = record {
    order_id = o.id;
    clearing_id = clearing_id;
    provider_id = x.provider_payment_id;
    provider_end_to_end_id = x.provider_payment_end_to_end_id;
    provider_timestamp = x.provider_timestamp;
    effective_date = x.effective_date;
    total = read x.value;
    sequence = 0;
  }

  -- What a failed call ends in: the `catch` gives up the transaction.
  abbrev after {ℓ} : {A : Type ℓ} → (A → Phase F) → Result A → Phase F
  after next (ok a) = next a
  after next (err _) = finished none

  -- One part of `execute`.
  unfoldable pub advance : Phase F → Order F → Tables F → Phase F × Order F × Tables F
  unfolding admit requote
  advance start o t = let (p, o') = admit o in (p, o', t)
  advance (late expected) o t =
      let (t', r) = create_transition up o paid_after_expiration t in
      (after (λ _. quoting expected) r, o, t')
  advance (quoting expected) o t =
      let digits = keep is_digit expected in
      let (p, o') =
        quoted (quote digits o.desired_chain_id (transaction_type o.identifier_type)) o in
      (p, o', t)
  advance refreshing o t = let (t', r) = refresh up o t in (after (λ _. paying) r, o, t')
  advance paying o t = let (t', r) = create_payment up (new_payment o) t in (after paid r, o, t')
  advance (paid p) o t = (confirming p, set_status confirmed o, t)
  advance (confirming p) o t =
      let (t', r) =
        create_transition up o (streamed p.sequence clearing_id x.provider_payment_id) t in
      (after (λ _. finished (some p)) r, o, t')
  advance (finished r) o t = (finished r, o, t)

  -- The parts one after the other; `execute` has seven at most before it is finished.
  unfoldable pub run : ℕ → Phase F → Order F → Tables F → Phase F × Order F × Tables F
  unfolding advance
  run zero p o t = (p, o, t)
  run (suc k) p o t = let (p', o', t') = advance p o t in run k p' o' t'

  -- `execute`, with no other call in between.
  unfoldable pub execute : Order F → Tables F → Phase F × Order F × Tables F
  unfolding run
  execute o t = run 7 start o t
