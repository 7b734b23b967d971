-- ===== src/Clearing/Database.antt =====
-- The rows that clearing reads and writes: the tables `payment`, with its unique indexes, and
-- `order_status_transition`, and the columns of `order` that change, by the adapters under
-- src/infrastructure/repositories/offchain. A call fails where the database does not answer.
pub mod Laws
use offchain_service.Base.{
  ℕ, ◌+◌, Bool, true, false, ◌||◌, Option, none, some, List, [], ◌∷◌, ◌++◌, any, if◌then◌else◌,
  Text, text_eq, Result, ok, err,
}
use offchain_service.Base.Dict.{Dict, lookup, insert}
use offchain_service.Base.Results.{database_failed, unique_violation}
use offchain_service.Price.Calculus.{CurrencyAmount}
use offchain_service.Order.{Order, OrderStatus}
use offchain_service.Clearing.Entities.{Payment}

-- The reasons that the use cases give for a transition.
pub data Reason : Type 0 where
  paid_after_expiration : Reason
  streamed : (sequence : ℕ) → (clearing_id : Text) → (provider_id : Text) → Reason
  challenged_at : (client_ip : Text) → (challenge_id : ℕ) → Reason
  answered_at : (challenge_id : ℕ) → (client_ip : Text) → (answer_id : ℕ) → Reason
  expired_by_system : Reason
  settled : (sequence : ℕ) → (payment_id : Text) → (transaction_hash : Text) → Reason

-- `order_status_transition`
pub record Transition : Type 0 where
  pub order_id : Text
  pub from_status : Option OrderStatus
  pub to_status : Option OrderStatus
  pub reason : Reason

-- The columns that `refresh` writes.
pub record StoredAmounts (F : Type 0) : Type 0 where
  pub total : F
  pub amount_of_tokens : CurrencyAmount
  pub total_gas : F
  pub total_net : F
  pub total_knn : F

pub record Tables (F : Type 0) : Type 0 where
  pub payments : List (Payment F)
  pub transitions : List Transition
  pub statuses : Dict (Option OrderStatus)
  pub amounts : Dict (StoredAmounts F)
  pub next_sequence : ℕ
  pub calls : ℕ  -- the calls made so far

abbrev joined {ℓ} : {A : Type ℓ} → Option (Option A) → Option A
joined none = none
joined (some o) = o

-- Whether a row holds the order or the provider's identifier already.
abbrev pub conflicts : {F : Type 0} → Payment F → Payment F → Bool
conflicts p row = text_eq row.order_id p.order_id || text_eq row.provider_id p.provider_id

-- The argument `up` says which calls the database answers.
module _ {F : Type 0} (up : ℕ → Bool) where
  abbrev called : Tables F → Tables F
  called t = record t { calls = t.calls + 1 }

  abbrev pub take_sequence : Tables F → Tables F
  take_sequence t = record t { next_sequence = t.next_sequence + 1 }

  abbrev pub numbered : Payment F → Tables F → Payment F
  numbered p t = record p { sequence = t.next_sequence }

  abbrev insert_payment : Payment F → Tables F → Tables F × Result (Payment F)
  insert_payment p t =
      if any (conflicts p) t.payments then (take_sequence t, err unique_violation) else (
        record (take_sequence t) { payments = t.payments ++ numbered p t ∷ [] },
        ok (numbered p t),
      )

  -- `PersistablePaymentPort.create`: the two unique indexes refuse a second payment. The
  -- sequence is drawn before the indexes are checked.
  unfoldable pub create_payment : Payment F → Tables F → Tables F × Result (Payment F)
  create_payment p t =
      if up t.calls then insert_payment p (called t) else (called t, err database_failed)

  abbrev insert_transition : Order F → Reason → Tables F → Tables F
  insert_transition o reason t = record t {
    transitions =
        t.transitions
        ++ record {
          order_id = o.id;
          from_status = joined (lookup o.id t.statuses);
          to_status = o.status;
          reason = reason;
        }
          ∷ [];
    statuses = insert o.id o.status t.statuses;
  }

  -- `PersistableOrderStatusTransitionPort.create`
  unfoldable pub create_transition : Order F → Reason → Tables F → Tables F × Result (Unit {0})
  create_transition o reason t =
      if up t.calls
      then (insert_transition o reason (called t), ok tt)
      else (called t, err database_failed)

  -- The `update` of `refresh`, whose text reads `total_net = :totalGas`.
  abbrev pub stored_amounts : Order F → StoredAmounts F
  stored_amounts o = record {
    total = o.total;
    amount_of_tokens = o.amount_of_tokens;
    total_gas = o.total_gas;
    total_net = o.total_gas;
    total_knn = o.total_knn;
  }

  -- `PersistableOrderPort.refresh`
  unfoldable pub refresh : Order F → Tables F → Tables F × Result (Unit {0})
  refresh o t =
      if up t.calls
      then (record (called t) { amounts = insert o.id (stored_amounts o) t.amounts }, ok tt)
      else (called t, err database_failed)
