-- ===== src/Clearing/Entities.antt =====
-- src/domain/clearing/entities/clearing.entity.ts, the value objects, and
-- src/domain/payment/entities/payment.entity.ts.
use offchain_service.Base.{ℕ, ◌-◌, Bool, Option, some, List, [], ◌∷◌, ◌++◌, Text, length}
use offchain_service.Base.Dict.{Dict}
use offchain_service.Base.Numbers.{Numbers}
use offchain_service.Order.{Order}

-- `enum ClearingStatus`
pub data ClearingStatus : Type 0 where
  empty faulted ran_to_completion : ClearingStatus

-- `ClearingProps`
pub record Clearing (F : Type 0) : Type 0 where
  pub id : Text
  pub hash : Text
  pub target : Text
  pub offset : Text
  pub created_at : ℕ
  pub status : ClearingStatus
  pub ended_at : Option ℕ
  pub duration_ms : Option ℕ
  pub total_entries : Option ℕ
  pub total_amount : Option F

-- `Transaction`
pub record Transaction : Type 0 where
  pub provider_payment_id : Text
  pub end_to_end_id : Text
  pub provider_payment_end_to_end_id : Text
  pub value : Text
  pub provider_timestamp : Text
  pub effective_date : Text

-- `PaymentProps`, with the sequence that the table gives.
pub record Payment (F : Type 0) : Type 0 where
  pub order_id : Text
  pub clearing_id : Text
  pub provider_id : Text
  pub provider_end_to_end_id : Text
  pub provider_timestamp : Text
  pub effective_date : Text
  pub total : F
  pub sequence : ℕ

-- `Statement`
pub record Statement : Type 0 where
  pub current_page : ℕ
  pub total_pages : ℕ
  pub total_statement_entries : ℕ
  pub last_page : Bool
  pub target : Text
  pub offset : Text
  pub transactions : Option (List Transaction)

-- `ConfirmationRecord`
pub record ConfirmationRecord (F : Type 0) : Type 0 where
  pub payment : Payment F
  pub order : Order F

module _ (n : Numbers) where
  open n use {F, of_ℕ, add, show_ℕ}

  -- `Statement.getHash`
  unfoldable pub get_hash : Statement → Text
  get_hash s =
      show_ℕ s.total_pages
      ++ b'|' ∷ show_ℕ s.total_statement_entries
      ++ b'|' ∷ s.target
      ++ b'|' ∷ s.offset

  -- The loop that adds up the orders' totals.
  abbrev pub sum_totals : F → Dict (ConfirmationRecord F) → F
  sum_totals acc [] = acc
  sum_totals acc ((_, r) ∷ d) = sum_totals (add acc r.order.total) d

  -- `Clearing.addPayments`
  unfoldable pub add_payments : ℕ → Dict (ConfirmationRecord F) → Clearing F → Clearing F
  add_payments now processed c = record c {
    total_entries = some (length processed);
    total_amount = some (sum_totals (of_ℕ 0) processed);
    ended_at = some now;
    duration_ms = some (now - c.created_at);
  }
