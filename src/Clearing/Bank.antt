-- ===== src/Clearing/Bank.antt =====
-- src/infrastructure/adapters/apis/statement/fetchable-statement.adapter.ts: the pages of the bank's
-- statement. The token, the request and the calendar are parameters.
use offchain_service.Base.{
  ℕ, ◌+◌, ◌-◌, Bool, Option, none, some, List, [], ◌∷◌, map, if◌then◌else◌, ltb, Text, Result, ok,
  err, ◌>>=◌,
}
use offchain_service.Base.Results.{range_error}
use offchain_service.Clearing.Entities.{Clearing, Transaction, Statement}

-- What a call of the bank ends with: the message that it throws, or its value.
pub data Answer {ℓ} (Value : Type ℓ) : Type ℓ where
  thrown : (message : Text) → Answer Value
  answered : (value : Value) → Answer Value

-- `StatementParameter`
pub record StatementParameter : Type 0 where
  pub target : Text
  pub offset : Text

-- `StatementTransaction`; the `detalhes` hold the identifiers, and what is missing is empty.
pub record StatementTransaction : Type 0 where
  pub id_transacao : Text
  pub tx_id : Text
  pub end_to_end_id : Text
  pub valor : Text
  pub data_inclusao : Text
  pub data_transacao : Text

-- `PagedStatementDto`
pub record PagedStatement : Type 0 where
  pub total_paginas : ℕ
  pub total_elementos : ℕ
  pub ultima_pagina : Bool
  pub transacoes : Option (List StatementTransaction)

-- The provider's page for a number and two dates, with the token; the clock, `Date.parse`,
-- `toISOString` up to its `T`, and the time one month before.
pub record BankPorts : Type 0 where
  pub request : ℕ → Text → Text → Answer PagedStatement
  pub clock : ℕ
  pub parse_date : Text → Option ℕ
  pub date_of : ℕ → Text
  pub one_month_before : ℕ → ℕ

-- `new Transaction(...)`
abbrev parse_transaction : StatementTransaction → Transaction
parse_transaction t = record {
  provider_payment_id = t.id_transacao;
  end_to_end_id = t.tx_id;
  provider_payment_end_to_end_id = t.end_to_end_id;
  value = t.valor;
  provider_timestamp = t.data_inclusao;
  effective_date = t.data_transacao;
}

abbrev parse_transactions : Option (List StatementTransaction) → Option (List Transaction)
parse_transactions none = none
parse_transactions (some ts) = some (map parse_transaction ts)

-- `parseStatementPage`
abbrev pub parse_statement_page : ℕ → Text → Text → PagedStatement → Statement
parse_statement_page page target offset p = record {
  current_page = page;
  total_pages = p.total_paginas;
  total_statement_entries = p.total_elementos;
  last_page = p.ultima_pagina;
  target = target;
  offset = offset;
  transactions = parse_transactions p.transacoes;
}

abbrev pub parsed : ℕ → Text → Text → Answer PagedStatement → Answer Statement
parsed page target offset (thrown m) = thrown m
parsed page target offset (answered p) = answered (parse_statement_page page target offset p)

-- `DEFAULT_START_OFFSET_MS`, and three days
abbrev default_start_offset_ms : ℕ
default_start_offset_ms = 10800000

abbrev three_days_ms : ℕ
three_days_ms = 259200000

module _ (bank : BankPorts) where
  open bank use {request, clock, parse_date, date_of, one_month_before}

  -- `fetch`
  abbrev pub fetch : StatementParameter → Answer Statement
  fetch p = parsed 0 p.target p.offset (request 0 p.target p.offset)

  -- `fetchNext`
  abbrev pub fetch_next : Statement → Answer Statement
  fetch_next s =
      let next = s.current_page + 1 in
      parsed next s.target s.offset (request next s.target s.offset)

  -- `Date.parse`, whose `NaN` has no ISO form.
  abbrev parsed_date : Option ℕ → Result ℕ
  parsed_date none = err range_error
  parsed_date (some t) = ok t

  -- The time that the last offset gives; an empty one counts as none.
  abbrev pub start_of : {F : Type 0} → Option (Clearing F) → Result ℕ
  start_of none = ok (clock - default_start_offset_ms)
  start_of (some c) = elim c.offset [
    | [] ↦ ok (clock - default_start_offset_ms)
    | x ∷ xs ↦ parsed_date (parse_date (x ∷ xs))
  ]

  abbrev not_before : ℕ → ℕ → ℕ
  not_before bound t = if ltb t bound then bound else t

  -- `getStatementParameter`
  unfoldable pub get_statement_parameter :
      {F : Type 0} → Option (Clearing F) → Result StatementParameter
  get_statement_parameter last = start_of last >>= λ start. ok (record {
    target = date_of (not_before (one_month_before clock) (start - three_days_ms));
    offset = date_of (clock + default_start_offset_ms);
  })
