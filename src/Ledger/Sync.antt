-- ===== src/Ledger/Sync.antt =====
-- src/domain/ledger/usecases/sync-ledger.usecase.ts, with the rows that the database adapters
-- src/infrastructure/repositories/offchain/ledger read and write.
pub mod Run
pub mod Journal
pub mod Checksum
pub mod Replay
pub mod Posted
pub mod Grouped
pub mod Refinement
use offchain_service.Base.{
  ℕ, zero, suc, ◌+◌, ◌==◌, Bool, true, false, ◌&&◌, ◌||◌, not, Option, none, some, List, [], ◌∷◌,
  ◌++◌, if◌then◌else◌, Text, codes, text_eq, Error, Result, ok, err, ◌>>=◌, ◌>>◌, throw_if,
}
use mathlib.Core.List.{reverse}
use offchain_service.Base.Dict.{Dict, lookup}
use offchain_service.Base.Results.{
  invalid_checksum_address, invalid_checksum_total, invalid_checksum_l1, invalid_checksum_l2,
  invalid_checksum_uint256, invalid_checksum_nonce, undefined_balance,
}
use offchain_service.Base.Numbers.{Numbers}
use offchain_service.Base.Texts.{split, join}
use offchain_service.Common.Chain.{network_id}
use offchain_service.Price.Calculus.{Ethers}
use offchain_service.Ledger.Entry.{
  JournalMovementType, debit, credit, AccountGroup, holder, pre_sale, sale, treasury, bridge, chain,
  yield_pool, carbon_pool, stock_option_pool, decentralized_exchange, JournalEntry, Comparison,
  compare,
}
use offchain_service.Ledger.Balances.{Balance, add_journal_entry, new_builder}

-- `EncryptionPort`: content, initialisation vector and secret.
pub record Encryption : Type 0 where
  pub encrypt : Text → Text → Text → Result Text
  pub decrypt : Text → Text → Text → Result Text

-- The tables `balance` and `journal`.
pub record LedgerRows (F : Type 0) : Type 0 where
  pub balances : List (Balance F)
  pub journal : List (JournalEntry F)

-- What the database answers to the two statements of a save, on the rows at the time of each.
pub record SaveAnswers (F : Type 0) : Type 0 where
  pub balance_answer : LedgerRows F → Balance F → Result (Unit {0})
  pub journal_answer : LedgerRows F → JournalEntry F → Result (Unit {0})

-- What the use case runs with: the clock is the time at which an entry is signed, and the sort is the library's.
pub record SyncPorts (n : Numbers) : Type 1 where
  pub ethers : Ethers
  pub encryption : Encryption
  pub cbc_key : Text
  pub clock : JournalEntry n.F → ℕ
  pub answers : SaveAnswers n.F
  pub sort :
      (JournalEntry n.F → JournalEntry n.F → Comparison)
      → List (JournalEntry n.F)
      → List (JournalEntry n.F)

abbrev movement_eq : JournalMovementType → JournalMovementType → Bool
movement_eq debit debit = true
movement_eq credit credit = true
movement_eq _ _ = false

abbrev pub group_id : AccountGroup → ℕ
group_id holder = 0
group_id pre_sale = 1
group_id sale = 2
group_id treasury = 3
group_id bridge = 4
group_id chain = 5
group_id yield_pool = 6
group_id carbon_pool = 7
group_id stock_option_pool = 8
group_id decentralized_exchange = 9

-- The condition of the `select` on the journal: the four keys agree.
unfoldable pub has_keys : {F : Type 0} → JournalEntry F → JournalEntry F → Bool
unfolding network_id
has_keys e row =
    network_id row.chain_id == network_id e.chain_id
    && text_eq row.transaction_hash e.transaction_hash
    && row.log_index == e.log_index
    && movement_eq row.movement_type e.movement_type

-- `FetchableJournalEntryPort.fetch`
unfoldable pub fetch_entry :
    {F : Type 0} → JournalEntry F → List (JournalEntry F) → Option (JournalEntry F)
fetch_entry e [] = none
fetch_entry e (row ∷ rows) = if has_keys e row then some row else fetch_entry e rows

-- `FetchableBalancePort.fetch`: the first row of the account, whatever its group.
unfoldable pub fetch_balance : {F : Type 0} → Text → List (Balance F) → Option (Balance F)
fetch_balance account [] = none
fetch_balance account (row ∷ rows) =
    if text_eq row.account account then some row else fetch_balance account rows

-- `insert … on conflict (account, "group") do update`
unfoldable pub upsert : {F : Type 0} → Balance F → List (Balance F) → List (Balance F)
upsert b [] = b ∷ []
upsert b (row ∷ rows) =
    if text_eq row.account b.account && group_id row.group == group_id b.group
    then b ∷ rows
    else row ∷ upsert b rows

abbrev pub store_journal :
    {F : Type 0}
    → JournalEntry F
    → LedgerRows F
    → Result (Unit {0})
    → LedgerRows F × Result (Unit {0})
store_journal e rows (err k) = (rows, err k)
store_journal e rows (ok _) = (record rows { journal = rows.journal ++ e ∷ [] }, ok tt)

abbrev pub with_balance : {F : Type 0} → Balance F → LedgerRows F → LedgerRows F
with_balance b rows = record rows { balances = upsert b rows.balances }

abbrev pub store_both :
    {F : Type 0}
    → SaveAnswers F
    → Balance F
    → JournalEntry F
    → LedgerRows F
    → Result (Unit {0})
    → LedgerRows F × Result (Unit {0})
store_both answers b e rows (err k) = (rows, err k)
store_both answers b e rows (ok _) =
    store_journal e (with_balance b rows) (answers.journal_answer (with_balance b rows) e)

-- `PersistableBalanceJournalPort.save`: two statements, in no transaction. A failure of the second
-- leaves what the first has written.
unfoldable pub save :
    {F : Type 0}
    → SaveAnswers F
    → Balance F
    → JournalEntry F
    → LedgerRows F
    → LedgerRows F × Result (Unit {0})
unfolding upsert
save answers b e rows = store_both answers b e rows (answers.balance_answer rows b)

-- `a?.transactionHash === e.transactionHash`
abbrev is_known : {F : Type 0} → JournalEntry F → Option (JournalEntry F) → Bool
is_known e none = false
is_known e (some x) = text_eq x.transaction_hash e.transaction_hash

abbrev pub or_undefined : {F : Type 0} → Option (Balance F) → Result (Balance F)
or_undefined none = err undefined_balance
or_undefined (some b) = ok b

module _ (n : Numbers) (ports : SyncPorts n) where
  open n use {F, of_ℕ, nan, add, lt, eq, show, show_ℕ, read}
  open ports use {ethers, encryption, cbc_key, clock, answers}

  -- `settings.cbc.key.split('').reverse().join('')`
  abbrev key : Text
  key = reverse cbc_key

  -- The parts of the text that `checksum` encrypts, behind the time.
  unfoldable pub security_tuple : Balance F → List Text
  security_tuple b =
      b.account
      ∷ show b.total
      ∷ show b.l1_total
      ∷ show b.l2_total
      ∷ show_ℕ b.uint256total
      ∷ show_ℕ b.nonce
      ∷ []

  -- `checksum`
  unfoldable pub checksum : ℕ → Balance F → Result Text
  unfolding security_tuple
  checksum time b = encryption.encrypt (join b'|' (show_ℕ time) (security_tuple b)) b.account key

  -- A part of the destructured array, and the number that `Number` makes of it.
  abbrev part : ℕ → List Text → Option Text
  part i [] = none
  part zero (t ∷ ts) = some t
  part (suc i) (t ∷ ts) = part i ts

  abbrev number_of : Option Text → F
  number_of none = nan
  number_of (some t) = read t

  -- `a === b` for a part and a text
  abbrev is_text : Option Text → Text → Bool
  is_text none t = false
  is_text (some s) t = text_eq s t

  -- `Number(part) > stored + 1 || Number(part) < stored - 1`
  abbrev is_far : F → F → Bool
  is_far x stored = lt (add stored (of_ℕ 1)) x || lt x (n.sub stored (of_ℕ 1))

  -- The tests of `validate` on the decrypted parts.
  unfoldable pub validate_parts : List Text → Balance F → Result (Unit {0})
  validate_parts parts b = do
    throw_if (not (is_text (part 1 parts) b.account)) invalid_checksum_address
    throw_if (is_far (number_of (part 2 parts)) b.total) invalid_checksum_total
    throw_if (is_far (number_of (part 3 parts)) b.l1_total) invalid_checksum_l1
    throw_if (is_far (number_of (part 4 parts)) b.l2_total) invalid_checksum_l2
    throw_if (not (is_text (part 5 parts) (show_ℕ b.uint256total))) invalid_checksum_uint256
    throw_if (not (eq (number_of (part 6 parts)) (of_ℕ b.nonce))) invalid_checksum_nonce

  -- `validate`
  unfoldable pub validate : Option (Balance F) → Result (Unit {0})
  unfolding validate_parts
  validate none = ok tt
  validate (some b) = do
    text ← encryption.decrypt b.checksum b.account key
    validate_parts (split b'|' text) b

  -- The body of the loop for an entry that is not stored yet, up to the save.
  unfoldable pub build_new : LedgerRows F → JournalEntry F → Result (Balance F × JournalEntry F)
  build_new rows e = do
    validate (fetch_balance e.account rows.balances)
    built ←
        add_journal_entry n ethers e
          (new_builder n ethers (fetch_balance e.account rows.balances ∷ []) [])
    b ← or_undefined (lookup e.account built)
    sum ← checksum (clock e) b
    ok (record b { checksum = sum }, record e { entry_type = b.status })

  abbrev pub save_built :
      LedgerRows F → Result (Balance F × JournalEntry F) → LedgerRows F × Result (Unit {0})
  save_built rows (err k) = (rows, err k)
  save_built rows (ok (b, e)) = save answers b e rows

  -- The body of the loop for an entry that is not stored yet: the rows it leaves, and how it ends.
  unfoldable pub sync_new : LedgerRows F → JournalEntry F → LedgerRows F × Result (Unit {0})
  unfolding build_new save
  sync_new rows e = save_built rows (build_new rows e)

  -- The loop of `syncBalances`: the rows it leaves, with the count of the saved entries or the error that stopped it.
  unfoldable pub sync_balances : ℕ → List (JournalEntry F) → LedgerRows F → LedgerRows F × Result ℕ
  sync_balances counter [] rows = (rows, ok counter)
  sync_balances counter (e ∷ es) rows = elim (is_known e (fetch_entry e rows.journal)) [
    | true ↦ sync_balances counter es rows
    | false ↦
        let (rows', saved) = sync_new rows e in
        elim saved [ ok _ ↦ sync_balances (counter + 1) es rows' | err k ↦ (rows', err k) ]
  ]
