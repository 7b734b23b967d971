-- ===== src/Ledger/Balances.antt =====
-- src/domain/ledger/entities/balance.entity.ts and src/domain/ledger/builders/balance.builder.ts.
-- A call that throws leaves its builder unused, so its result is the error alone.
pub mod Posting
pub mod Totals
use offchain_service.Base.{
  ℕ, ◌+◌, ◌==◌, Bool, true, false, ◌&&◌, ◌||◌, Option, none, some, List, [], ◌∷◌, if◌then◌else◌,
  Text, Result, ok, err, ◌>>=◌,
}
use offchain_service.Base.Dict.{Dict, lookup, insert}
use offchain_service.Base.Numbers.{Numbers}
use offchain_service.Common.Chain.{LayerType, l1, l2, IsoCodeType, NetworkType, layer}
use offchain_service.Price.Calculus.{CurrencyAmount, Ethers, sum, sub}
use offchain_service.Ledger.Entry.{
  JournalMovementType, debit, credit, JournalEntryType, join, exit, movement, AccountGroup, bridge,
  chain, JournalEntry,
}

-- `BalanceProps`
pub record Balance (F : Type 0) : Type 0 where
  pub account : Text
  pub group : AccountGroup
  pub total : F
  pub l1_total : F
  pub l2_total : F
  pub status : JournalEntryType
  pub nonce : ℕ
  pub join_date : Option ℕ
  pub exit_date : Option ℕ
  pub last_journal_entry_date : ℕ
  pub last_journal_movement_type : JournalMovementType
  pub last_journal_entry_amount : F
  pub last_journal_entry_chain_id : NetworkType
  pub checksum : Text
  pub uint256total : ℕ

-- `a || b` on dates.
abbrev or_date : Option ℕ → ℕ → Option ℕ
or_date none d = some d
or_date (some c) _ = some c

abbrev is_debit : JournalMovementType → Bool
is_debit debit = true
is_debit credit = false

abbrev is_chain_or_bridge : AccountGroup → Bool
is_chain_or_bridge chain = true
is_chain_or_bridge bridge = true
is_chain_or_bridge _ = false

-- `isMintOrFxTunnel`
abbrev pub is_mint_or_fx_tunnel : {F : Type 0} → JournalEntry F → Bool
is_mint_or_fx_tunnel e = is_debit e.movement_type && is_chain_or_bridge e.account_group

abbrev kn_amount : {F : Type 0} → JournalEntry F → ℕ → CurrencyAmount
kn_amount e n = record { unassigned_number = n; decimals = 18; iso_code = e.iso_code }

module _ (n : Numbers) where
  open n use {F, of_ℕ, add, le, lt}

  -- The balance of an account that the builder does not hold.
  unfoldable pub new_balance : JournalEntry F → Balance F
  new_balance e = record {
    account = e.account;
    group = e.account_group;
    total = of_ℕ 0;
    l1_total = of_ℕ 0;
    l2_total = of_ℕ 0;
    status = join;
    nonce = 0;
    join_date = some e.entry_date;
    exit_date = none;
    last_journal_entry_date = e.entry_date;
    last_journal_movement_type = e.movement_type;
    last_journal_entry_amount = e.amount;
    last_journal_entry_chain_id = e.chain_id;
    checksum = [];
    uint256total = 0;
  }

  -- A change of the total and of the total of the entry's layer.
  abbrev change_totals : (F → F) → LayerType → Balance F → Balance F
  change_totals f l1 b = record b { total = f b.total; l1_total = f b.l1_total }
  change_totals f l2 b = record b { total = f b.total; l2_total = f b.l2_total }

  -- The status that follows from the previous and the new total, with its dates.
  unfoldable pub classify : F → ℕ → Balance F → Balance F
  classify previous_total date b =
      if le b.total (of_ℕ 0)
      then record b { status = exit; exit_date = some date }
      else if le previous_total (of_ℕ 0) && lt (of_ℕ 0) b.total
      then record b { status = join; join_date = or_date b.join_date date; exit_date = none }
      else record b { status = movement; exit_date = none }

  -- What every entry writes on its balance.
  unfoldable pub stamp : JournalEntry F → Balance F → Balance F
  stamp e b = record b {
    last_journal_entry_date = e.entry_date;
    last_journal_movement_type = e.movement_type;
    last_journal_entry_amount = e.amount;
    last_journal_entry_chain_id = e.chain_id;
    group = e.account_group;
    nonce = b.nonce + 1;
  }

  -- The balance after the totals, the status and the stamp, up to `isMintOrFxTunnel`.
  unfoldable pub record_entry : JournalEntry F → Balance F → Balance F
  unfolding classify stamp
  record_entry e b =
      let added = change_totals (λ x. add x e.amount) (layer e.chain_id) b in
      stamp e (classify b.total e.entry_date added)

  -- The early return for a mint and for a tunnel's debit: the totals are taken back.
  unfoldable pub take_back : JournalEntry F → Balance F → Balance F
  take_back e b =
      let r = change_totals (λ x. n.sub x e.amount) (layer e.chain_id) b in
      record r { join_date = or_date r.join_date e.entry_date }

module _ (n : Numbers) (c : Ethers) where
  open n use {F, add}

  -- The new `uint256total`, by the calculus port.
  unfoldable pub move_uint256 : JournalEntry F → ℕ → Result CurrencyAmount
  move_uint256 e held =
      if is_debit e.movement_type
      then sub c (kn_amount e held) (kn_amount e e.uint256amount)
      else sum c (kn_amount e held) (kn_amount e e.uint256amount)

  abbrev with_uint256 : Balance F → CurrencyAmount → Balance F
  with_uint256 b a = record b { uint256total = a.unassigned_number }

  -- The body of `addJournalEntry` on the account's balance.
  unfoldable pub post : JournalEntry F → Balance F → Result (Balance F)
  unfolding record_entry take_back
  post e b =
      let stamped = record_entry n e b in
      let moved = (do a ← move_uint256 e stamped.uint256total; ok (with_uint256 stamped a)) in
      if is_mint_or_fx_tunnel e then ok (take_back n e stamped) else moved

  abbrev pub or_new : JournalEntry F → Option (Balance F) → Balance F
  or_new e none = new_balance n e
  or_new e (some b) = b

  -- `addJournalEntry`; the builder is its dictionary of balances.
  unfoldable pub add_journal_entry : JournalEntry F → Dict (Balance F) → Result (Dict (Balance F))
  unfolding post new_balance
  add_journal_entry e balances = do
    b ← post e (or_new e (lookup e.account balances))
    ok (insert e.account b balances)

  abbrev pub put_balance : Text → Balance F → Dict (Balance F) → Dict (Balance F)
  put_balance [] b d = d
  put_balance (k ∷ ks) b d = insert (k ∷ ks) b d

  -- The constructor's loop: the balances that are defined and whose account is no empty text.
  unfoldable pub new_builder : List (Option (Balance F)) → Dict (Balance F) → Dict (Balance F)
  new_builder [] d = d
  new_builder (none ∷ bs) d = new_builder bs d
  new_builder (some b ∷ bs) d = new_builder bs (put_balance b.account b d)
