-- ===== src/Tests/LedgerExamples.antt =====
-- The properties of amounts and of the ledger at a transfer of five units.
use offchain_service.Base.{
  ℕ, Text, ◌+◌, ◌*◌, ◌^◌, ◌<◌, ◌≡◌, ◌≢◌, refl, none, some, [], ◌∷◌, codes, ok, arith,
}
use offchain_service.Common.Chain.{layer}
use offchain_service.Common.Format.{format_decimals}
use offchain_service.Common.Format.Value.{Reads, format_decimals-Reads}
use offchain_service.Price.Calculus.{CurrencyAmount, sum, sub, pad_units, fixed_limit}
use offchain_service.Price.Calculus.Laws.{Gives, sum-IsExact}
use offchain_service.Ledger.Entry.{JournalEntry, before, same, compare}
use offchain_service.Ledger.Entry.Order.{compare-same_not_trans}
use offchain_service.Ledger.Balances.{post, add_journal_entry, new_builder, move_uint256}
use offchain_service.Ledger.Balances.Posting.{Posts, post-Posts}
use offchain_service.Ledger.Balances.Totals.{add_journal_entries, add_journal_entries_sum}
use offchain_service.Ledger.Sync.{
  sync_balances, sync_new, fetch_entry, fetch_balance, has_keys, security_tuple, checksum, validate,
}
use offchain_service.Base.Lists.{replicate}
use offchain_service.Base.Texts.{join}
use offchain_service.Ledger.Sync.Journal.{IsUnique}
use offchain_service.Ledger.Sync.Replay.{sync_balances-IsUnique, sync_balances_replay}
use offchain_service.Ledger.Sync.Checksum.{validate-checksum, validate-tampered}
use offchain_service.Tests.Instances.{
  numbers, printing, ethers, exact, sync_ports, plain-RoundTrips,
}
use offchain_service.Tests.Data.{credit_b, debit_a, balance_a, no_rows, tokens}

format_decimals-Reads_example : Reads 2 1234 (format_decimals (codes "1234") 2 none)
format_decimals-Reads_example = format_decimals-Reads (codes "1234") 1

-- Two tokens, written with two decimal places.
abbrev two_tokens : CurrencyAmount
two_tokens = record tokens { unassigned_number = 200; decimals = 2 }

sum-IsExact_example :
    Gives (2 * 10 ^ 18 + 6 < fixed_limit) (2 * 10 ^ 18 + 6) (sum ethers two_tokens tokens)
sum-IsExact_example =
    sum-IsExact ethers exact two_tokens tokens (2 * 10 ^ 18) 6 (omega arith) (omega arith) refl refl

-- Three entries of three blocks.
abbrev later : ℕ → JournalEntry ℕ → JournalEntry ℕ
later k e = record e {
  block_number = e.block_number + k;
  entry_date = e.entry_date + k;
  transaction_hash = codes "x2";
}

compare-same_not_trans_example :
    (compare debit_a (record debit_a { transaction_hash = codes "x2" }) ≡ same)
    × (compare (record debit_a { transaction_hash = codes "x2" }) (record debit_a { log_index = 1 })
        ≡ same)
    × (compare debit_a (record debit_a { log_index = 1 }) ≡ before)
compare-same_not_trans_example =
    compare-same_not_trans debit_a (record debit_a { transaction_hash = codes "x2" })
      (record debit_a { log_index = 1 }) refl refl refl refl refl refl refl (ground arith)
      (omega arith)

post-Posts_example : Posts debit_a balance_a (post numbers ethers debit_a balance_a)
post-Posts_example = post-Posts numbers ethers exact debit_a balance_a

add_journal_entries_sum_example : 9 + 5 ≡ 9 + 5
unfolding add_journal_entries add_journal_entry move_uint256 sub pad_units layer sum
add_journal_entries_sum_example =
    add_journal_entries_sum numbers ethers exact (debit_a ∷ credit_b ∷ [])
      ((codes "a", balance_a) ∷ []) refl

sync_balances-IsUnique_example :
    IsUnique (sync_balances numbers sync_ports 0 (credit_b ∷ credit_b ∷ []) no_rows).0.journal
sync_balances-IsUnique_example =
    sync_balances-IsUnique numbers sync_ports 0 (credit_b ∷ credit_b ∷ []) no_rows tt

sync_balances_replay_example :
    let rows = (sync_balances numbers sync_ports 0 (credit_b ∷ []) no_rows).0 in
    sync_balances numbers sync_ports 8 (credit_b ∷ []) rows ≡ (rows, ok 8)
unfolding sync_balances fetch_entry sync_new validate fetch_balance add_journal_entry move_uint256
    sum pad_units layer new_builder checksum has_keys
sync_balances_replay_example =
    sync_balances_replay numbers sync_ports 0 8 (credit_b ∷ []) no_rows refl

abbrev signed_text : Text
signed_text = join b'|' (replicate 7 b'1') (security_tuple numbers sync_ports balance_a)

validate-checksum_example :
    validate numbers sync_ports (some (record balance_a { checksum = signed_text })) ≡ ok tt
unfolding checksum
validate-checksum_example =
    validate-checksum numbers sync_ports printing plain-RoundTrips 7 balance_a signed_text
      (ground arith, tt) refl

validate-tampered_example :
    validate numbers sync_ports
      (some (record balance_a { uint256total = 10; checksum = signed_text }))
    ≢ ok tt
unfolding checksum
validate-tampered_example =
    validate-tampered numbers sync_ports printing plain-RoundTrips 7 balance_a
      (record balance_a { uint256total = 10; checksum = signed_text }) (ground arith, tt) refl refl
      (ground arith)
