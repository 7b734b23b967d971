-- ===== src/Ledger/Entry.antt =====
-- src/domain/ledger/entities/journal-entry.entity.ts. Dates are their milliseconds, and a text of
-- digits such as `uint256amount` is the number that it stands for. `F` is the type of the fractional numbers.
pub mod Order
use offchain_service.Base.{
  ℕ, Bool, ◌&&◌, Option, none, some, List, [], ◌∷◌, if◌then◌else◌, ◌==◌, ltb, Text, codes, text_eq,
}
use offchain_service.Base.Dict.{Dict, lookup, insert}
use offchain_service.Common.Chain.{LayerType, l1, l2, IsoCodeType, NetworkType, network_id, layer}

-- `enum JournalMovementType`
pub data JournalMovementType : Type 0 where
  debit credit : JournalMovementType

-- `enum JournalEntryType`
pub data JournalEntryType : Type 0 where
  join exit movement : JournalEntryType

-- `enum AccountGroup`
pub data AccountGroup : Type 0 where
  holder pre_sale sale treasury bridge chain : AccountGroup
  yield_pool carbon_pool stock_option_pool decentralized_exchange : AccountGroup

-- `JournalEntryProps`; the chain of an entry is the network that its `chainId` stands for.
pub record JournalEntry (F : Type 0) : Type 0 where
  pub movement_type : JournalMovementType
  pub chain_id : NetworkType
  pub transaction_hash : Text
  pub log_index : ℕ
  pub entry_type : JournalEntryType
  pub account : Text
  pub account_group : AccountGroup
  pub amount : F
  pub uint256amount : ℕ
  pub entry_date : ℕ
  pub iso_code : IsoCodeType
  pub block_number : ℕ
  pub gas_used : ℕ
  pub cumulative_gas_used : ℕ
  pub effective_gas_price : ℕ

-- The contract addresses that the grouping reads from `Settings`.
pub record LedgerSettings : Type 0 where
  pub ethereum_legacy_pre_sale : Text
  pub ethereum_sale : Text
  pub ethereum_dynamic_sale : Text
  pub ethereum_gnosis_safe : Text
  pub polygon_sale : Text
  pub polygon_dynamic_sale : Text
  pub polygon_gnosis_safe : Text

-- The last writes of an object literal, `...routing` and `CHAIN_NULL_OR_MINT`.
abbrev routing : Dict AccountGroup → Dict AccountGroup
routing d = insert (codes "0x0000000000000000000000000000000000000000") chain (
    insert (codes "0x618d2d508BF6B28b88EBf122eE1F1F7758192B33") stock_option_pool (
      insert (codes "0x127855d5B40883A519220c30644e3603896322D6") stock_option_pool (
        insert (codes "0x591558e092a283F823B859F30D176CFa8e930F6D") stock_option_pool (
          insert (codes "0x8BDcde25Ea2daEB27d71D6D022aAf6c6D6aE222f") stock_option_pool (
            insert (codes "0x438e4Be1D2cF3268Cf27B9eD57B5Aa7367046f2e") stock_option_pool (
              insert (codes "0xeFfdCB49C2D0EF813764B709Ca3c6fe71f230E3e") bridge (
                insert (codes "0xd26CD6ce2a1705C49610F951f232510532c6856D") bridge (
                  insert (codes "0xB005512d330501d93b12Aa4A8FF30bE8858769dE") bridge (
                    insert (codes "0xfe5e5D361b2ad62c541bAb87C45a0B9B018389a2") bridge (
                      insert (codes "0xE633A3eeADF030Edf6ABB6Ebbf792679a475C042") bridge (
                        insert (codes "0x8397259c983751DAf40400790063935a11afa28a") bridge (
                          insert (codes "0xd531Cf2142D9b9Dc8b077dF3c4E93B46E7Cf879a") bridge (
                            insert (codes "0x0cC2CaeD31490B546c741BD93dbba8Ab387f7F2c") bridge
                              d)))))))))))))

-- `AccountGroupingCache`, built once from the settings.
unfoldable pub account_grouping_cache : LedgerSettings → LayerType → Dict AccountGroup
account_grouping_cache s l1 = routing (
    insert s.ethereum_gnosis_safe treasury (
      insert s.ethereum_dynamic_sale sale
        (insert s.ethereum_sale sale (insert s.ethereum_legacy_pre_sale sale []))))
account_grouping_cache s l2 = routing (
    insert s.polygon_gnosis_safe treasury
      (insert s.polygon_dynamic_sale sale (insert s.polygon_sale sale [])))

abbrev or_holder : Option AccountGroup → AccountGroup
or_holder none = holder
or_holder (some g) = g

-- `new JournalEntry(settings, props)`, whose chain has been constructed: the group that the props
-- carry is replaced.
unfoldable pub new_entry : {F : Type 0} → LedgerSettings → JournalEntry F → JournalEntry F
unfolding layer account_grouping_cache
new_entry s props = record props {
  account_group =
      or_holder (lookup props.account (account_grouping_cache s (layer props.chain_id)));
}

-- The results 1, 0 and -1 of a comparison.
pub data Comparison : Type 0 where
  before same after : Comparison

-- `JournalEntry.compare`
unfoldable pub compare : {F : Type 0} → JournalEntry F → JournalEntry F → Comparison
unfolding network_id
compare curr next =
    let same_chain = network_id curr.chain_id == network_id next.chain_id in
    let same_transaction = same_chain && text_eq curr.transaction_hash next.transaction_hash in
    if same_chain && ltb curr.block_number next.block_number
    then before
    else if same_chain && ltb next.block_number curr.block_number
    then after
    else if same_transaction && ltb curr.log_index next.log_index
    then before
    else if same_transaction && ltb next.log_index curr.log_index
    then after
    else if ltb curr.entry_date next.entry_date
    then before
    else if ltb next.entry_date curr.entry_date
    then after
    else same
