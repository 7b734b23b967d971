-- ===== src/Ledger/Entry/Order.antt =====
-- The comparison by which the journal is sorted.
use offchain_service.Base.{◌≡◌, ◌≢◌, ◌⊎◌, ◌≤◌, ◌<◌, arith, text_eq_iff}
use offchain_service.Common.Chain.{network_id}
use offchain_service.Ledger.Entry.{JournalEntry, Comparison, before, same, after, compare}

abbrev pub flip : Comparison → Comparison
flip before = after
flip same = same
flip after = before

-- Comparing the other way round gives the opposite result.
pub compare-flip : {F : Type 0} (a b : JournalEntry F) → compare b a ≡ flip (compare a b)
unfolding compare
compare-flip a b = ground (
  arith,
  text_eq_iff a.transaction_hash b.transaction_hash,
  text_eq_iff b.transaction_hash a.transaction_hash,
)

-- What the blocks of a chain give: dates do not fall as block numbers rise, and the entries of
-- one transaction stand in one block.
abbrev pub AreConsistent : {F : Type 0} → JournalEntry F → JournalEntry F → Type 0
AreConsistent a b =
    network_id a.chain_id ≡ network_id b.chain_id
    → (a.block_number ≤ b.block_number → a.entry_date ≤ b.entry_date)
      × (b.block_number ≤ a.block_number → b.entry_date ≤ a.entry_date)
      × (a.transaction_hash ≡ b.transaction_hash → a.block_number ≡ b.block_number)

-- `before` in the terms of the chains: a lower block, or a lower log of one transaction, or an
-- earlier date on another chain.
abbrev IsEarlier : {F : Type 0} → JournalEntry F → JournalEntry F → Type 0
IsEarlier a b =
    ((network_id a.chain_id ≡ network_id b.chain_id) × (a.block_number < b.block_number))
    ⊎ ((network_id a.chain_id ≡ network_id b.chain_id)
        × (a.block_number ≡ b.block_number)
        × (a.transaction_hash ≡ b.transaction_hash)
        × (a.log_index < b.log_index))
    ⊎ ((network_id a.chain_id ≢ network_id b.chain_id) × (a.entry_date < b.entry_date))

before→IsEarlier :
    {F : Type 0} (a b : JournalEntry F) → AreConsistent a b → compare a b ≡ before → IsEarlier a b
unfolding compare
before→IsEarlier a b ab h = ground (arith, text_eq_iff a.transaction_hash b.transaction_hash)

IsEarlier→before : {F : Type 0} (a b : JournalEntry F) → IsEarlier a b → compare a b ≡ before
unfolding compare
IsEarlier→before a b h = ground (arith, text_eq_iff a.transaction_hash b.transaction_hash)

IsEarlier-trans :
    {F : Type 0} (a b c : JournalEntry F)
    → AreConsistent a b
    → AreConsistent b c
    → AreConsistent a c
    → IsEarlier a b
    → IsEarlier b c
    → IsEarlier a c
IsEarlier-trans a b c ab bc ac h k = ground arith

-- Among entries as the chains deliver them, `before` is transitive.
pub compare-before_trans :
    {F : Type 0} (a b c : JournalEntry F)
    → AreConsistent a b
    → AreConsistent b c
    → AreConsistent a c
    → compare a b ≡ before
    → compare b c ≡ before
    → compare a c ≡ before
compare-before_trans a b c ab bc ac h k =
    IsEarlier→before a c
      (IsEarlier-trans a b c ab bc ac (before→IsEarlier a b ab h) (before→IsEarlier b c bc k))

-- `same` is not transitive: two entries of one transaction, and an entry of another transaction
-- of the same block.
pub compare-same_not_trans :
    {F : Type 0} (a b c : JournalEntry F)
    → a.chain_id ≡ b.chain_id
    → a.chain_id ≡ c.chain_id
    → a.block_number ≡ b.block_number
    → a.block_number ≡ c.block_number
    → a.entry_date ≡ b.entry_date
    → a.entry_date ≡ c.entry_date
    → a.transaction_hash ≡ c.transaction_hash
    → a.transaction_hash ≢ b.transaction_hash
    → a.log_index < c.log_index
    → (compare a b ≡ same) × (compare b c ≡ same) × (compare a c ≡ before)
unfolding compare
compare-same_not_trans a b c h1 h2 h3 h4 h5 h6 h7 h8 h9 = ground (
  arith,
  text_eq_iff a.transaction_hash b.transaction_hash,
  text_eq_iff b.transaction_hash c.transaction_hash,
  text_eq_iff a.transaction_hash c.transaction_hash,
)
