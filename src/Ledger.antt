-- ===== src/Ledger.antt =====
-- src/domain/ledger: journal entries, the balances that they are posted to, and the
-- synchronisation of the stored ledger with the chains' transfers.
pub mod Entry
pub mod Balances
pub mod Sync
