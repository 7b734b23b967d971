-- ===== src/Supply.antt =====
-- src/domain/supply: the tokens that are locked for an e-mail address, and who may claim them.
pub mod Claiming
pub mod Dispatch
pub mod Reconciliation
