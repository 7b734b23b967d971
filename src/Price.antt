-- ===== src/Price.antt =====
-- src/domain/price and the adapter that computes with its amounts.
pub mod Calculus
pub mod Rates
pub mod Request
pub mod Quote
