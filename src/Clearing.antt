-- ===== src/Clearing.antt =====
-- src/domain/clearing: the bank's statement is matched with the orders, and each match becomes a
-- payment.
pub mod Entities
pub mod Database
pub mod Process
pub mod Schedule
pub mod Bank
pub mod Rows
pub mod Pages
pub mod Create
