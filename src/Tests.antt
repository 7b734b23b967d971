-- ===== src/Tests.antt =====
-- Each property applied at a concrete input.
mod Instances
mod Data
mod LedgerExamples
mod RefinementExamples
mod OrderExamples
mod ClearingExamples
mod DelegationExamples
mod StatementExamples
mod QuoteExamples
mod IdentityExamples
mod AuthExamples
mod SupplyExamples
mod ChallengeExamples
mod DispatchExamples
mod SettlementExamples
mod ExpiryExamples
mod Sorting
mod BadgeExamples
