-- ===== src/Common.antt =====
-- src/domain/common: the chains and the text formatting of amounts.
pub mod Chain
pub mod Format
