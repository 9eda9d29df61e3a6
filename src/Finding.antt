-- ===== src/Finding.antt =====
-- internal/finding: ranks, and the decision for each asset.
pub mod Bundle
pub mod Rank
pub mod Rules
pub mod Decision
