-- ===== src/Decision.antt =====
-- internal/decision: from a rule result and a provider's answers to one decision.
pub mod Questions
pub mod Compose
pub mod Merge
pub mod Policy
