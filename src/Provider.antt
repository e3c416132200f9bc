-- ===== src/Provider.antt =====
-- internal/provider: the questions put to a provider, its answers and their validation, and the
-- retry loop around its requests.
pub mod Float
pub mod Contract
pub mod Question
pub mod Validate
pub mod Sound
pub mod Retry
