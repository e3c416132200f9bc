-- ===== src/Store.antt =====
-- internal/store/mongo: the documents of the database, the conversions to and from the domain, and
-- the operations on the collections.
pub mod Documents
pub mod Mapping
pub mod RoundTrip
pub mod Collection
pub mod Updates
pub mod Replaced
pub mod Outbox
pub mod Incidents
