-- ===== src/Ingestion.antt =====
-- modules/ingestion: the durable jobs of the fiscal ingestion, their leases and their settlement by
-- the workers.
pub mod Job
pub mod Policy
pub mod Claim
pub mod Counters
pub mod ManualZip
pub mod Settlement
pub mod Retry
pub mod Calls
mod Sample
mod Tests
