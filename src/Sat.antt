-- ===== src/Sat.antt =====
-- modules/sat-download: the mass download of the tax administration (SAT).
pub mod Contract
pub mod Base64
pub mod Metadata
pub mod Package
mod Tests
