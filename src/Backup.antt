-- ===== src/Backup.antt =====
-- The backup tool, scripts/k8s_backup.
pub mod Tracker
pub mod Flux
pub mod Neat
pub mod Ownership
pub mod Dependencies
pub mod Secrets
pub mod Skip
pub mod Locality
pub mod Derived
pub mod Substitute
pub mod Tests
pub mod ManifestTests
