-- ===== src/Tests.antt =====
-- Concrete runs of the models: the cases of the repository's own tests, and inputs at which the
-- hypotheses of the theorems hold.
pub mod Backend
pub mod Registry
pub mod S3
pub mod Handlers
pub mod Admin
pub mod Routes
pub mod Sealing
pub mod Rotation
pub mod Caching
pub mod Gcs
pub mod Azure
pub mod Files
pub mod Signing
pub mod Config
