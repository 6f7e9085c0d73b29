-- ===== src/S3.antt =====
-- internal/api/s3: the S3 protocol of the gateway port.
pub mod Chunked
pub mod Handler
pub mod Multipart
pub mod Objects
pub mod Auth
pub mod Listing
pub mod Signature
pub mod Routes
