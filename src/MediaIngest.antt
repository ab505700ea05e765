-- ===== src/MediaIngest.antt =====
-- services/media-ingest-gateway: clips, their bytes in an object store, and their sync offsets.
pub mod Domain
pub mod Store
pub mod S3
pub mod Service
pub mod Http
pub mod Main
pub mod Security
pub mod Client
pub mod Uploads
pub mod Integrity
pub mod Tests
