-- ===== src/Migrate.antt =====
-- pkg/migrate/storage.go: from minio and local volumes to Rook.
pub mod Ready
pub mod ObjectStorage
pub mod Status
