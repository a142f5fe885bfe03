-- ===== src/Objectstore.antt =====
-- pkg/objectstore: what is copied between object stores, and what points at one.
pub mod Usage
pub mod Sync
pub mod Consumers
pub mod Keeps
