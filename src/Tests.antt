-- ===== src/Tests.antt =====
-- Concrete clusters, and the theorems at them.
mod Env
mod Settings
mod Rook
mod Purge
mod Loop
mod Commands
mod Migration
mod Rotation
mod Install
mod Hosts
mod Operator
