-- ===== src/Util.antt =====
-- pkg/util: tests of nodes.
pub mod Node
pub mod Restart
