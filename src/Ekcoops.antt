-- ===== src/Ekcoops.antt =====
-- pkg/ekcoops: the operator, which reconciles the cluster on an interval.
pub mod Config
pub mod Overrides
pub mod Prometheus
pub mod Nodes
pub mod RookStorage
pub mod Operator
pub mod Poll
pub mod Controller
