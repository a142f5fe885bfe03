-- ===== src/Cluster.antt =====
-- pkg/cluster: what the controller does to the cluster.
pub mod Versions
pub mod Exec
pub mod Replication
pub mod Daemons
pub mod Storage
pub mod Etcd
pub mod Kubeadm
pub mod PurgeNode
pub mod ClearNode
pub mod Config
pub mod Envoy
pub mod Filesystem
pub mod EnsureCeph
pub mod Certs
pub mod Csi
pub mod RookVersion
pub mod Rook
pub mod Quiet
pub mod Minio
pub mod Rebalance
pub mod Tasks
pub mod InternalLb
pub mod Kotsadm
pub mod RegistryCert
pub mod ContourCerts
