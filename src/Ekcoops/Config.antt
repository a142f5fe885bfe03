-- ===== src/Ekcoops/Config.antt =====
-- pkg/ekcoops/config.go: the settings that the operator reads, with durations in seconds; and the
-- interface of the controller that it calls.
use ekco.Prelude.{ℕ, String, Bool, List}
use ekco.Kube.{Node, Action}
use ekco.Cluster.Config.{ControllerConfig}

pub record Config : Type 0 where
  pub node_unreachable_toleration : ℕ
  pub min_ready_master_nodes : ℕ
  pub min_ready_worker_nodes : ℕ
  pub purge_dead_nodes : Bool
  pub clear_dead_nodes : Bool
  pub maintain_rook_storage_nodes : Bool
  pub rook_storage_nodes_label : String
  pub rook_storage_nodes : String
  pub ceph_block_pool : String
  pub ceph_filesystem : String
  pub ceph_object_store : String
  pub min_ceph_pool_replication : ℕ
  pub max_ceph_pool_replication : ℕ
  pub rook_priority_class : String
  pub reconcile_rook_mds_placement : Bool
  pub reconcile_ceph_csi_resources : Bool
  pub rotate_certs : Bool
  pub enable_internal_load_balancer : Bool
  pub auto_approve_kubelet_csrs : Bool
  pub rook_minimum_node_count : ℕ
  pub rook_storage_class : String
  pub storage_migration_auth_token : String
  pub enable_ha_minio : Bool
  pub minio_namespace : String
  pub enable_ha_kotsadm : Bool

-- The controller: its settings, and those of its operations.
pub record Services : Type 0 where
  pub controller : ControllerConfig
  pub rotate_contour_certs : Action (Unit {0})
  pub rotate_registry_cert : Action (Unit {0})
  pub rotate_kurl_proxy_cert : Action (Unit {0})
  pub update_kubelet_client_cert_secret : Action (Unit {0})
  pub rotate_all_certs : Action (Unit {0})
  pub reconcile_internal_lb : List Node → Action (Unit {0})
  pub does_ha_minio_exist : String → Action Bool
  pub scale_minio_statefulset : String → Action (Unit {0})
  pub ensure_ha_minio_svc : String → Action (Unit {0})
  pub migrate_minio_data : String → Action (Unit {0})
  pub maybe_rebalance_minio_servers : String → Action (Unit {0})
  pub enable_ha_kotsadm : Action (Unit {0})
  pub ensure_ceph_cluster : Action (Unit {0})
