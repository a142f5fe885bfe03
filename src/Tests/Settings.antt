-- ===== src/Tests/Settings.antt =====
-- Settings under which dead nodes are purged and nothing else is done, and services that do nothing.
use ekco.Prelude.{true, false}
use ekco.Errors.{failure}
use ekco.Kube.{pure, raise, done}
use ekco.Ekcoops.Config.{Config, Services}

abbrev pub settings : Config
settings = record {
  node_unreachable_toleration = 300;
  min_ready_master_nodes = 1;
  min_ready_worker_nodes = 0;
  purge_dead_nodes = true;
  clear_dead_nodes = true;
  maintain_rook_storage_nodes = false;
  rook_storage_nodes_label = "";
  rook_storage_nodes = "";
  ceph_block_pool = "replicapool";
  ceph_filesystem = "rook-shared-fs";
  ceph_object_store = "rook-ceph-store";
  min_ceph_pool_replication = 1;
  max_ceph_pool_replication = 3;
  rook_priority_class = "";
  reconcile_rook_mds_placement = false;
  reconcile_ceph_csi_resources = false;
  rotate_certs = false;
  enable_internal_load_balancer = false;
  auto_approve_kubelet_csrs = false;
  rook_minimum_node_count = 0;
  rook_storage_class = "distributed";
  storage_migration_auth_token = "secret";
  enable_ha_minio = false;
  minio_namespace = "minio";
  enable_ha_kotsadm = false;
}

abbrev pub no_services : Services
no_services = record {
  controller = record {
    rotate_certs_image = "ekco";
    rotate_certs_namespace = "kurl";
    rotate_certs_ttl = 2592000;
    registry_cert_namespace = "kurl";
    registry_cert_secret = "registry-pki";
    kurl_proxy_cert_namespace = "default";
    kurl_proxy_cert_secret = "kotsadm-tls";
    kotsadm_kubelet_cert_namespace = "default";
    kotsadm_kubelet_cert_secret = "kubelet-client-cert";
    contour_cert_secret = "contourcert";
    envoy_cert_secret = "envoycert";
    host_task_image = "ekco";
    host_task_namespace = "kurl";
    internal_load_balancer_haproxy_image = "haproxy";
    rotate_certs_check_interval = 86400;
    contour_namespace = "projectcontour";
    restart_failed_envoy_pods = false;
    envoy_pods_not_ready_duration = 300;
    rook_ceph_image = "ceph/ceph:v17";
  };
  rotate_contour_certs = done;
  rotate_registry_cert = done;
  rotate_kurl_proxy_cert = done;
  update_kubelet_client_cert_secret = done;
  rotate_all_certs = done;
  reconcile_internal_lb = λ nodes. done;
  does_ha_minio_exist = λ ns. pure true;
  scale_minio_statefulset = λ ns. done;
  ensure_ha_minio_svc = λ ns. done;
  migrate_minio_data = λ ns. done;
  maybe_rebalance_minio_servers = λ ns. raise (failure "rebalance");
  enable_ha_kotsadm = done;
  ensure_ceph_cluster = done;
}
