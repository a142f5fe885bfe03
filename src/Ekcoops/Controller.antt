-- ===== src/Ekcoops/Controller.antt =====
-- pkg/cluster/controller.go: the controller, as the operator is given it.
pub mod Quiet
pub mod Limits
use ekco.Cluster.EnsureCeph.{ensure_ceph_cluster}
use ekco.Cluster.Config.{ControllerConfig}
use ekco.Cluster.ContourCerts.{rotate_contour_certs}
use ekco.Cluster.RegistryCert.{rotate_registry_cert}
use ekco.Cluster.Kotsadm.{
  rotate_kurl_proxy_cert, update_kubelet_client_cert_secret, enable_ha_kotsadm,
}
use ekco.Cluster.Tasks.{rotate_all_certs}
use ekco.Cluster.InternalLb.{reconcile_internal_lb}
use ekco.Cluster.Minio.{
  does_ha_minio_exist, scale_minio_statefulset, ensure_ha_minio_svc, migrate_minio_data,
}
use ekco.Cluster.Rebalance.{maybe_rebalance_minio_servers}
use ekco.Ekcoops.Config.{Services}

abbrev pub controller_services : ControllerConfig → Services
controller_services cfg = record {
  controller = cfg;
  rotate_contour_certs = rotate_contour_certs cfg;
  rotate_registry_cert = rotate_registry_cert cfg;
  rotate_kurl_proxy_cert = rotate_kurl_proxy_cert cfg;
  update_kubelet_client_cert_secret = update_kubelet_client_cert_secret cfg;
  rotate_all_certs = rotate_all_certs cfg;
  reconcile_internal_lb = reconcile_internal_lb cfg;
  does_ha_minio_exist = does_ha_minio_exist;
  scale_minio_statefulset = scale_minio_statefulset;
  ensure_ha_minio_svc = ensure_ha_minio_svc;
  migrate_minio_data = migrate_minio_data;
  maybe_rebalance_minio_servers = maybe_rebalance_minio_servers;
  enable_ha_kotsadm = enable_ha_kotsadm "default";
  ensure_ceph_cluster = ensure_ceph_cluster cfg;
}
