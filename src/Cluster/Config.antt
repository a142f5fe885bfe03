-- ===== src/Cluster/Config.antt =====
-- pkg/cluster/types/types.go: the settings of the controller that its modules read, with durations in
-- seconds.
use ekco.Prelude.{ℕ, String, Bool}

pub record ControllerConfig : Type 0 where
  pub rotate_certs_image : String
  pub rotate_certs_namespace : String
  pub rotate_certs_check_interval : ℕ
  pub rotate_certs_ttl : ℕ
  pub registry_cert_namespace : String
  pub registry_cert_secret : String
  pub kurl_proxy_cert_namespace : String
  pub kurl_proxy_cert_secret : String
  pub kotsadm_kubelet_cert_namespace : String
  pub kotsadm_kubelet_cert_secret : String
  pub contour_namespace : String
  pub contour_cert_secret : String
  pub envoy_cert_secret : String
  pub restart_failed_envoy_pods : Bool
  pub envoy_pods_not_ready_duration : ℕ
  pub host_task_image : String
  pub host_task_namespace : String
  pub internal_load_balancer_haproxy_image : String
  pub rook_ceph_image : String
