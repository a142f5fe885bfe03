-- ===== src/Tests/Commands.antt =====
-- The purge-node command, the restart of envoy and the rotation of certificates.
use ekco.Prelude.{◌≡◌, refl, true, false, none, some, [], ◌∷◌}
use ekco.Errors.{ok}
use ekco.Kube.{PodStatus, Pod, ConfigMap, Call, Env}
use ekco.Cluster.Config.{ControllerConfig}
use ekco.Cluster.ClearNode.Stuck.{pod_deletions}
use ekco.Cluster.Envoy.{readiness, not_ready_for, restart_failed_envoy_pods}
use ekco.Cluster.Envoy.Failed.{restart_failed_envoy_pods-deletions}
use ekco.Cluster.Certs.{rotate_certs_value, stamped, check_rotate_certs_due}
use ekco.Cluster.Certs.Due.{check_rotate_certs_due-stamped}
use ekco.Cluster.Csi.{ceph_csi_resources_patch}
use ekco.Cluster.Csi.Settled.{merged}
use ekco.Tests.Env.{nothing, env_with, master, dead_worker}

abbrev failed_status : PodStatus
failed_status = record {
  phase = "Running";
  pod_ip = "10.1.0.2";
  host_ip = "10.0.0.1";
  container_statuses =
      record { name = "shutdown-manager"; ready = true; started_at = some 100 }
      ∷ record { name = "envoy"; ready = false; started_at = some 100 }
      ∷ [];
  conditions =
      record {
        type = "ContainersReady";
        reason = "ContainersNotReady";
        status = "False";
        last_transition_time = 200;
      }
      ∷ [];
}

abbrev envoy_pod : Pod
envoy_pod = record {
  namespace = "projectcontour";
  name = "envoy-1";
  annotations = [];
  deletion_timestamp = none;
  status = failed_status;
  claim_names = [];
}

abbrev env : Env
env =
    env_with none
      (record nothing { nodes = ok (master ∷ dead_worker ∷ []); pods = ok (envoy_pod ∷ []) })

abbrev enabled : ControllerConfig
enabled = record {
  rotate_certs_image = "ekco";
  rotate_certs_namespace = "kurl";
  rotate_certs_ttl = 2592000;
  registry_cert_namespace = "kurl";
  registry_cert_secret = "registry-pki";
  kurl_proxy_cert_namespace = "default";
  kurl_proxy_cert_secret = "kotsadm-tls";
  kotsadm_kubelet_cert_namespace = "default";
  kotsadm_kubelet_cert_secret = "kubelet-client-cert";
  contour_cert_secret = "contourcert";
  envoy_cert_secret = "envoycert";
  host_task_image = "ekco";
  host_task_namespace = "kurl";
  internal_load_balancer_haproxy_image = "haproxy";
  rotate_certs_check_interval = 86400;
  contour_namespace = "projectcontour";
  restart_failed_envoy_pods = true;
  envoy_pods_not_ready_duration = 300;
  rook_ceph_image = "";
}

restart_failed_envoy_pods-deletions_example :
    pod_deletions (restart_failed_envoy_pods enabled env []).1
    ≡ Call.delete_pod "projectcontour" "envoy-1" ∷ []
unfolding readiness not_ready_for
restart_failed_envoy_pods-deletions_example =
    restart_failed_envoy_pods-deletions env 1000 (λ t. refl) enabled (envoy_pod ∷ []) [] refl refl
      refl

abbrev attempts : ConfigMap
attempts = record { name = rotate_certs_value; contents = [] }

-- One attempt at second 1000, and a forced one in the same second.
check_rotate_certs_due-stamped_example :
    check_rotate_certs_due enabled true
      (env_with none (record nothing { config_map = ok (stamped "now" attempts) }))
      []
    ≡ (
      ok true,
      Call.update_config_map "kurl" (stamped "now" attempts)
          ∷ Call.now
          ∷ Call.now
          ∷ Call.get_config_map "kurl" "rotate-certs"
          ∷ [],
    )
check_rotate_certs_due-stamped_example =
    check_rotate_certs_due-stamped enabled true
      (env_with none (record nothing { config_map = ok (stamped "now" attempts) })) attempts 1000
      1000 [] refl refl (λ u. refl) (λ c u. refl)

abbrev operator_config : ConfigMap
operator_config = record {
  name = "rook-ceph-operator-config";
  contents = ("ROOK_LOG_LEVEL", "INFO") ∷ [];
}

abbrev set_before : Env
set_before = env_with none (record nothing {
  config_map = ok (record operator_config {
    contents = merged ceph_csi_resources_patch operator_config.contents;
  });
})
