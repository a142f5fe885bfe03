-- ===== src/Ekcoops/Operator/Quiet.antt =====
-- The steps of `Reconcile` other than the loop over the nodes delete no Node object.
use ekco.Prelude.{ℕ, String, refl, Bool, Option, List, [], ◌∷◌, arith}
use ekco.Errors.{Error}
use ekco.Kube.{Node, Pod, Csr, Version, Monitor}
use ekco.Cluster.PurgeNode.Order.{Quiet}
use ekco.Cluster.Config.{ControllerConfig}
use ekco.Cluster.Certs.{check_rotate_certs_due}
use ekco.Cluster.Envoy.{should_restart_envoy_pod, restart_pods, restart_failed_envoy_pods}
use ekco.Ekcoops.Config.{Config, Services}
use ekco.Ekcoops.Prometheus.{scale, reconcile_prometheus}
use ekco.Ekcoops.RookStorage.Quiet.{reconcile_rook-Quiet}
use ekco.Ekcoops.Operator.{
  rotate_certs, approve_all, reconcile_certificate_signing_requests, reconcile_kotsadm,
  reconcile_rook_cluster, reconcile_cluster, reconcile_add_ons, after_nodes,
}

-- The operations of the controller delete no Node object.
abbrev pub QuietServices : Services → Type 0
QuietServices services =
    Quiet services.rotate_contour_certs
    × Quiet services.rotate_registry_cert
    × Quiet services.rotate_kurl_proxy_cert
    × Quiet services.update_kubelet_client_cert_secret
    × Quiet services.rotate_all_certs
    × ((nodes : List Node) → Quiet (services.reconcile_internal_lb nodes))
    × Quiet services.enable_ha_kotsadm
    × Quiet services.ensure_ceph_cluster

check_rotate_certs_due-Quiet :
    (cfg : ControllerConfig) (reset : Bool) → Quiet (check_rotate_certs_due cfg reset)
unfolding check_rotate_certs_due
check_rotate_certs_due-Quiet cfg reset env t = ground arith

scale-Quiet : (m : Monitor) (n : ℕ) → Quiet (scale m n)
unfolding scale
scale-Quiet m n env t = ground arith

reconcile_prometheus-Quiet : (n : ℕ) → Quiet (reconcile_prometheus n)
unfolding reconcile_prometheus
reconcile_prometheus-Quiet n env t = grind (arith, scale-Quiet)

restart_pods-Quiet :
    (ns : String) (duration : ℕ) (pods : List Pod) (errs : Option Error)
    → Quiet (restart_pods ns duration errs pods)
unfolding restart_pods should_restart_envoy_pod
restart_pods-Quiet ns duration [] errs env t = refl
restart_pods-Quiet ns duration (pod ∷ pods) errs env t =
    grind (arith, restart_pods-Quiet ns duration pods)

restart_failed_envoy_pods-Quiet : (cfg : ControllerConfig) → Quiet (restart_failed_envoy_pods cfg)
unfolding restart_failed_envoy_pods
restart_failed_envoy_pods-Quiet cfg env t = grind (arith, restart_pods-Quiet)

approve_all-Quiet : (csrs : List Csr) → Quiet (approve_all csrs)
unfolding approve_all
approve_all-Quiet [] env t = refl
approve_all-Quiet (csr ∷ csrs) env t = grind (arith, approve_all-Quiet csrs)

reconcile_csrs-Quiet : Quiet reconcile_certificate_signing_requests
unfolding reconcile_certificate_signing_requests
reconcile_csrs-Quiet env t = grind (arith, approve_all-Quiet)

module _ (cfg : Config) (services : Services) (quiet : QuietServices services) where
  pub rotate_certs-Quiet : (force : Bool) → Quiet (rotate_certs services force)
  unfolding rotate_certs
  rotate_certs-Quiet force env t =
      let (contour, registry, proxy, kubelet, all, lb, enable, ensure) = quiet in
      grind (arith, check_rotate_certs_due-Quiet, contour, registry, proxy, kubelet, all)

  reconcile_kotsadm-Quiet : Quiet (reconcile_kotsadm services)
  unfolding reconcile_kotsadm
  reconcile_kotsadm-Quiet env t =
      let (contour, registry, proxy, kubelet, all, lb, enable, ensure) = quiet in
      grind (arith, enable)

  reconcile_rook_cluster-Quiet : Quiet (reconcile_rook_cluster cfg services)
  unfolding reconcile_rook_cluster
  reconcile_rook_cluster-Quiet env t =
      let (contour, registry, proxy, kubelet, all, lb, enable, ensure) = quiet in
      grind (arith, ensure)

  reconcile_cluster-Quiet :
      (rook_version : Option Version) (nodes : List Node) (full : Bool) (errs : Option Error)
      → Quiet (reconcile_cluster cfg services rook_version nodes full errs)
  unfolding reconcile_cluster
  reconcile_cluster-Quiet rook_version nodes full errs env t =
      let (contour, registry, proxy, kubelet, all, lb, enable, ensure) = quiet in
      grind (arith, reconcile_rook-Quiet, rotate_certs-Quiet, lb, reconcile_prometheus-Quiet)

  reconcile_add_ons-Quiet : (errs : Option Error) → Quiet (reconcile_add_ons cfg services errs)
  unfolding reconcile_add_ons
  reconcile_add_ons-Quiet errs env t = grind (
    arith, restart_failed_envoy_pods-Quiet, reconcile_csrs-Quiet, reconcile_kotsadm-Quiet,
    reconcile_rook_cluster-Quiet,
  )

  pub after_nodes-Quiet :
      (rook_version : Option Version) (nodes : List Node) (full : Bool) (errs : Option Error)
      → Quiet (after_nodes cfg services rook_version nodes full errs)
  after_nodes-Quiet rook_version nodes full errs env t =
      grind (arith, reconcile_cluster-Quiet, reconcile_add_ons-Quiet)
