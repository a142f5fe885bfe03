-- ===== src/Ekcoops/Operator.antt =====
-- pkg/ekcoops/operator.go: `Reconcile` and its remaining parts. `o.mtx` makes calls of `Reconcile`
-- exclude one another, so each is one action.
pub mod Purges
pub mod Csrs
pub mod Minio
pub mod Quiet
pub mod Limits
pub mod Rotation
use ekco.Prelude.{
  ℕ, ◌+◌, Bool, true, false, not, ◌&&◌, Option, none, some, List, [], ◌∷◌, ◌++◌, ◌==◌, ltb, leb,
  if◌then◌else◌, length, is_empty,
}
use ekco.Errors.{is_not_found_err, Error, Result, failure, wrapped, ok, err}
use ekco.Kube.{
  Node, Workload, Csr, Version, Call, minio, kotsadm, Action, pure, raise, lift, attempt, wrap,
  send, ◌>>=◌, ◌>>◌, expect, done, when, report,
}
use ekco.Util.Node.{node_ready_counts}
use ekco.Cluster.RookVersion.{get_rook_version}
use ekco.Cluster.Certs.{check_rotate_certs_due}
use ekco.Cluster.Envoy.{restart_failed_envoy_pods}
use ekco.Ekcoops.Config.{Config, Services}
use ekco.Ekcoops.Prometheus.{reconcile_prometheus}
use ekco.Ekcoops.Nodes.{reconcile_node}
use ekco.Ekcoops.RookStorage.{add_plain, tried, tried_if, reconcile_rook}

-- Every step runs, and the failures are collected.
abbrev rotate_when_due : Services → Bool → Action (Unit {0})
rotate_when_due services false = done
rotate_when_due services true = do
  errs ← tried "rotate contour certs" none services.rotate_contour_certs
  errs ← tried "rotate registry cert" errs services.rotate_registry_cert
  errs ← tried "rotate kurl proxy cert" errs services.rotate_kurl_proxy_cert
  errs ←
      tried "update kotsadm kubelet client cert secret" errs
        services.update_kubelet_client_cert_secret
  errs ← tried "rotate certs on primaries" errs services.rotate_all_certs
  report errs

-- `RotateCerts`
unfoldable pub rotate_certs : Services → Bool → Action (Unit {0})
rotate_certs services force = do
  due ←
      wrap "check if it's time to run cert rotation jobs"
        (check_rotate_certs_due services.controller force)
  rotate_when_due services due

abbrev pub approved : Csr → Csr
approved csr = record csr { conditions = csr.conditions ++ "ekcoApprove" ∷ [] }

-- A kubelet's serving request that is neither decided nor signed.
abbrev pub needs_approval : Csr → Bool
needs_approval csr =
    csr.signer_name == "kubernetes.io/kubelet-serving"
    && (is_empty csr.conditions && is_empty csr.certificate)

unfoldable pub approve_all : List Csr → Action (Unit {0})
approve_all [] = done
approve_all (csr ∷ csrs) = do
  when (needs_approval csr) (expect "approve csr" (send (Call.update_approval (approved csr))))
  approve_all csrs

unfoldable pub reconcile_certificate_signing_requests : Action (Unit {0})
reconcile_certificate_signing_requests = do
  csrs ← expect "list csrs" (send Call.list_csrs)
  approve_all csrs

-- `m+w` of `NodeReadyCounts`
abbrev pub ready_total : List Node → ℕ
ready_total nodes = (node_ready_counts nodes).0 + (node_ready_counts nodes).1

-- The minio deployment without replicas is gone, is there, or could not be read.
abbrev move_to_ha : Config → Services → Result Workload → Action (Unit {0})
move_to_ha cfg services (ok deployment) =
    wrap "migrate data to ha minio" (services.migrate_minio_data cfg.minio_namespace)
move_to_ha cfg services (err e) =
    if is_not_found_err e
    then wrap "ensure ha minio svc" (services.ensure_ha_minio_svc cfg.minio_namespace)
    else raise (wrapped "get minio deployment" e)

abbrev scale_and_move : Config → Services → Action (Unit {0})
scale_and_move cfg services = do
  wrap "scale minio statefulset" (services.scale_minio_statefulset cfg.minio_namespace)
  found ← send (Call.get_deployment cfg.minio_namespace "minio")
  move_to_ha cfg services found

abbrev manage_minio : Config → Services → Bool → Action (Unit {0})
manage_minio cfg services false = done
manage_minio cfg services true = do
  nodes ← expect "list nodes" (send Call.list_nodes)
  when (leb 3 (ready_total nodes)) (scale_and_move cfg services)
  wrap "rebalance minio servers" (services.maybe_rebalance_minio_servers cfg.minio_namespace)

-- What runs between `TryLock` and the deferred `Unlock`.
unfoldable pub locked_minio : Config → Services → Action (Unit {0})
locked_minio cfg services = do
  exists ←
      wrap "determine if ha-minio exists to be managed"
        (services.does_ha_minio_exist cfg.minio_namespace)
  manage_minio cfg services exists

-- `defer minioMutex.Unlock()` runs whether or not there was an error.
abbrev unlock_after : Action (Unit {0}) → Action (Unit {0})
unlock_after m = do r ← attempt m; send Call.unlock_minio; lift r

unfoldable pub reconcile_minio : Config → Services → Action (Unit {0})
reconcile_minio cfg services = do
  stopped ← send (Call.read_paused minio)
  if stopped then done else do
    locked ← send Call.try_lock_minio
    when locked (unlock_after (locked_minio cfg services))

unfoldable pub reconcile_kotsadm : Services → Action (Unit {0})
reconcile_kotsadm services = do
  stopped ← send (Call.read_paused kotsadm)
  if stopped then done else do
    nodes ← expect "list nodes" (send Call.list_nodes)
    when (leb 3 (ready_total nodes)) (wrap "enable HA kotsadm" services.enable_ha_kotsadm)

unfoldable pub reconcile_rook_cluster : Config → Services → Action (Unit {0})
reconcile_rook_cluster cfg services = do
  nodes ← expect "list nodes" (send Call.list_nodes)
  when (leb cfg.rook_minimum_node_count (ready_total nodes))
      (wrap "ensure ceph cluster" services.ensure_ceph_cluster)

-- A version that cannot be read is only logged.
abbrev pub version_if_any : Result Version → Option Version
version_if_any (ok v) = some v
version_if_any (err e) = none

-- The loop over the nodes; a failure does not stop it.
unfoldable pub reconcile_nodes :
    Config → ℕ × ℕ → Option Version → Option Error → List Node → Action (Option Error)
reconcile_nodes cfg ready rook_version errs [] = pure errs
reconcile_nodes cfg ready rook_version errs (node ∷ nodes) = do
  errs' ← tried "reconcile node" errs (reconcile_node cfg ready rook_version node)
  reconcile_nodes cfg ready rook_version errs' nodes

abbrev rook_if_any :
    Config → Option Version → List Node → Bool → Option Error → Action (Option Error)
rook_if_any cfg none nodes full errs = pure errs
rook_if_any cfg (some v) nodes full errs = do
  r ← attempt (reconcile_rook cfg v nodes full)
  pure (add_plain errs r)

-- What `Reconcile` tries after the nodes, up to Prometheus.
unfoldable pub reconcile_cluster :
    Config → Services → Option Version → List Node → Bool → Option Error → Action (Option Error)
reconcile_cluster cfg services rook_version nodes full errs = do
  errs ← rook_if_any cfg rook_version nodes full errs
  errs ← tried_if (cfg.rotate_certs && full) "rotate certs" errs (rotate_certs services false)
  errs ←
      tried_if cfg.enable_internal_load_balancer "update internal loadbalancer" errs
        (services.reconcile_internal_lb nodes)
  tried "failed to reconcile prometheus" errs (reconcile_prometheus (length nodes))

-- The steps from the envoy pods on.
unfoldable pub reconcile_add_ons : Config → Services → Option Error → Action (Option Error)
reconcile_add_ons cfg services errs = do
  errs ←
      tried "failed to reconcile failed envoy pod" errs
        (restart_failed_envoy_pods services.controller)
  errs ←
      tried_if cfg.auto_approve_kubelet_csrs "reconcile csrs" errs
        reconcile_certificate_signing_requests
  started ← if cfg.enable_ha_minio then send Call.start_minio_reconcile else pure (ok tt)
  errs ← tried_if cfg.enable_ha_kotsadm "reconcile kotsadm" errs (reconcile_kotsadm services)
  tried_if (ltb 2 cfg.rook_minimum_node_count) "reconcile rook cluster" errs
      (reconcile_rook_cluster cfg services)

abbrev pub after_nodes :
    Config → Services → Option Version → List Node → Bool → Option Error → Action (Unit {0})
after_nodes cfg services rook_version nodes full errs = do
  errs ← reconcile_cluster cfg services rook_version nodes full errs
  errs ← reconcile_add_ons cfg services errs
  report errs

unfoldable pub reconcile : Config → Services → List Node → Bool → Action (Unit {0})
reconcile cfg services nodes full = do
  read ← attempt get_rook_version
  let rook_version = version_if_any read
  errs ← reconcile_nodes cfg (node_ready_counts nodes) rook_version none nodes
  after_nodes cfg services rook_version nodes full errs
