-- ===== src/Ekcoops/Controller/Quiet.antt =====
-- The operations of the controller delete no Node object.
use ekco.Prelude.{
  ℕ, zero, suc, String, refl, Bool, true, false, List, [], ◌∷◌, arith, ◌==◌, if◌then◌else◌,
}
use ekco.Kube.{Fields, Node, Pod, Secret, TaskPod, Certificate, Call, Action, raise, send, done}
use ekco.Cluster.PurgeNode.Order.{Quiet}
use ekco.Cluster.Config.{ControllerConfig}
use ekco.Cluster.ContourCerts.{
  ReadCerts, parse_one, read_contour_certs, should_rotate_contour_certs, update_contour_certs,
  rotate_contour_certs,
}
use ekco.Cluster.RegistryCert.{
  CertConfig, cert_to_config, new_signed_cert, generate_new_cert_and_key, read_registry_cert,
  update_registry_cert, renew, rotate_registry_cert,
}
use ekco.Cluster.Kotsadm.{
  scale_kotsadm_rqlite, rotate_kurl_proxy_cert, update_kubelet_client_cert_secret,
}
use ekco.Cluster.Quiet.{then-Quiet}
use ekco.Cluster.Tasks.{
  phase_of, pod_failed, delete_pods, poll, poll_for_pod_completed, run_task, rotate_on, primaries,
  rotate_all_certs,
}
use ekco.Cluster.InternalLb.{
  update_nodes, sighup_all, sighup_pods, update_internal_lb, reconcile_internal_lb,
}
use ekco.Helm.{latest_chart_by_name, new_helm_manager, get_release, install_chart_archive}
use ekco.Cluster.EnsureCeph.{ensure_ceph_cluster_helm, ensure_ceph_cluster}
use ekco.Ekcoops.Operator.Quiet.{QuietServices}
use ekco.Ekcoops.Controller.{controller_services}

if-Quiet : (b : Bool) (m n : Action (Unit {0})) → Quiet m → Quiet n → Quiet (if b then m else n)
if-Quiet true m n first second env t = first env t
if-Quiet false m n first second env t = second env t

abbrev unless_failed : String → Action (Unit {0}) → Action (Unit {0})
unless_failed phase m = if phase == "Failed" then raise pod_failed else m

poll-Quiet : (ns name : String) (waits : ℕ) → Quiet (poll ns name waits)
unfolding poll
poll-Quiet ns name zero = λ env t. refl
poll-Quiet ns name (suc waits) =
    let again = poll ns name waits in
    then-Quiet
      (λ found.
        if phase_of found == "Succeeded" then done else unless_failed (phase_of found) again)
      (λ found.
        if-Quiet (phase_of found == "Succeeded") done (unless_failed (phase_of found) again)
          (λ env t. refl)
          (if-Quiet (phase_of found == "Failed") (raise pod_failed) again (λ env t. refl)
            (poll-Quiet ns name waits)))
      (send (Call.get_pod ns name)) (λ env t. refl)

run_task-Quiet : (note : String) (pod : TaskPod) → Quiet (run_task note pod)
unfolding run_task poll_for_pod_completed
run_task-Quiet note pod env t = grind (arith, poll-Quiet)

delete_pods-Quiet : (ns selector : String) → Quiet (delete_pods ns selector)
unfolding delete_pods
delete_pods-Quiet ns selector env t = ground arith

primaries-Quiet : Quiet primaries
unfolding primaries
primaries-Quiet env t = ground arith

parse_one-Quiet : (key : String) (s : Secret) → Quiet (parse_one key s)
unfolding parse_one
parse_one-Quiet key s env t = ground arith

read_contour_certs-Quiet :
    (ns contour_name envoy_name : String) → Quiet (read_contour_certs ns contour_name envoy_name)
unfolding read_contour_certs
read_contour_certs-Quiet ns contour_name envoy_name env t = grind (arith, parse_one-Quiet)

should_rotate-Quiet :
    (cfg : ControllerConfig) (read : ReadCerts) → Quiet (should_rotate_contour_certs cfg read)
unfolding should_rotate_contour_certs
should_rotate-Quiet cfg read env t = ground arith

update_contour_certs-Quiet :
    (ns contour_name envoy_name : String) → Quiet (update_contour_certs ns contour_name envoy_name)
unfolding update_contour_certs
update_contour_certs-Quiet ns contour_name envoy_name env t = ground arith

cert_to_config-Quiet : (cert : Certificate) → Quiet (cert_to_config cert)
unfolding cert_to_config
cert_to_config-Quiet cert env t = ground arith

new_signed_cert-Quiet : (config : CertConfig) (is_ca : Bool) → Quiet (new_signed_cert config is_ca)
unfolding new_signed_cert
new_signed_cert-Quiet config is_ca env t = ground arith

generate-Quiet : (config : CertConfig) → Quiet (generate_new_cert_and_key config)
unfolding generate_new_cert_and_key
generate-Quiet config env t = grind (arith, new_signed_cert-Quiet)

read_registry_cert-Quiet : (ns name : String) → Quiet (read_registry_cert ns name)
unfolding read_registry_cert
read_registry_cert-Quiet ns name env t = ground arith

update_registry_cert-Quiet :
    (ns name cert key : String) → Quiet (update_registry_cert ns name cert key)
unfolding update_registry_cert
update_registry_cert-Quiet ns name cert key env t = ground arith

renew-Quiet : (ns name : String) (cert : Certificate) → Quiet (renew ns name cert)
unfolding renew
renew-Quiet ns name cert env t =
    grind (arith, cert_to_config-Quiet, generate-Quiet, update_registry_cert-Quiet)

scale_kotsadm_rqlite-Quiet : (ns : String) (desired : ℕ) → Quiet (scale_kotsadm_rqlite ns desired)
unfolding scale_kotsadm_rqlite
scale_kotsadm_rqlite-Quiet ns desired env t = ground arith

sighup_all-Quiet : (ns container : String) (pods : List Pod) → Quiet (sighup_all ns container pods)
unfolding sighup_all
sighup_all-Quiet ns container [] env t = refl
sighup_all-Quiet ns container (pod ∷ pods) env t = sighup_all-Quiet ns container pods env _

sighup_pods-Quiet : (ns selector container : String) → Quiet (sighup_pods ns selector container)
unfolding sighup_pods
sighup_pods-Quiet ns selector container env t = grind (arith, sighup_all-Quiet)

latest_chart_by_name-Quiet : (name : String) → Quiet (latest_chart_by_name name)
unfolding latest_chart_by_name
latest_chart_by_name-Quiet name env t = ground arith

new_helm_manager-Quiet : (ns : String) → Quiet (new_helm_manager ns)
unfolding new_helm_manager
new_helm_manager-Quiet ns env t = ground arith

install_chart_archive-Quiet :
    (content : String) (values : Fields) (name ns : String)
    → Quiet (install_chart_archive content values name ns)
unfolding install_chart_archive get_release
install_chart_archive-Quiet content values name ns env t = ground arith

module _ (cfg : ControllerConfig) where
  rotate_contour_certs-Quiet : Quiet (rotate_contour_certs cfg)
  unfolding rotate_contour_certs
  rotate_contour_certs-Quiet env t =
      grind (arith, read_contour_certs-Quiet, should_rotate-Quiet, update_contour_certs-Quiet)

  rotate_registry_cert-Quiet : Quiet (rotate_registry_cert cfg)
  unfolding rotate_registry_cert
  rotate_registry_cert-Quiet env t = grind (arith, read_registry_cert-Quiet, renew-Quiet)

  rotate_kurl_proxy_cert-Quiet : Quiet (rotate_kurl_proxy_cert cfg)
  unfolding rotate_kurl_proxy_cert
  rotate_kurl_proxy_cert-Quiet env t = ground arith

  update_kubelet-Quiet : Quiet (update_kubelet_client_cert_secret cfg)
  unfolding update_kubelet_client_cert_secret
  update_kubelet-Quiet env t = ground arith

  rotate_on-Quiet : (nodes : List Node) → Quiet (rotate_on cfg nodes)
  unfolding rotate_on
  rotate_on-Quiet [] env t = refl
  rotate_on-Quiet (node ∷ nodes) env t = grind (arith, run_task-Quiet, rotate_on-Quiet nodes)

  rotate_all_certs-Quiet : Quiet (rotate_all_certs cfg)
  unfolding rotate_all_certs
  rotate_all_certs-Quiet env t = grind (arith, delete_pods-Quiet, primaries-Quiet, rotate_on-Quiet)

  update_nodes-Quiet :
      (hosts : List String) (nodes : List Node) → Quiet (update_nodes cfg hosts nodes)
  unfolding update_nodes
  update_nodes-Quiet hosts [] env t = refl
  update_nodes-Quiet hosts (node ∷ nodes) env t =
      grind (arith, run_task-Quiet, update_nodes-Quiet hosts nodes)

  update_internal_lb-Quiet : (nodes : List Node) → Quiet (update_internal_lb cfg nodes)
  unfolding update_internal_lb
  update_internal_lb-Quiet nodes env t =
      grind (arith, delete_pods-Quiet, update_nodes-Quiet, sighup_pods-Quiet)

  reconcile_internal_lb-Quiet : (nodes : List Node) → Quiet (reconcile_internal_lb cfg nodes)
  unfolding reconcile_internal_lb
  reconcile_internal_lb-Quiet nodes env t = grind (arith, update_internal_lb-Quiet)

  ensure_ceph_cluster_helm-Quiet : Quiet (ensure_ceph_cluster_helm cfg)
  unfolding ensure_ceph_cluster_helm
  ensure_ceph_cluster_helm-Quiet env t =
      grind (arith, latest_chart_by_name-Quiet, new_helm_manager-Quiet, install_chart_archive-Quiet)

  ensure_ceph_cluster-Quiet : Quiet (ensure_ceph_cluster cfg)
  unfolding ensure_ceph_cluster
  ensure_ceph_cluster-Quiet env t = grind (arith, ensure_ceph_cluster_helm-Quiet)

  pub controller_services-Quiet : QuietServices (controller_services cfg)
  controller_services-Quiet = (
    rotate_contour_certs-Quiet,
    rotate_registry_cert-Quiet,
    rotate_kurl_proxy_cert-Quiet,
    update_kubelet-Quiet,
    rotate_all_certs-Quiet,
    reconcile_internal_lb-Quiet,
    (λ env t. grind (arith, scale_kotsadm_rqlite-Quiet)),
    ensure_ceph_cluster-Quiet,
  )
