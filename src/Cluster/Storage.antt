-- ===== src/Cluster/Storage.antt =====
-- pkg/cluster/rook_ceph.go: the CephCluster's storage nodes, the hosts with an OSD, and the removal
-- of a host's OSD.
pub mod Hosts
pub mod Nodes
use ekco.Prelude.{
  ℕ, String, Bool, false, not, Option, none, some, List, [], ◌∷◌, ◌++◌, map, ◌==◌, eqb,
  if◌then◌else◌, length, any, select, is_empty, lookup,
}
use ekco.Errors.{Result, failure, wrapped, ok, err}
use ekco.Kube.{
  Pod, Workload, ExecResult, Version, StorageNode, CephCluster, JsonPatch, word, bool_value,
  nodes_value, Call, Action, pure, raise, lift, wrap, send, ◌>>=◌, ◌>>◌, expect, done, when,
}
use ekco.Cluster.Versions.{rook_ceph_ns}
use ekco.Cluster.Exec.{rook_ceph_exec_target}
use ekco.Cluster.Daemons.{json_patch_ceph_cluster, get_ceph_cluster}
use ekco.Cluster.Storage.Hosts.{parse_ceph_osd_status_hosts}

abbrev pub is_storage_node : List StorageNode → String → Bool
is_storage_node nodes name = any (λ node. node.name == name) nodes

-- The names that the loop of `UseNodesForStorage` appends.
abbrev pub added_names : List StorageNode → List String → List String
added_names nodes names = select (λ name. not (is_storage_node nodes name)) names

abbrev pub bare_node : String → StorageNode
bare_node name = record { name = name; config = [] }

abbrev pub with_names : List StorageNode → List String → List StorageNode
with_names nodes names = nodes ++ map bare_node (added_names nodes names)

abbrev pub nodes_patch : List StorageNode → JsonPatch
nodes_patch nodes = record {
  op = "replace";
  path = word "/spec/storage/nodes" ∷ [];
  value = nodes_value nodes;
}

abbrev pub use_all_nodes_patch : JsonPatch
use_all_nodes_patch = record {
  op = "replace";
  path = word "/spec/storage/useAllNodes" ∷ [];
  value = bool_value false;
}

abbrev status_hosts : ExecResult × Result (Unit {0}) → Action ℕ
status_hosts (r, err e) = raise (wrapped "exec ceph osd status" e)
status_hosts (r, ok _) =
    if eqb r.exit_code 0
    then pure (length (parse_ceph_osd_status_hosts r.stdout))
    else raise (failure "exec `ceph osd status`")

abbrev count_in_first : String → List Pod → Action ℕ
count_in_first container [] = raise (failure "found no Rook pods for executing ceph commands")
count_in_first container (pod ∷ pods) = do
  out ← send (
      Call.exec_container rook_ceph_ns pod.name container
        (word "ceph" ∷ word "osd" ∷ word "status" ∷ []))
  status_hosts out

unfoldable pub count_unique_hosts_with_osd : Version → Action ℕ
count_unique_hosts_with_osd rook_version = do
  (container, rook_labels) ← rook_ceph_exec_target rook_version
  pods ← expect "list Rook pods" (send (Call.list_pods rook_ceph_ns rook_labels))
  count_in_first container pods

-- The block that changes the CephCluster, before the hosts are counted.
unfoldable pub add_storage_nodes : CephCluster → List String → Action (Unit {0})
add_storage_nodes cluster names = when (not (is_empty (added_names cluster.storage_nodes names))) (
    wrap "patch CephCluster with new storage node list" (
      json_patch_ceph_cluster
        (nodes_patch (with_names cluster.storage_nodes names) ∷ use_all_nodes_patch ∷ [])))

unfoldable pub use_nodes_for_storage : Version → CephCluster → List String → Bool → Action ℕ
use_nodes_for_storage rook_version cluster names manage_nodes = do
  when (not manage_nodes) (add_storage_nodes cluster names)
  count_unique_hosts_with_osd rook_version

abbrev pub without_node : List StorageNode → String → List StorageNode
without_node nodes name = select (λ node. not (node.name == name)) nodes

unfoldable pub remove_ceph_cluster_storage_node : String → Action (Unit {0})
remove_ceph_cluster_storage_node name = do
  cluster ← wrap "get CephCluster config" get_ceph_cluster
  when (is_storage_node cluster.storage_nodes name) (
      wrap "patch CephCluster with new storage node list"
        (json_patch_ceph_cluster (nodes_patch (without_node cluster.storage_nodes name) ∷ [])))

-- `m[k]`, which is "" for a missing key
abbrev pub value_or_empty : Option String → String
value_or_empty none = ""
value_or_empty (some s) = s

abbrev delete_osd : Workload → Action String
delete_osd deploy = do
  expect "delete deployment" (send (Call.delete_deployment rook_ceph_ns deploy.name))
  pure (value_or_empty (lookup "ceph-osd-id" deploy.labels))

-- The first OSD deployment of the host is deleted; the result is its osd id.
unfoldable pub delete_first_osd : String → List Workload → Action String
delete_first_osd name [] = pure ""
delete_first_osd name (deploy ∷ deploys) =
    let rest = delete_first_osd name deploys in
    if value_or_empty (lookup "kubernetes.io/hostname" deploy.node_selector) == name
    then delete_osd deploy
    else rest

unfoldable pub delete_k8s_deployment_osd : String → Action String
unfolding delete_first_osd
delete_k8s_deployment_osd name = do
  deploys ←
      expect "list Rook OSD deployments"
        (send (Call.list_deployments rook_ceph_ns "app=rook-ceph-osd"))
  delete_first_osd name deploys

-- Here the exit code is looked at before the error.
abbrev pub check_purge : String → ExecResult × Result (Unit {0}) → Action (Unit {0})
check_purge note (r, fault) =
    if eqb r.exit_code 0 then wrap "ceph osd purge" (lift fault) else raise (failure note)

-- With no pod `execCephOSDPurge` returns `errors.Wrapf(err, …)` of a nil `err`, which is nil.
abbrev purge_in_first : String → String → String → List Pod → Action (Unit {0})
purge_in_first container osd_id hostname [] = done
purge_in_first container osd_id hostname (pod ∷ pods) = do
  send (
      Call.exec_container rook_ceph_ns pod.name container
        (word "ceph" ∷ word "osd" ∷ word "down" ∷ word osd_id ∷ []))
  purged ← send (
      Call.exec_container rook_ceph_ns pod.name container (
        word "ceph" ∷ word "osd" ∷ word "purge" ∷ word osd_id ∷ word "--yes-i-really-mean-it" ∷ []))
  check_purge "failed to purge OSD" purged
  removed ← send (
      Call.exec_container rook_ceph_ns pod.name container
        (word "ceph" ∷ word "osd" ∷ word "crush" ∷ word "rm" ∷ word hostname ∷ []))
  check_purge "failed to rm from crush map" removed

unfoldable pub exec_ceph_osd_purge : Version → String → String → Action (Unit {0})
exec_ceph_osd_purge rook_version osd_id hostname = do
  (container, rook_labels) ← rook_ceph_exec_target rook_version
  pods ← expect "list Rook tools pods" (send (Call.list_pods rook_ceph_ns rook_labels))
  purge_in_first container osd_id hostname pods

unfoldable pub purge_ceph_osd : Version → String → Action (Unit {0})
purge_ceph_osd rook_version name = do
  remove_ceph_cluster_storage_node name
  osd_id ← delete_k8s_deployment_osd name
  when (not (osd_id == "")) (exec_ceph_osd_purge rook_version osd_id name)
