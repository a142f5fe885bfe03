-- ===== src/Cluster/PurgeNode.antt =====
-- pkg/cluster/purge_node.go: `PurgeNode`.
pub mod MasterGone
pub mod Order
use ekco.Prelude.{
  String, Bool, true, not, ◌||◌, Option, none, some, ◌==◌, if◌then◌else◌, is_some, is_empty, lookup,
}
use ekco.Errors.{filter_out_reason_not_found_err, Result, failure, wrapped, ok, err}
use ekco.Kube.{
  Node, Version, Call, Action, pure, raise, attempt, wrap, send, ◌>>=◌, ◌>>◌, expect, done, when,
}
use ekco.Util.Node.{master_role_label, control_plane_role_label, node_internal_ip}
use ekco.Cluster.Storage.{purge_ceph_osd}
use ekco.Cluster.Kubeadm.{remove_kubeadm_endpoint, get_endpoint_ips_from_pods}
use ekco.Cluster.Etcd.{remove_etcd_peer}

-- The Node, or `none` if the server does not have it.
abbrev find_node : Result Node → Action (Option Node)
find_node (ok node) = pure (some node)
find_node (err e) = elim (filter_out_reason_not_found_err e) [
  | none ↦ pure none
  | some c ↦ raise (wrapped "get Node" e)
]

-- A node that is gone may have been a master.
unfoldable pub maybe_master : Option Node → Bool
maybe_master none = true
maybe_master (some node) =
    is_some (lookup master_role_label node.labels)
    || is_some (lookup control_plane_role_label node.labels)

abbrev pub internal_ip_if_known : Option Node → String
internal_ip_if_known none = ""
internal_ip_if_known (some node) = node_internal_ip node

-- The block under `if maybeMaster`.
unfoldable pub remove_master : String → Option Node → Action (Unit {0})
remove_master name node = do
  (removed_ip, endpoint_ips) ← remove_kubeadm_endpoint name
  remaining_ips ←
      if is_empty endpoint_ips
      then wrap "could not get cluster endpoints from pods" get_endpoint_ips_from_pods
      else pure endpoint_ips
  let ip = if removed_ip == "" then internal_ip_if_known node else removed_ip
  when (not (ip == "")) (remove_etcd_peer ip remaining_ips)

-- A failure to purge the OSD is only logged.
unfoldable pub purge_osd_if : String → Bool → Option Version → Action (Unit {0})
purge_osd_if name rook none = done
purge_osd_if name rook (some rook_version) =
    when rook do attempt (purge_ceph_osd rook_version name); done

abbrev pub delete_if_found : String → Option Node → Action (Unit {0})
delete_if_found name none = done
delete_if_found name (some node) = do
  expect "delete Kubernetes Node object" (send (Call.delete_node name))

unfoldable pub purge_node : String → Bool → Option Version → Action (Unit {0})
purge_node name rook rook_version = do
  found ← send (Call.get_node name)
  node ← find_node found
  purge_osd_if name rook rook_version
  when (maybe_master node) (remove_master name node)
  delete_if_found name node
