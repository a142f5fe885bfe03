-- ===== src/Cluster/Rook.antt =====
-- pkg/cluster/rook_ceph.go: the placement of the metadata servers and the priority of Rook's workloads.
use ekco.Prelude.{ℕ, String, ◌||◌, Option, none, some, List, [], ◌∷◌, ◌==◌, leb, eqb, if◌then◌else◌}
use ekco.Errors.{is_not_found_err, Result, wrapped, ok, err}
use ekco.Kube.{Workload, CephFilesystem, Call, Action, raise, send, ◌>>=◌, ◌>>◌, expect, done, when}
use ekco.Cluster.Versions.{rook_ceph_ns}

abbrev patch_if_lenient : String → Option ℕ → Action (Unit {0})
patch_if_lenient name none = done
patch_if_lenient name (some rules) =
    when (eqb rules 2) (expect "patch cephfilesystem" (send (Call.merge_patch_filesystem name)))

abbrev placement_of : String → Result CephFilesystem → Action (Unit {0})
placement_of name (ok fs) = patch_if_lenient name fs.preferred_rules
placement_of name (err e) =
    if is_not_found_err e then done else raise (wrapped "get cephfilesystem" e)

unfoldable pub patch_filesystem_mds_placement_multinode : String → ℕ → Action (Unit {0})
patch_filesystem_mds_placement_multinode name num_nodes =
    if name == "" || leb num_nodes 1
    then done
    else do found ← send (Call.get_filesystem name); placement_of name found

abbrev with_priority : String → Workload → Workload
with_priority class w = record w { priority_class_name = class }

abbrev agent_priority : String → Result Workload → Action (Unit {0})
agent_priority class (ok agent) = when (agent.priority_class_name == "") (
    expect "update rook-ceph-agent priority"
      (send (Call.update_daemon_set rook_ceph_ns (with_priority class agent))))
agent_priority class (err e) =
    if is_not_found_err e then done else raise (wrapped "get rook-ceph-agent daemonset" e)

unfoldable pub prioritize_rook_agent : String → Action (Unit {0})
prioritize_rook_agent class = do
  found ← send (Call.get_daemon_set rook_ceph_ns "rook-ceph-agent")
  agent_priority class found

-- At most one deployment, the first without a priority class, is changed.
unfoldable pub prioritize_first : String → List Workload → Action (Unit {0})
prioritize_first class [] = done
prioritize_first class (deployment ∷ deployments) =
    let rest = prioritize_first class deployments in
    if deployment.priority_class_name == ""
    then (expect "update priority class"
        (send (Call.update_deployment rook_ceph_ns (with_priority class deployment))))
    else rest

unfoldable pub prioritize_rook_deployments : String → String → Action (Unit {0})
prioritize_rook_deployments class selector = do
  deployments ← expect "list deployments" (send (Call.list_deployments rook_ceph_ns selector))
  prioritize_first class deployments

unfoldable pub prioritize_all : String → List String → Action (Unit {0})
prioritize_all class [] = done
prioritize_all class (selector ∷ selectors) = do
  prioritize_rook_deployments class selector
  prioritize_all class selectors

abbrev pub rook_selectors : List String
rook_selectors =
    "app=rook-ceph-osd" ∷ "app=rook-ceph-mds" ∷ "app=rook-ceph-mgr" ∷ "app=rook-ceph-mon" ∷ []

unfoldable pub prioritize_rook : String → Action (Unit {0})
unfolding prioritize_all
prioritize_rook class = do prioritize_rook_agent class; prioritize_all class rook_selectors
