-- ===== src/Cluster/PurgeNode/Order.antt =====
-- The order of the steps of `PurgeNode`: the Node object is deleted last, and only once its etcd member
-- is gone.
use mathlib.Core.Path.{subst}
use ekco.Prelude.{
  String, ◌≡◌, refl, sym, ◌∙◌, ◌⊎◌, inl, inr, Bool, true, Option, none, some, List, [], ◌∷◌, arith,
  Bool-cases, Option-cases,
}
use ekco.Errors.{filter_out_reason_not_found_err, Result, ok, err}
use ekco.Kube.{
  bind-ok, Result-cases, Node, Pod, Workload, Version, Call, Trace, Action, ◌>>=◌, ◌>>◌, when, Env,
}
use ekco.Cluster.Storage.{
  delete_first_osd, delete_k8s_deployment_osd, remove_ceph_cluster_storage_node,
  exec_ceph_osd_purge, purge_ceph_osd,
}
use ekco.Cluster.Kubeadm.{pod_endpoints, get_endpoint_ips_from_pods, remove_kubeadm_endpoint}
use ekco.Cluster.Etcd.{remove_etcd_peer}
use ekco.Cluster.PurgeNode.MasterGone.{MasterGone, remove_master-MasterGone}
use ekco.Cluster.PurgeNode.{
  find_node, maybe_master, remove_master, purge_osd_if, delete_if_found, purge_node,
}

abbrev pub add_deletion : Call → List String → List String
add_deletion (Call.delete_node name) names = name ∷ names
add_deletion _ names = names

-- The names of the Node objects that were deleted, or whose deletion was tried, newest first.
abbrev pub deletions : Trace → List String
deletions [] = []
deletions (c ∷ t) = add_deletion c (deletions t)

-- Under every answer, the action deletes no Node object.
abbrev pub Quiet : {A : Type 0} → Action A → Type 0
Quiet m = (env : Env) (t : Trace) → deletions (m env t).1 ≡ deletions t

pod_endpoints-Quiet : (pods : List Pod) → Quiet (pod_endpoints pods)
unfolding pod_endpoints
pod_endpoints-Quiet [] env t = refl
pod_endpoints-Quiet (pod ∷ pods) env t = ground (arith, pod_endpoints-Quiet pods env t)

get_endpoint_ips_from_pods-Quiet : Quiet get_endpoint_ips_from_pods
unfolding get_endpoint_ips_from_pods
get_endpoint_ips_from_pods-Quiet env t = grind (arith, pod_endpoints-Quiet)

remove_kubeadm_endpoint-Quiet : (name : String) → Quiet (remove_kubeadm_endpoint name)
unfolding remove_kubeadm_endpoint
remove_kubeadm_endpoint-Quiet name env t = ground arith

remove_etcd_peer-Quiet : (ip : String) (ips : List String) → Quiet (remove_etcd_peer ip ips)
unfolding remove_etcd_peer
remove_etcd_peer-Quiet ip ips env t = ground arith

remove_master-Quiet : (name : String) (found : Option Node) → Quiet (remove_master name found)
unfolding remove_master
remove_master-Quiet name found env t =
    grind (
      arith, remove_kubeadm_endpoint-Quiet, get_endpoint_ips_from_pods-Quiet,
      remove_etcd_peer-Quiet,
    )

remove_ceph_cluster_storage_node-Quiet :
    (name : String) → Quiet (remove_ceph_cluster_storage_node name)
unfolding remove_ceph_cluster_storage_node
remove_ceph_cluster_storage_node-Quiet name env t = ground arith

delete_first_osd-Quiet :
    (name : String) (deploys : List Workload) → Quiet (delete_first_osd name deploys)
unfolding delete_first_osd
delete_first_osd-Quiet name [] env t = refl
delete_first_osd-Quiet name (deploy ∷ deploys) env t =
    ground (arith, delete_first_osd-Quiet name deploys env t)

delete_k8s_deployment_osd-Quiet : (name : String) → Quiet (delete_k8s_deployment_osd name)
unfolding delete_k8s_deployment_osd
delete_k8s_deployment_osd-Quiet name env t = grind (arith, delete_first_osd-Quiet)

exec_ceph_osd_purge-Quiet :
    (rook_version : Version) (osd_id name : String)
    → Quiet (exec_ceph_osd_purge rook_version osd_id name)
unfolding exec_ceph_osd_purge
exec_ceph_osd_purge-Quiet rook_version osd_id name env t = ground arith

purge_ceph_osd-Quiet :
    (rook_version : Version) (name : String) → Quiet (purge_ceph_osd rook_version name)
unfolding purge_ceph_osd
purge_ceph_osd-Quiet rook_version name env t = grind (
  arith, remove_ceph_cluster_storage_node-Quiet, delete_k8s_deployment_osd-Quiet,
  exec_ceph_osd_purge-Quiet,
)

-- Nothing that goes wrong with the OSD stops the purge.
purge_osd_if-ok :
    (name : String) (rook : Bool) (rook_version : Option Version) (env : Env) (t : Trace)
    → ((purge_osd_if name rook rook_version env t).0 ≡ ok tt)
      × (deletions (purge_osd_if name rook rook_version env t).1 ≡ deletions t)
unfolding purge_osd_if
purge_osd_if-ok name rook none env t = (refl, refl)
purge_osd_if-ok name rook (some v) env t = ground (arith, purge_ceph_osd-Quiet v name env t)

-- What a purge from `t` to `t'` has done to the Node object: it was not touched, or its deletion is the
-- last call, after a node that may be a master was taken out of the API endpoints and of etcd.
abbrev pub DeletedLast : String → Option Node → Env → Trace → Trace → Type 0
DeletedLast name node env t t' =
    (deletions t' ≡ deletions t)
    ⊎ ((u : Trace) × (s : Trace) × (t' ≡ Call.delete_node name ∷ s)
        × (deletions s ≡ deletions t)
        × (maybe_master node ≡ true → MasterGone name node env u s))

abbrev rest_of_purge : String → Option Node → Action (Unit {0})
rest_of_purge name node = do
  when (maybe_master node) (remove_master name node)
  delete_if_found name node

rest_of_purge-DeletedLast :
    (name : String) (found : Option Node) (env : Env) (u : Trace)
    → DeletedLast name found env u (rest_of_purge name found env u).1
rest_of_purge-DeletedLast name none env u =
    inl (ground (arith, remove_master-Quiet name none env u))
rest_of_purge-DeletedLast name (some node) env u = elim (Bool-cases (maybe_master (some node))) [
  | inl master ↦ elim (Result-cases (remove_master name (some node) env u).0) [
    | inl removed ↦ inr (
      u,
      (remove_master name (some node) env u).1,
      ground arith,
      remove_master-Quiet name (some node) env u,
      λ m.
          remove_master-MasterGone name (some node) env u (remove_master name (some node) env u).1
            (ground arith),
    )
    | inr (e, broken) ↦ inl (ground (arith, remove_master-Quiet name (some node) env u))
  ]
  | inr worker ↦ inr (u, u, ground arith, refl, λ m. cc)
]

-- The Node that `PurgeNode` works with.
abbrev pub node_of : Result Node → Option Node
node_of (ok node) = some node
node_of (err e) = none

DeletedLast-from :
    (name : String) (found : Option Node) (env : Env) (t u t' : Trace)
    → deletions u ≡ deletions t
    → DeletedLast name found env u t'
    → DeletedLast name found env t t'
DeletedLast-from name found env t u t' same (inl quiet) = inl (quiet ∙ same)
DeletedLast-from name found env t u t' same (inr (v, s, last, none_before, removed)) =
    inr (v, s, last, none_before ∙ same, removed)

abbrev purge_found : String → Bool → Option Version → Option Node → Action (Unit {0})
purge_found name rook rook_version found = do
  purge_osd_if name rook rook_version
  rest_of_purge name found

purge_found-DeletedLast :
    (name : String) (rook : Bool) (rook_version : Option Version) (found : Option Node) (env : Env)
    (t : Trace)
    → DeletedLast name found env t (purge_found name rook rook_version found env t).1
purge_found-DeletedLast name rook rook_version found env t =
    let (worked, quiet) = purge_osd_if-ok name rook rook_version env t in
    let u = (purge_osd_if name rook rook_version env t).1 in
    let steps =
      bind-ok (purge_osd_if name rook rook_version) (λ _. rest_of_purge name found) env t tt
        worked in
    subst (λ r. DeletedLast name found env t r.1) (sym steps)
      (DeletedLast-from name found env t u (rest_of_purge name found env u).1 quiet
        (rest_of_purge-DeletedLast name found env u))

find_node-DeletedLast :
    (name : String) (rook : Bool) (rook_version : Option Version) (r : Result Node) (env : Env)
    (t : Trace)
    → DeletedLast name
        (node_of r)
        env
        t
        ((find_node r >>= purge_found name rook rook_version) env t).1
find_node-DeletedLast name rook rook_version (ok n) env t =
    purge_found-DeletedLast name rook rook_version (some n) env t
find_node-DeletedLast name rook rook_version (err e) env t =
    elim (Option-cases (filter_out_reason_not_found_err e)) [
      | inl missing ↦
          rw (missing, find_node) (purge_found-DeletedLast name rook rook_version none env t)
      | inr (c, kept) ↦ rw (kept, find_node) (inl refl)
    ]

pub purge_node-DeletedLast :
    (name : String) (rook : Bool) (rook_version : Option Version) (env : Env) (t : Trace)
    → DeletedLast name
        (node_of (env.answer (Call.get_node name) t))
        env
        t
        (purge_node name rook rook_version env t).1
unfolding purge_node
purge_node-DeletedLast name rook rook_version env t =
    let asked = Call.get_node name ∷ t in
    let found = env.answer (Call.get_node name) t in
    DeletedLast-from name (node_of found) env t asked (purge_node name rook rook_version env t).1
      refl (find_node-DeletedLast name rook rook_version found env asked)
