-- ===== src/Cluster/Storage/Nodes.antt =====
-- The list of storage nodes under additions and removals.
use ekco.Prelude.{
  String, true, not, List, [], ◌∷◌, ◌++◌, ◌≡◌, refl, ◌||◌, ◌&&◌, ◌==◌, eq_iff, map, All, any,
  if◌then◌else◌, arith, eq_refl,
}
use ekco.Errors.{ok}
use ekco.Kube.{StorageNode, CephCluster, Env, Trace, Call}
use ekco.Cluster.Storage.{
  is_storage_node, added_names, bare_node, with_names, without_node, add_storage_nodes,
  remove_ceph_cluster_storage_node, nodes_patch,
}

is_storage_node-append :
    (xs ys : List StorageNode) (name : String)
    → is_storage_node (xs ++ ys) name ≡ is_storage_node xs name || is_storage_node ys name
is_storage_node-append [] ys name = refl
is_storage_node-append (x ∷ xs) ys name = ground (arith, is_storage_node-append xs ys name)

is_storage_node-bare :
    (nodes : List StorageNode) (names : List String) (name : String)
    → is_storage_node (map bare_node (added_names nodes names)) name
      ≡ any (λ n. n == name) names && not (is_storage_node nodes name)
is_storage_node-bare nodes [] name = refl
is_storage_node-bare nodes (n ∷ names) name =
    ground (arith, eq_iff n name, is_storage_node-bare nodes names name)

-- After names are added, the storage nodes are the old ones and the names.
pub is_storage_node-with_names :
    (nodes : List StorageNode) (names : List String) (name : String)
    → is_storage_node (with_names nodes names) name
      ≡ is_storage_node nodes name || any (λ n. n == name) names
is_storage_node-with_names nodes names name = ground (
  arith,
  is_storage_node-append nodes (map bare_node (added_names nodes names)) name,
  is_storage_node-bare nodes names name,
)

added_names-nil :
    (nodes : List StorageNode) (names : List String)
    → All (λ name. is_storage_node nodes name ≡ true) names
    → added_names nodes names ≡ []
added_names-nil nodes [] h = refl
added_names-nil nodes (n ∷ names) h = ground (arith, added_names-nil nodes names h.1)

-- Every name of a part of the list is there once the whole list is added.
All-added :
    (nodes : List StorageNode) (names part : List String)
    → All (λ name. any (λ n. n == name) names ≡ true) part
    → All (λ name. is_storage_node (with_names nodes names) name ≡ true) part
All-added nodes names [] h = tt
All-added nodes names (p ∷ part) h =
    (ground (arith, is_storage_node-with_names nodes names p), All-added nodes names part h.1)

All-cons_names :
    (n : String) (names part : List String)
    → All (λ name. any (λ n. n == name) names ≡ true) part
    → All (λ name. any (λ n. n == name) (n ∷ names) ≡ true) part
All-cons_names n names [] h = tt
All-cons_names n names (p ∷ part) h = (ground arith, All-cons_names n names part h.1)

All-names_self : (names : List String) → All (λ name. any (λ n. n == name) names ≡ true) names
All-names_self [] = tt
All-names_self (n ∷ names) =
    (rw (eq_refl n) refl, All-cons_names n names names (All-names_self names))

-- Adding is idempotent: once the CephCluster lists what an earlier call added, the same names cause no
-- call and no error.
pub add_storage_nodes_again :
    (env : Env) (cluster : CephCluster) (names : List String) (t : Trace)
    → add_storage_nodes
        (record cluster { storage_nodes = with_names cluster.storage_nodes names })
        names
        env
        t
      ≡ (ok tt, t)
unfolding add_storage_nodes
add_storage_nodes_again env cluster names t = rw (
    added_names-nil (with_names cluster.storage_nodes names) names
      (All-added cluster.storage_nodes names names (All-names_self names)))

is_storage_node-without_node :
    (nodes : List StorageNode) (gone name : String)
    → is_storage_node (without_node nodes gone) name
      ≡ is_storage_node nodes name && not (gone == name)
is_storage_node-without_node [] gone name = refl
is_storage_node-without_node (n ∷ nodes) gone name = ground (
  arith,
  eq_iff n.name gone,
  eq_iff n.name name,
  eq_iff gone name,
  is_storage_node-without_node nodes gone name,
)

-- If the CephCluster is read, a removal patches it exactly if it lists the node, with a list that has
-- every other storage node and not this one.
pub remove_ceph_cluster_storage_node-trace :
    (env : Env) (cluster : CephCluster) (gone : String) (t : Trace)
    → env.answer Call.get_ceph_cluster t ≡ ok cluster
    → ((remove_ceph_cluster_storage_node gone env t).1 ≡ (
        if is_storage_node cluster.storage_nodes gone
        then Call.patch_ceph_cluster (nodes_patch (without_node cluster.storage_nodes gone) ∷ [])
          ∷ Call.get_ceph_cluster
          ∷ t
        else Call.get_ceph_cluster ∷ t))
      × ((name : String)
          → is_storage_node (without_node cluster.storage_nodes gone) name
            ≡ is_storage_node cluster.storage_nodes name && not (gone == name))
unfolding remove_ceph_cluster_storage_node
remove_ceph_cluster_storage_node-trace env cluster gone t found =
    (ground arith, is_storage_node-without_node cluster.storage_nodes gone)
