-- ===== src/Tests/Rook.antt =====
-- Rook's pools, daemons and storage nodes at concrete values.
use ekco.Prelude.{◌≤◌, ◌≡◌, refl, none, some, List, [], ◌∷◌, arith}
use ekco.Errors.{ok}
use ekco.Kube.{CephFilesystem, Piece, word, Env}
use ekco.PodExec.{code_exit_error, exec_container, sync_exec}
use ekco.Cluster.Exec.Outcome.{list_rook_pods}
use ekco.Cluster.Replication.{filesystem_patches, scale_pool}
use ekco.Cluster.Replication.Patches.{apply_to_filesystem, filesystem_patches-raise}
use ekco.Cluster.Replication.Outcome.{scale_pool_without_pods}
use ekco.Cluster.Storage.{with_names, add_storage_nodes}
use ekco.Cluster.Storage.Nodes.{add_storage_nodes_again}
use ekco.Cluster.Storage.Hosts.{codes, match_host}
use ekco.Cluster.Storage.Hosts.Parse.{match_host-two_digits}
use ekco.Ekcoops.RookStorage.{replication_factor}
use ekco.Ekcoops.RookStorage.Levels.{replication_factor_bounds}
use ekco.Tests.Env.{nothing, env_with, tools_pod, rook_1_9, ceph}
use ekco.Tests.Settings.{settings}

abbrev env : Env
env = env_with none (record nothing {
  cluster = ok ceph;
  pool = ok (record { name = "replicapool"; replicated_size = 1 });
  pods = ok (tools_pod ∷ []);
})

abbrev no_pods : Env
no_pods = env_with none nothing

abbrev status_cmd : List Piece
status_cmd = word "ceph" ∷ word "status" ∷ []

abbrev filesystem : CephFilesystem
filesystem = record {
  name = "fs";
  data_pools = 1 ∷ 5 ∷ [];
  metadata_pool = 2;
  preferred_rules = none;
}

filesystem_patches-raise_example :
    apply_to_filesystem (filesystem_patches 3 filesystem) filesystem
    ≡ record filesystem { data_pools = 3 ∷ 5 ∷ []; metadata_pool = 3 }
filesystem_patches-raise_example = filesystem_patches-raise 3 filesystem

scale_pool_without_pods_example :
    scale_pool rook_1_9 none "device_health_metrics" 3 no_pods []
    ≡ (ok tt, list_rook_pods rook_1_9 no_pods ∷ list_rook_pods rook_1_9 no_pods ∷ [])
scale_pool_without_pods_example =
    scale_pool_without_pods rook_1_9 none no_pods "device_health_metrics" 3 [] (λ t. refl)

add_storage_nodes_again_example :
    add_storage_nodes
      (record ceph { storage_nodes = with_names ceph.storage_nodes ("w1" ∷ "m1" ∷ []) })
      ("w1" ∷ "m1" ∷ [])
      env
      []
    ≡ (ok tt, [])
add_storage_nodes_again_example = add_storage_nodes_again env ceph ("w1" ∷ "m1" ∷ []) []

match_host-two_digits_example : match_host (b'|' ∷ b' ' ∷ b'1' ∷ b'0' ∷ codes " | n1 |") ≡ none
match_host-two_digits_example =
    match_host-two_digits (b'|' ∷ b' ' ∷ []) b'1' b'0' (codes " | n1 |") (refl, (refl, tt)) refl
      refl

replication_factor_bounds_example :
    (1 ≤ replication_factor settings 2)
    × (replication_factor settings 2 ≤ 3)
    × (replication_factor settings 2 ≡ 2)
    × (replication_factor settings 2 ≤ replication_factor settings 5)
replication_factor_bounds_example =
    replication_factor_bounds settings 2 5 (omega arith) (omega arith)

-- A command that ends with the code 2 is answered without an error.
no_entry :
    (sync_exec
      (record { executor = ok tt; ended = some (code_exit_error 2); stdout = ""; stderr = "" })).1
    ≡ ok tt
unfolding sync_exec exec_container
no_entry = refl
