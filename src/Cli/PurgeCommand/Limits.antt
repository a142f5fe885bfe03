-- ===== src/Cli/PurgeCommand/Limits.antt =====
-- What the command may delete.
use ekco.Prelude.{◌+◌, ◌≤◌, String, ◌≡◌, ◌⊎◌, Bool, false, List, ◌∷◌, arith, any}
use ekco.Errors.{ok}
use ekco.Kube.{Node, Call, Trace, Env}
use ekco.Util.Node.Counts.{count_if, ready_master, ready_worker, node_ready_counts_lem}
use ekco.Cluster.Quiet.{get_rook_version-Quiet}
use ekco.Cluster.PurgeNode.Order.{deletions, Quiet}
use ekco.Ekcoops.Config.{Config}
use ekco.Ekcoops.Nodes.Purging.{purge_node-deletions}
use ekco.Cli.PurgeCommand.{
  is_ready_master_named, is_ready_worker_named, maintained_rook_version, purge_checked,
  purge_node_command,
}

maintained_rook_version-Quiet : (maintained : Bool) → Quiet (maintained_rook_version maintained)
maintained_rook_version-Quiet maintained env t = ground (arith, get_rook_version-Quiet env t)

purge_checked-deletions :
    (cfg : Config) (name : String) (env : Env) (t : Trace)
    → let t' = (purge_checked cfg name env t).1 in
      (deletions t' ≡ deletions t) ⊎ (deletions t' ≡ name ∷ deletions t)
unfolding purge_checked
purge_checked-deletions cfg name env t =
    grind (arith, maintained_rook_version-Quiet, purge_node-deletions)

-- If the nodes are listed, the command deletes no Node object, or one of the given name; and then, if a
-- ready master has that name, there are more ready masters than the limit, and for a ready worker
-- more ready workers.
pub purge_node_command-deletions :
    (cfg : Config) (name : String) (env : Env) (nodes : List Node) (t : Trace)
    → env.answer Call.list_nodes t ≡ ok nodes
    → let t' = (purge_node_command cfg name env t).1 in
      (deletions t' ≡ deletions t)
      ⊎ (deletions t' ≡ name ∷ deletions t)
        × ((any (is_ready_master_named name) nodes ≡ false)
            ⊎ (cfg.min_ready_master_nodes + 1 ≤ count_if ready_master nodes))
        × ((any (is_ready_worker_named name) nodes ≡ false)
            ⊎ (cfg.min_ready_worker_nodes + 1 ≤ count_if ready_worker nodes))
unfolding purge_node_command
purge_node_command-deletions cfg name env nodes t listed =
    let counts = node_ready_counts_lem nodes in
    ground (arith, counts, purge_checked-deletions cfg name env (Call.list_nodes ∷ t))
