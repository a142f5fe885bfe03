-- ===== src/Cli/PurgeCommand.antt =====
-- cmd/ekco/cli/purge_node.go: the command that purges a node by name.
pub mod Limits
pub mod Accepted
use ekco.Prelude.{
  String, Bool, true, false, not, ◌&&◌, Option, none, some, List, ◌==◌, leb, if◌then◌else◌, any,
}
use ekco.Errors.{is_not_found_err, Result, failure, wrapped, ok, err}
use ekco.Kube.{Node, Version, Call, Action, pure, raise, attempt, wrap, send, ◌>>=◌, ◌>>◌, expect}
use ekco.Util.Node.{node_is_master, node_is_ready, node_ready_counts}
use ekco.Cluster.RookVersion.{get_rook_version}
use ekco.Cluster.PurgeNode.{purge_node}
use ekco.Ekcoops.Config.{Config}
use ekco.Cli.Init.{Viper, Host, initialize}

abbrev pub is_ready_master_named : String → Node → Bool
is_ready_master_named name node = node.name == name && (node_is_master node && node_is_ready node)

abbrev pub is_ready_worker_named : String → Node → Bool
is_ready_worker_named name node =
    node.name == name && (not (node_is_master node) && node_is_ready node)

-- The two loops, each under its limit.
abbrev pub too_few_masters : Config → String → List Node → Bool
too_few_masters cfg name nodes =
    leb (node_ready_counts nodes).0 cfg.min_ready_master_nodes
    && any (is_ready_master_named name) nodes

abbrev pub too_few_workers : Config → String → List Node → Bool
too_few_workers cfg name nodes =
    leb (node_ready_counts nodes).1 cfg.min_ready_worker_nodes
    && any (is_ready_worker_named name) nodes

abbrev version_unless_missing : Result Version → Action (Option Version)
version_unless_missing (ok v) = pure (some v)
version_unless_missing (err e) =
    if is_not_found_err e then pure none else raise (wrapped "failed to get Rook version" e)

abbrev pub maintained_rook_version : Bool → Action (Option Version)
maintained_rook_version false = pure none
maintained_rook_version true = do read ← attempt get_rook_version; version_unless_missing read

-- What follows the two checks.
unfoldable pub purge_checked : Config → String → Action (Unit {0})
purge_checked cfg name = do
  rook_version ← maintained_rook_version cfg.maintain_rook_storage_nodes
  wrap "failed to purge node" (purge_node name cfg.maintain_rook_storage_nodes rook_version)

abbrev pub purge_listed : Config → String → List Node → Action (Unit {0})
purge_listed cfg name nodes =
    if too_few_masters cfg name nodes
    then raise (failure "cannot purge master")
    else if too_few_workers cfg name nodes
    then raise (failure "cannot purge worker")
    else purge_checked cfg name

unfoldable pub purge_node_command : Config → String → Action (Unit {0})
purge_node_command cfg name = do
  nodes ← expect "failed to list nodes" (send Call.list_nodes)
  purge_listed cfg name nodes

-- The command.
unfoldable pub purge_node_cmd : Viper → Host → String → Action (Unit {0})
purge_node_cmd v host name = do config ← initialize v host; purge_node_command config.operator name
