-- ===== src/Ekcoops/Nodes.antt =====
-- pkg/ekcoops/operator.go: dead nodes, `isDead` and `reconcileNode`.
pub mod Purging
use ekco.Prelude.{
  ℕ, ◌+◌, Bool, true, false, ◌&&◌, Option, none, some, List, [], ◌∷◌, ◌==◌, ltb, if◌then◌else◌,
  is_some,
}
use ekco.Kube.{Taint, Node, Version, Call, Action, pure, wrap, send, ◌>>=◌, ◌>>◌, done, when}
use ekco.Util.Node.{unreachable_taint, node_is_master}
use ekco.Cluster.PurgeNode.{purge_node}
use ekco.Cluster.ClearNode.{clear_node}
use ekco.Ekcoops.Config.{Config}

-- The time of the first unreachable taint that has one.
abbrev pub unreachable_since : List Taint → Option ℕ
unreachable_since [] = none
unreachable_since (taint ∷ taints) =
    if taint.key == unreachable_taint && is_some taint.time_added
    then taint.time_added
    else unreachable_since taints

abbrev dead_since : Config → Option ℕ → Action Bool
dead_since cfg none = pure false
dead_since cfg (some added) = do
  now ← send Call.now
  pure (ltb (added + cfg.node_unreachable_toleration) now)

unfoldable pub is_dead : Config → Node → Action Bool
is_dead cfg node = dead_since cfg (unreachable_since node.taints)

-- `flag && o.isDead(node)`: the clock is read only under the flag.
abbrev pub dead_if : Bool → Config → Node → Action Bool
dead_if flag cfg node = if flag then is_dead cfg node else pure false

-- The two early returns, for a dead node.
abbrev pub too_few_ready : Config → Node → ℕ × ℕ → Bool
too_few_ready cfg node (ready_masters, ready_workers) =
    if node_is_master node && ltb ready_masters cfg.min_ready_master_nodes
    then true
    else ltb ready_workers cfg.min_ready_worker_nodes

unfoldable pub clear_if_dead : Config → Node → Action (Unit {0})
clear_if_dead cfg node = do
  dead ← dead_if cfg.clear_dead_nodes cfg node
  when dead (wrap "clear dead node" (clear_node node.name))

unfoldable pub reconcile_node : Config → ℕ × ℕ → Option Version → Node → Action (Unit {0})
reconcile_node cfg ready rook_version node = do
  dead ← dead_if cfg.purge_dead_nodes cfg node
  if dead && too_few_ready cfg node ready then done else do
    when dead
        (wrap "purge dead node" (purge_node node.name cfg.maintain_rook_storage_nodes rook_version))
    clear_if_dead cfg node
