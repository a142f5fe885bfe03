-- ===== src/Ekcoops/Operator/Limits.antt =====
-- Which Node objects a whole reconcile deletes.
use mathlib.Core.Path.{subst}
use ekco.Prelude.{String, refl, sym, Bool, none, List, All}
use ekco.Kube.{Node, Trace, Env}
use ekco.Util.Node.{node_ready_counts}
use ekco.Cluster.PurgeNode.Order.{deletions}
use ekco.Cluster.Quiet.{after_result, get_rook_version-Quiet}
use ekco.Cluster.RookVersion.{get_rook_version}
use ekco.Ekcoops.Config.{Config, Services}
use ekco.Ekcoops.Nodes.Purging.{MayPurge}
use ekco.Ekcoops.Operator.{version_if_any, reconcile_nodes, after_nodes, reconcile}
use ekco.Ekcoops.Operator.Purges.{reconcile_nodes-deletions}
use ekco.Ekcoops.Operator.Quiet.{QuietServices, after_nodes-Quiet}

-- Whatever the cluster answers, and if the operations of the services delete no Node object: what
-- holds of the name of every listed node that the limits allow to purge, and of every Node object deleted
-- before, holds of every Node object deleted when `Reconcile` returns.
pub reconcile-deletions :
    (cfg : Config) (services : Services) (P : String → Type 0) (env : Env) (nodes : List Node)
    (full : Bool) (t : Trace)
    → QuietServices services
    → All (λ node. MayPurge cfg node (node_ready_counts nodes) → P node.name) nodes
    → All P (deletions t)
    → All P (deletions (reconcile cfg services nodes full env t).1)
unfolding reconcile
reconcile-deletions cfg services P env nodes full t quiet may h =
    let (read, u) = get_rook_version env t in
    let v = version_if_any read in
    let loop = reconcile_nodes cfg (node_ready_counts nodes) v none nodes in
    let before = subst (All P) (sym (get_rook_version-Quiet env t)) h in
    let (r, w) = loop env u in
    subst (All P)
      (sym (
        after_result (after_nodes cfg services v nodes full)
          (after_nodes-Quiet cfg services quiet v nodes full) r env w w refl))
      (reconcile_nodes-deletions cfg (node_ready_counts nodes) v P env none nodes u may before)
