-- ===== src/Ekcoops/Controller/Limits.antt =====
-- Which Node objects a whole reconcile of the operator with its controller deletes.
use ekco.Prelude.{String, Bool, List, All}
use ekco.Kube.{Node, Trace, Env}
use ekco.Util.Node.{node_ready_counts}
use ekco.Cluster.Config.{ControllerConfig}
use ekco.Cluster.PurgeNode.Order.{deletions}
use ekco.Ekcoops.Config.{Config}
use ekco.Ekcoops.Nodes.Purging.{MayPurge}
use ekco.Ekcoops.Operator.{reconcile}
use ekco.Ekcoops.Operator.Limits.{reconcile-deletions}
use ekco.Ekcoops.Controller.{controller_services}
use ekco.Ekcoops.Controller.Quiet.{controller_services-Quiet}

-- Whatever the cluster answers: what holds of the name of every listed node that the limits allow to
-- purge, and of every Node object deleted before, holds of every Node object deleted when `Reconcile`
-- with the controller's operations returns.
pub reconcile_controller-deletions :
    (cfg : Config) (controller : ControllerConfig) (P : String → Type 0) (env : Env)
    (nodes : List Node) (full : Bool) (t : Trace)
    → All (λ node. MayPurge cfg node (node_ready_counts nodes) → P node.name) nodes
    → All P (deletions t)
    → All P (deletions (reconcile cfg (controller_services controller) nodes full env t).1)
reconcile_controller-deletions cfg controller P env nodes full t may before =
    reconcile-deletions cfg (controller_services controller) P env nodes full t
      (controller_services-Quiet controller) may before
