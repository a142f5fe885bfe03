-- ===== src/Cli/ChangeLoadBalancer.antt =====
-- cmd/ekco/cli/change-load-balancer.go: a new address of the load balancer goes to every node but one.
-- A failure ends the command with its message, as an error here.
pub mod Nodes
use ekco.Prelude.{String, Bool, List, [], ◌∷◌, ◌==◌, if◌then◌else◌}
use ekco.Errors.{failure}
use ekco.Kube.{Node, Call, Action, send, ◌>>=◌, ◌>>◌, plain, expect_plain, done, when}
use ekco.Cluster.Config.{ControllerConfig}
use ekco.Cluster.Tasks.{set_kubeconfig_server}
use ekco.Cluster.InternalLb.{update_internal_lb}

unfoldable pub set_each : ControllerConfig → String → String → List Node → Action (Unit {0})
set_each cfg exclude server [] = done
set_each cfg exclude server (node ∷ nodes) =
    let rest = set_each cfg exclude server nodes in
    if node.name == exclude
    then rest
    else plain "Failed to update kubeconfigs" (set_kubeconfig_server cfg node server) >> rest

unfoldable pub change_load_balancer : ControllerConfig → Bool → String → String → Action (Unit {0})
change_load_balancer cfg internal exclude server = do
  nodes ← expect_plain "Failed to list nodes" (send Call.list_nodes)
  when internal (plain "Failed to start internal load balancer" (update_internal_lb cfg nodes))
  set_each cfg exclude server nodes
