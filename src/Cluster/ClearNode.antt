-- ===== src/Cluster/ClearNode.antt =====
-- pkg/cluster/clear_node.go: `ClearNode` deletes the pods of a node that are stuck in Terminating.
pub mod Stuck
use ekco.Prelude.{ℕ, zero, ◌+◌, String, Bool, true, false, Option, none, some, List, [], ◌∷◌, ltb}
use ekco.Kube.{Pod, Call, Action, send, ◌>>=◌, ◌>>◌, expect, done}

-- Thirty seconds after the deletion timestamp, in which a pod may still terminate.
abbrev pub grace : ℕ
grace = 30

abbrev delete_unless : Bool → Pod → Action (Unit {0})
delete_unless true pod = done
delete_unless false pod = do expect "delete pod" (send (Call.delete_pod pod.namespace pod.name))

-- One round of the loop; a zero timestamp is `none`.
unfoldable pub clear_pod : Option ℕ → Pod → Action (Unit {0})
clear_pod none pod = done
clear_pod (some deleted) pod = do now ← send Call.now; delete_unless (ltb now (deleted + grace)) pod

-- The loop reads the clock for each pod that is being deleted.
unfoldable pub clear_pods : List Pod → Action (Unit {0})
clear_pods [] = done
clear_pods (pod ∷ pods) = do clear_pod pod.deletion_timestamp pod; clear_pods pods

unfoldable pub clear_node : String → Action (Unit {0})
clear_node node_name = do
  pods ← expect "list all pods on node" (send (Call.list_pods_on_node node_name))
  clear_pods pods
