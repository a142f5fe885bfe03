-- ===== src/Util/Node.antt =====
-- pkg/util/node.go: what the taints, labels and addresses of a node say.
pub mod Counts
use ekco.Prelude.{
  ℕ, ◌+◌, String, Bool, true, false, ◌||◌, List, [], ◌∷◌, ◌==◌, if◌then◌else◌, is_some, lookup,
}
use ekco.Kube.{Taint, Address, Node, internal_ip, other_address}

abbrev pub master_role_label : String
master_role_label = "node-role.kubernetes.io/master"

abbrev pub control_plane_role_label : String
control_plane_role_label = "node-role.kubernetes.io/control-plane"

abbrev pub unreachable_taint : String
unreachable_taint = "node.kubernetes.io/unreachable"

abbrev pub not_ready_taint : String
not_ready_taint = "node.kubernetes.io/not-ready"

abbrev pub network_unavailable_taint : String
network_unavailable_taint = "node.kubernetes.io/network-unavailable"

abbrev pub unschedulable_taint : String
unschedulable_taint = "node.kubernetes.io/unschedulable"

-- The `switch` on the key of a taint.
abbrev pub blocks_readiness : String → Bool
blocks_readiness key =
    key == not_ready_taint
    || key == unreachable_taint
    || key == network_unavailable_taint
    || key == unschedulable_taint

unfoldable pub ready_by_taints : List Taint → Bool
ready_by_taints [] = true
ready_by_taints (taint ∷ taints) =
    if blocks_readiness taint.key then false else ready_by_taints taints

unfoldable pub node_is_ready : Node → Bool
unfolding ready_by_taints
node_is_ready node = ready_by_taints node.taints

unfoldable pub node_is_master : Node → Bool
node_is_master node =
    if is_some (lookup master_role_label node.labels)
    then true
    else is_some (lookup control_plane_role_label node.labels)

-- One round of `NodeReadyCounts` on its two counters.
abbrev pub count_node : Node → ℕ × ℕ → ℕ × ℕ
count_node node (masters, workers) =
    if node_is_ready node
    then (if node_is_master node then (masters + 1, workers) else (masters, workers + 1))
    else (masters, workers)

count_ready : ℕ × ℕ → List Node → ℕ × ℕ
count_ready counts [] = counts
count_ready counts (node ∷ nodes) = count_ready (count_node node counts) nodes

unfoldable pub node_ready_counts : List Node → ℕ × ℕ
unfolding count_ready
node_ready_counts nodes = count_ready (0, 0) nodes

internal_ip_of : List Address → String
internal_ip_of [] = ""
internal_ip_of (addr ∷ addrs) = elim addr.type [
  | internal_ip ↦ addr.address
  | other_address ↦ internal_ip_of addrs
]

unfoldable pub node_internal_ip : Node → String
unfolding internal_ip_of
node_internal_ip node = internal_ip_of node.addresses
