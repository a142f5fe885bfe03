-- ===== src/Util/Node/Counts.antt =====
-- The counts of ready nodes against a count by a predicate, and readiness against the taints.
use ekco.Prelude.{ℕ, suc, ◌+◌, ◌≡◌, Bool, not, ◌&&◌, List, [], ◌∷◌, arith, if◌then◌else◌}
use ekco.Kube.{Node}
use ekco.Util.Node.{node_is_ready, node_is_master, count_ready, node_ready_counts}

abbrev pub count_if : (Node → Bool) → List Node → ℕ
count_if p [] = 0
count_if p (node ∷ nodes) = if p node then suc (count_if p nodes) else count_if p nodes

abbrev pub ready_master : Node → Bool
ready_master node = node_is_ready node && node_is_master node

abbrev pub ready_worker : Node → Bool
ready_worker node = node_is_ready node && not (node_is_master node)

count_ready-count :
    (m w : ℕ) (nodes : List Node)
    → ((count_ready (m, w) nodes).0 ≡ m + count_if ready_master nodes)
      × ((count_ready (m, w) nodes).1 ≡ w + count_if ready_worker nodes)
unfolding count_ready
count_ready-count m w [] = omega arith
count_ready-count m w (node ∷ nodes) = ground (
  arith,
  count_ready-count (m + 1) w nodes,
  count_ready-count m (w + 1) nodes,
  count_ready-count m w nodes,
)

count_if-split :
    (nodes : List Node)
    → count_if ready_master nodes + count_if ready_worker nodes ≡ count_if node_is_ready nodes
count_if-split [] = omega arith
count_if-split (node ∷ nodes) = ground (arith, count_if-split nodes)

-- The two counts are the numbers of ready nodes with and without a master role, and together they
-- count every ready node.
pub node_ready_counts_lem :
    (nodes : List Node)
    → ((node_ready_counts nodes).0 ≡ count_if ready_master nodes)
      × ((node_ready_counts nodes).1 ≡ count_if ready_worker nodes)
      × ((node_ready_counts nodes).0 + (node_ready_counts nodes).1 ≡ count_if node_is_ready nodes)
unfolding node_ready_counts
node_ready_counts_lem nodes = ground (arith, count_ready-count 0 0 nodes, count_if-split nodes)
