-- ===== src/Ekcoops/Operator/Purges.antt =====
-- The loop of `Reconcile` over the nodes.
use mathlib.Core.Path.{subst}
use ekco.Prelude.{ℕ, String, ◌≡◌, sym, ◌⊎◌, inl, inr, Option, List, [], ◌∷◌, All}
use ekco.Errors.{add_failure, Error}
use ekco.Kube.{Node, Version, Trace, Env}
use ekco.Cluster.PurgeNode.Order.{deletions}
use ekco.Ekcoops.Config.{Config}
use ekco.Ekcoops.Nodes.{reconcile_node}
use ekco.Ekcoops.Nodes.Purging.{MayPurge, reconcile_node-deletions}
use ekco.Ekcoops.Operator.{reconcile_nodes}

module _ (cfg : Config) (ready : ℕ × ℕ) (rook_version : Option Version) (P : String → Type 0)
    (env : Env) where
  keeps_one :
      (node : Node) (names names' : List String)
      → (MayPurge cfg node ready → P node.name)
      → (names' ≡ names) ⊎ (names' ≡ node.name ∷ names) × MayPurge cfg node ready
      → All P names
      → All P names'
  keeps_one node names names' may (inl same) h = subst (All P) (sym same) h
  keeps_one node names names' may (inr (added, why)) h = subst (All P) (sym added) (may why, h)

  -- What holds of the name of every listed node that the limits allow to purge, and of every Node object
  -- deleted before, holds of every Node object deleted once the loop is through, also after failures.
  pub reconcile_nodes-deletions :
      (errs : Option Error) (nodes : List Node) (t : Trace)
      → All (λ node. MayPurge cfg node ready → P node.name) nodes
      → All P (deletions t)
      → All P (deletions (reconcile_nodes cfg ready rook_version errs nodes env t).1)
  unfolding reconcile_nodes
  reconcile_nodes-deletions errs [] t may h = h
  reconcile_nodes-deletions errs (node ∷ nodes) t may h =
      let (r, u) = reconcile_node cfg ready rook_version node env t in
      reconcile_nodes-deletions (add_failure "reconcile node" errs r) nodes u may.1 (
        keeps_one node (deletions t) (deletions u) may.0
          (reconcile_node-deletions cfg ready rook_version node env t) h)
