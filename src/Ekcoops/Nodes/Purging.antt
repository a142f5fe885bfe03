-- ===== src/Ekcoops/Nodes/Purging.antt =====
-- Which nodes the operator purges.
use mathlib.Core.Path.{subst}
use ekco.Prelude.{
  ℕ, ◌+◌, ◌≤◌, String, ◌≡◌, refl, sym, ap, ◌∙◌, ◌⊎◌, inl, inr, Bool, true, false, ◌&&◌, Option,
  some, List, [], ◌∷◌, arith, ltb, if◌then◌else◌, Option-cases,
}
use ekco.Errors.{ok}
use ekco.Kube.{bind-ok, Taint, Node, Pod, Version, Call, Trace, Action, wrap, ◌>>◌, done, when, Env}
use ekco.Util.Node.{ready_by_taints, node_is_ready, node_is_master}
use ekco.Cluster.ClearNode.{clear_pod, clear_pods, clear_node}
use ekco.Cluster.PurgeNode.{purge_node}
use ekco.Cluster.PurgeNode.Order.{deletions, Quiet, purge_node-DeletedLast}
use ekco.Ekcoops.Config.{Config}
use ekco.Ekcoops.Nodes.{
  unreachable_since, is_dead, dead_if, too_few_ready, clear_if_dead, reconcile_node,
}

unreachable-not_ready :
    (taints : List Taint) (since : ℕ)
    → unreachable_since taints ≡ some since
    → ready_by_taints taints ≡ false
unfolding ready_by_taints
unreachable-not_ready [] since h = cc
unreachable-not_ready (taint ∷ taints) since h = ground (arith, unreachable-not_ready taints since)

-- A node that is held to be dead is not counted as ready, so purging it does not lower the counts that
-- the limits are checked against.
pub is_dead-not_ready :
    (cfg : Config) (node : Node) (env : Env) (t : Trace)
    → (is_dead cfg node env t).0 ≡ ok true
    → node_is_ready node ≡ false
unfolding is_dead node_is_ready
is_dead-not_ready cfg node env t h = elim (Option-cases (unreachable_since node.taints)) [
  | inl reachable ↦ ground arith
  | inr (since, e) ↦ unreachable-not_ready node.taints since e
]

clear_pod-Quiet : (deleted : Option ℕ) (pod : Pod) → Quiet (clear_pod deleted pod)
unfolding clear_pod
clear_pod-Quiet deleted pod env t = ground arith

clear_pods-Quiet : (pods : List Pod) → Quiet (clear_pods pods)
unfolding clear_pods
clear_pods-Quiet [] env t = refl
clear_pods-Quiet (pod ∷ pods) env t = grind (arith, clear_pod-Quiet, clear_pods-Quiet pods)

clear_node-Quiet : (name : String) → Quiet (clear_node name)
unfolding clear_node
clear_node-Quiet name env t = grind (arith, clear_pods-Quiet)

clear_if_dead-Quiet : (cfg : Config) (node : Node) → Quiet (clear_if_dead cfg node)
unfolding clear_if_dead is_dead
clear_if_dead-Quiet cfg node env t = grind (arith, clear_node-Quiet)

pub purge_node-deletions :
    (name : String) (rook : Bool) (rook_version : Option Version) (env : Env) (t : Trace)
    → let t' = (purge_node name rook rook_version env t).1 in
      (deletions t' ≡ deletions t) ⊎ (deletions t' ≡ name ∷ deletions t)
purge_node-deletions name rook rook_version env t =
    elim (purge_node-DeletedLast name rook rook_version env t) [
      | inl untouched ↦ inl untouched
      | inr (u, s, last, before, removed) ↦
          inr (ap deletions last ∙ ap (λ names. name ∷ names) before)
    ]

-- The limits under which a dead node is purged.
abbrev pub MayPurge : Config → Node → ℕ × ℕ → Type 0
MayPurge cfg node (ready_masters, ready_workers) =
    (cfg.purge_dead_nodes ≡ true)
    × (node_is_ready node ≡ false)
    × (node_is_master node ≡ true → cfg.min_ready_master_nodes ≤ ready_masters)
    × (cfg.min_ready_worker_nodes ≤ ready_workers)

-- Reading the clock deletes nothing, and only a node that is not ready is found dead.
dead_if-ok :
    (flag : Bool) (cfg : Config) (node : Node) (env : Env) (t : Trace)
    → (dead : Bool) × ((dead_if flag cfg node env t).0 ≡ ok dead)
      × (deletions (dead_if flag cfg node env t).1 ≡ deletions t)
      × (dead ≡ true → (flag ≡ true) × (node_is_ready node ≡ false))
unfolding is_dead node_is_ready
dead_if-ok false cfg node env t = (false, refl, refl, λ h. cc)
dead_if-ok true cfg node env t = elim (Option-cases (unreachable_since node.taints)) [
  | inl reachable ↦ (false, ground arith, ground arith, λ h. cc)
  | inr (since, e) ↦ (
    ltb (since + cfg.node_unreachable_toleration) (env.answer Call.now t),
    ground arith,
    ground arith,
    λ h. (refl, unreachable-not_ready node.taints since e),
  )
]

module _ (cfg : Config) (ready : ℕ × ℕ) (rook_version : Option Version) (node : Node)
    (env : Env) where
  abbrev after_dead : Bool → Action (Unit {0})
  after_dead dead = if dead && too_few_ready cfg node ready then done else do
    when dead
        (wrap "purge dead node" (purge_node node.name cfg.maintain_rook_storage_nodes rook_version))
    clear_if_dead cfg node

  after_dead-deletions :
      (dead : Bool) (t : Trace)
      → let t' = (after_dead dead env t).1 in
        (deletions t' ≡ deletions t)
        ⊎ (deletions t' ≡ node.name ∷ deletions t)
          × (dead ≡ true)
          × (too_few_ready cfg node ready ≡ false)
  after_dead-deletions false t = inl (clear_if_dead-Quiet cfg node env t)
  after_dead-deletions true t =
      let purge = purge_node node.name cfg.maintain_rook_storage_nodes rook_version in
      ground (
        arith,
        purge_node-deletions node.name cfg.maintain_rook_storage_nodes rook_version env t,
        clear_if_dead-Quiet cfg node env (purge env t).1,
      )

  purge_if_dead :
      (dead : Bool) (t u : Trace)
      → deletions u ≡ deletions t
      → (dead ≡ true → (cfg.purge_dead_nodes ≡ true) × (node_is_ready node ≡ false))
      → (deletions (after_dead dead env u).1 ≡ deletions t)
        ⊎ (deletions (after_dead dead env u).1 ≡ node.name ∷ deletions t) × MayPurge cfg node ready
  purge_if_dead dead t u same why = ground (arith, after_dead-deletions dead u, why)

  -- A reconcile of a node deletes no Node object, or this one, and this one only if purging is enabled,
  -- it is not ready, there are enough ready workers and, for a master, enough ready masters.
  pub reconcile_node-deletions :
      (t : Trace)
      → let t' = (reconcile_node cfg ready rook_version node env t).1 in
        (deletions t' ≡ deletions t)
        ⊎ (deletions t' ≡ node.name ∷ deletions t) × MayPurge cfg node ready
  unfolding reconcile_node
  reconcile_node-deletions t =
      let (dead, found, same, why) = dead_if-ok cfg.purge_dead_nodes cfg node env t in
      let u = (dead_if cfg.purge_dead_nodes cfg node env t).1 in
      let steps = bind-ok (dead_if cfg.purge_dead_nodes cfg node) after_dead env t dead found in
      subst
        (λ r.
          (deletions r.1 ≡ deletions t)
          ⊎ (deletions r.1 ≡ node.name ∷ deletions t) × MayPurge cfg node ready)
        (sym steps) (purge_if_dead dead t u same why)
