-- ===== src/Cluster/ClearNode/Stuck.antt =====
-- Which pods `ClearNode` deletes.
use ekco.Prelude.{
  ℕ, ◌+◌, String, ◌≡◌, refl, Bool, true, false, Option, none, some, List, [], ◌∷◌, arith, leb,
  if◌then◌else◌, select,
}
use ekco.Errors.{ok}
use ekco.Kube.{Pod, Call, Trace, Env}
use ekco.Cluster.ClearNode.{clear_pod, clear_pods, clear_node}

-- A pod whose deletion timestamp, which a server sets to the end of its grace period, is at least 30
-- seconds past.
abbrev pub is_stuck : ℕ → Option ℕ → Bool
is_stuck now none = false
is_stuck now (some deleted) = leb (deleted + 30) now

abbrev pub deletion : Pod → Call
deletion pod = Call.delete_pod pod.namespace pod.name

-- The pod deletions of a trace, newest first.
abbrev pub is_pod_deletion : Call → Bool
is_pod_deletion (Call.delete_pod ns n) = true
is_pod_deletion _ = false

abbrev pub pod_deletions : Trace → Trace
pod_deletions t = select is_pod_deletion t

-- The deletions of the stuck pods, in the order of the list, on top of earlier ones.
abbrev pub stuck_deletions : ℕ → List Pod → Trace → Trace
stuck_deletions now [] t = t
stuck_deletions now (pod ∷ pods) t =
    stuck_deletions now pods (if is_stuck now pod.deletion_timestamp then deletion pod ∷ t else t)

module _ (env : Env) (n : ℕ) (clock : (t : Trace) → env.answer Call.now t ≡ n)
    (accepted : (ns name : String) (t : Trace)
      → env.answer (Call.delete_pod ns name) t ≡ ok tt) where
  clear_pod-lem :
      (deleted : Option ℕ) (pod : Pod) (t : Trace)
      → ((clear_pod deleted pod env t).0 ≡ ok tt)
        × (pod_deletions (clear_pod deleted pod env t).1
            ≡ (if is_stuck n deleted then deletion pod ∷ pod_deletions t else pod_deletions t))
  unfolding clear_pod
  clear_pod-lem none pod t = (refl, refl)
  clear_pod-lem (some deleted) pod t =
      ground (arith, clock t, accepted pod.namespace pod.name (Call.now ∷ t))

  clear_pods-lem :
      (pods : List Pod) (t : Trace)
      → ((clear_pods pods env t).0 ≡ ok tt)
        × (pod_deletions (clear_pods pods env t).1 ≡ stuck_deletions n pods (pod_deletions t))
  unfolding clear_pods
  clear_pods-lem [] t = (refl, refl)
  clear_pods-lem (pod ∷ pods) t =
      let step = clear_pod-lem pod.deletion_timestamp pod t in
      ground (arith, step, clear_pods-lem pods (clear_pod pod.deletion_timestamp pod env t).1)

  -- With a clock that stands at `n` and deletions that are accepted, `ClearNode` deletes exactly the
  -- listed pods whose deletion timestamp is at least 30 seconds past, each once and in the order of the list.
  pub clear_node-stuck :
      (node_name : String) (pods : List Pod) (t : Trace)
      → env.answer (Call.list_pods_on_node node_name) t ≡ ok pods
      → ((clear_node node_name env t).0 ≡ ok tt)
        × (pod_deletions (clear_node node_name env t).1 ≡ stuck_deletions n pods (pod_deletions t))
  unfolding clear_node
  clear_node-stuck node_name pods t listed =
      ground (arith, clear_pods-lem pods (Call.list_pods_on_node node_name ∷ t))
