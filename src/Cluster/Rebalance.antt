-- ===== src/Cluster/Rebalance.antt =====
-- pkg/cluster/minio.go: `MaybeRebalanceMinioServers`, which moves at most one pod.
pub mod Safe
use Prim.Native.String.{◌++◌ as join_text}
use ekco.Prelude.{
  ℕ, zero, ◌+◌, ◌-◌, ◌/◌, String, Bool, true, false, ◌&&◌, ◌||◌, Option, none, some, List, [], ◌∷◌,
  ◌++◌, map, ◌==◌, ltb, eqb, if◌then◌else◌, length, lookup, insert,
}
use ekco.Errors.{Result, failure, ok, err}
use ekco.Kube.{
  Node, PodCondition, Pod, number, Call, Action, pure, raise, attempt, send, ◌>>=◌, ◌>>◌, expect,
  done, when, Env,
}
use ekco.Prelude.Int.{ℤ, pos, eqz, ltz}
use ekco.Cluster.Minio.{get_minio_scale, ha_minio_healthy, is_status_ok}
use ekco.Util.Node.{node_ready_counts}

abbrev pub last_claim : List String → String
last_claim [] = ""
last_claim (claim ∷ []) = claim
last_claim (claim ∷ next ∷ claims) = last_claim (next ∷ claims)

-- The claim of the last volume that has one, and then the pod, are deleted.
unfoldable pub reschedule_one_pod : Pod → Action (Unit {0})
reschedule_one_pod pod =
    let claim = last_claim pod.claim_names in
    if claim == "" then raise (failure "unable to determine PVC name for pod") else do
      expect "failed to delete MinIO pod's PVC" (send (Call.delete_claim pod.namespace claim))
      expect "failed to delete MinIO pod" (send (Call.delete_pod pod.namespace pod.name))

-- The pod reported for more than five minutes that it cannot be scheduled.
unfoldable pub is_stuck : List PodCondition → Action Bool
is_stuck [] = pure false
is_stuck (c ∷ conditions) = do
  old ←
      if c.type == "PodScheduled" && c.status == "False"
      then (do now ← send Call.now; pure (ltb (c.last_transition_time + 300) now))
      else pure false
  if old then pure true else is_stuck conditions

unfoldable pub find_stuck : List Pod → Action (Option Pod)
find_stuck [] = pure none
find_stuck (pod ∷ pods) = do
  stuck ← if pod.status.phase == "Pending" then is_stuck pod.status.conditions else pure false
  if stuck then pure (some pod) else find_stuck pods

-- `nodeMinioPods`: the pods of each node, by the address of the node.
abbrev pub add_pod : Pod → List (String × List Pod) → List (String × List Pod)
add_pod pod groups = elim (lookup pod.status.host_ip groups) [
  | none ↦ insert pod.status.host_ip (pod ∷ []) groups
  | some pods ↦ insert pod.status.host_ip (pods ++ pod ∷ []) groups
]

unfoldable pub group_pods : List (String × List Pod) → List Pod → List (String × List Pod)
group_pods groups [] = groups
group_pods groups (pod ∷ pods) = group_pods (add_pod pod groups) pods

unfoldable pub safe_to_reschedule : Pod → Action Bool
safe_to_reschedule pod = do
  answer ← send (
      Call.http_get (
        join_text "http://"
          (join_text pod.status.pod_ip ":9000/minio/health/cluster?maintenance=true")))
  pure (is_status_ok answer)

-- The first pod of a node, where the number of its pods passes the test.
abbrev pub candidate : (ℕ → Bool) → Option (List Pod) → Option Pod
candidate chosen none = none
candidate chosen (some []) = none
candidate chosen (some (pod ∷ pods)) = if chosen (length (pod ∷ pods)) then some pod else none

unfoldable pub is_safe : Option Pod → Action Bool
is_safe none = pure false
is_safe (some pod) = safe_to_reschedule pod

-- One of the three loops over the nodes; the result says whether a pod was moved.
unfoldable pub move_one : (ℕ → Bool) → List (String × List Pod) → List String → Action Bool
move_one chosen groups [] = pure false
move_one chosen groups (host ∷ hosts) = do
  safe ← is_safe (candidate chosen (lookup host groups))
  elim (candidate chosen (lookup host groups)) [
    | none ↦ move_one chosen groups hosts
    | some pod ↦
        if safe then (do reschedule_one_pod pod; pure true) else move_one chosen groups hosts
  ]

abbrev pub keys : List (String × List Pod) → List String
keys [] = []
keys ((host, pods) ∷ groups) = host ∷ keys groups

-- The n-th loop over the map.
abbrev pub loop : ℕ → (ℕ → Bool) → List (String × List Pod) → Action Bool
loop n chosen groups env t = move_one chosen groups (env.map_order n t (keys groups)) env t

-- Floor and ceiling of a quotient; a division by zero is left to the machine.
abbrev pub floor_div : Env → ℕ → ℕ → ℤ
floor_div env a b = if eqb b 0 then env.int_of_division_by_zero else pos (a / b)

abbrev pub ceil_div : Env → ℕ → ℕ → ℤ
ceil_div env a b = if eqb b 0 then env.int_of_division_by_zero else pos ((a + (b - 1)) / b)

abbrev pub fewer_than : ℤ → List (String × List Pod) → Bool
fewer_than limit [] = false
fewer_than limit ((host, pods) ∷ groups) = ltz (pos (length pods)) limit || fewer_than limit groups

-- The three loops, each run if no earlier one moved a pod.
unfoldable pub rebalance : List (String × List Pod) → ℕ → ℤ → ℤ → Action (Unit {0})
rebalance groups ready max_pods min_pods = do
  moved ← loop 0 (λ n. ltz max_pods (pos n)) groups
  if moved then done else do
    moved ← loop 1 (λ n. fewer_than min_pods groups && eqz (pos n) max_pods) groups
    if moved
        then done
        else do moved ← loop 2 (λ n. ltb (length groups) ready && ltb 1 n) groups; done

abbrev pub by_nodes : List Pod → List Node → Action (Unit {0})
by_nodes pods nodes env t =
    let ready = (node_ready_counts nodes).0 + (node_ready_counts nodes).1 in
    rebalance (group_pods [] pods) ready (ceil_div env (length pods) ready)
      (floor_div env (length pods) ready) env t

abbrev pub none_stuck : List Pod → Option Pod → Action (Unit {0})
none_stuck pods (some pod) = reschedule_one_pod pod
none_stuck pods none = do
  nodes ← expect "failed to list nodes" (send Call.list_nodes)
  by_nodes pods nodes

unfoldable pub rebalance_healthy : String → Action (Unit {0})
rebalance_healthy ns = do
  pods ← expect "faled to get ha-minio pods" (send (Call.list_pods ns "app=ha-minio"))
  stuck ← find_stuck pods
  none_stuck pods stuck

abbrev pub when_scaled : String → Result (ℕ × ℤ) → Action (Unit {0})
when_scaled ns (err e) = done
when_scaled ns (ok (current, desired)) =
    if eqb current 0
    then done
    else do healthy ← ha_minio_healthy ns; when healthy (rebalance_healthy ns)

unfoldable pub maybe_rebalance_minio_servers : String → Action (Unit {0})
maybe_rebalance_minio_servers ns = do scale ← attempt (get_minio_scale ns); when_scaled ns scale
