-- ===== src/Cluster/Rebalance/Safe/Whole.antt =====
-- pkg/cluster/minio.go: a whole call of `MaybeRebalanceMinioServers`.
use ekco.Prelude.{
  ℕ, ◌+◌, String, ◌≡◌, refl, sym, ◌∙◌, ◌⊎◌, inl, inr, Bool, true, false, ◌&&◌, Option, none, some,
  List, [], ◌∷◌, arith, ◌==◌, ltb, eqb, if◌then◌else◌, length, All,
}
use ekco.Errors.{Result, ok, err}
use ekco.Kube.{
  Keeps, then-Keeps, if-Keeps, Node, PodCondition, Pod, Call, Trace, Action, pure, lift, wrap, send,
  ◌>>=◌, expect, done, when, Env,
}
use ekco.Prelude.Int.{ℤ, ltz, eqz, pos}
use mathlib.Core.Path.{subst}
use mathlib.Core.List.{Memᴰ}
use mathlib.Core.List.Memᴰ.{head, tail}
use ekco.Cluster.Minio.{get_minio_scale, ha_minio_healthy, is_status_ok, health_url}
use ekco.Cluster.Rebalance.{
  is_stuck, find_stuck, rebalance, by_nodes, rebalance_healthy, none_stuck, when_scaled,
  maybe_rebalance_minio_servers, loop, keys, fewer_than, group_pods,
}
use ekco.Cluster.Rebalance.Safe.{
  losses, OneMove, no_move, Moves, then-Moves, reschedule_one_pod-Moves,
}
use ekco.Cluster.Rebalance.Safe.Groups.{
  OfOption, InGroups, group_pods-InGroups, move_one-Tries, or_else, last_loop, Tries,
}

get_minio_scale-Keeps : (ns : String) → Keeps losses (get_minio_scale ns)
unfolding get_minio_scale
get_minio_scale-Keeps ns env t = ground arith

is_stuck-Keeps : (conditions : List PodCondition) → Keeps losses (is_stuck conditions)
unfolding is_stuck
is_stuck-Keeps [] = λ env t. refl
is_stuck-Keeps (c ∷ conditions) =
    let rest = is_stuck conditions in
    then-Keeps losses (λ old. if old then pure true else rest)
      (λ old. if-Keeps losses old (pure true) rest (λ env t. refl) (is_stuck-Keeps conditions))
      (if c.type == "PodScheduled" && c.status == "False"
        then (do now ← send Call.now; pure (ltb (c.last_transition_time + 300) now))
        else pure false)
      (λ env t. ground arith)

find_stuck-Keeps : (pods : List Pod) → Keeps losses (find_stuck pods)
unfolding find_stuck
find_stuck-Keeps [] = λ env t. refl
find_stuck-Keeps (pod ∷ pods) =
    let rest = find_stuck pods in
    let look = is_stuck pod.status.conditions in
    then-Keeps losses (λ stuck. if stuck then pure (some pod) else rest)
      (λ stuck.
        if-Keeps losses stuck (pure (some pod)) rest (λ env t. refl) (find_stuck-Keeps pods))
      (if pod.status.phase == "Pending" then look else pure false)
      (if-Keeps losses (pod.status.phase == "Pending") look (pure false)
        (is_stuck-Keeps pod.status.conditions) (λ env t. refl))

module _ (P : Pod → Type 0) where
  module _ (groups : List (String × List Pod)) (ready : ℕ) (max_pods min_pods : ℤ)
      (all : InGroups P groups) (env : Env) (before : List Call) where
    loop-Tries :
        (n : ℕ) (chosen : ℕ → Bool) (t : Trace)
        → losses t ≡ before
        → Tries P before (loop n chosen groups env t)
    loop-Tries n chosen t same =
        move_one-Tries P chosen groups env before (env.map_order n t (keys groups)) t all same

    rebalance-OneMove :
        (t : Trace)
        → losses t ≡ before
        → OneMove P before (losses (rebalance groups ready max_pods min_pods env t).1)
    unfolding rebalance
    rebalance-OneMove t same =
        or_else P before (loop 0 (λ n. ltz max_pods (pos n)) groups env t) _ env
          (loop-Tries 0 (λ n. ltz max_pods (pos n)) t same)
          (λ u same'.
            or_else P before
              (loop 1 (λ n. fewer_than min_pods groups && eqz (pos n) max_pods) groups env u) _ env
              (loop-Tries 1 (λ n. fewer_than min_pods groups && eqz (pos n) max_pods) u same')
              (λ v same''.
                last_loop P before (loop 2 (λ n. ltb (length groups) ready && ltb 1 n) groups env v)
                  env (loop-Tries 2 (λ n. ltb (length groups) ready && ltb 1 n) v same'')))

  abbrev OfResult : Result (Option Pod) → Type 0
  OfResult (ok o) = OfOption P o
  OfResult (err e) = Unit {0}

  module _ (pod : Pod) (p : P pod) (rest : Action (Option Pod)) (env : Env) where
    after_look :
        (r : Result Bool) (u : Trace)
        → OfResult (rest env u).0
        → OfResult ((lift r >>= λ stuck. if stuck then pure (some pod) else rest) env u).0
    after_look (err e) u later = tt
    after_look (ok true) u later = p
    after_look (ok false) u later = later

  -- A stuck pod is one of the list.
  find_stuck-OfResult :
      (pods : List Pod) (env : Env) (t : Trace) → All P pods → OfResult (find_stuck pods env t).0
  unfolding find_stuck
  find_stuck-OfResult [] env t all = tt
  find_stuck-OfResult (pod ∷ pods) env t (p, all) =
      let look =
        (if pod.status.phase == "Pending" then is_stuck pod.status.conditions else pure false) env
          t in
      after_look pod p (find_stuck pods) env look.0 look.1 (find_stuck-OfResult pods env look.1 all)

  module _ (pods : List Pod) (all : All P pods) where
    by_nodes-Moves : (nodes : List Node) → Moves P (by_nodes pods nodes)
    by_nodes-Moves nodes env t =
        rebalance-OneMove (group_pods [] pods) _ _ _ (group_pods-InGroups P [] pods tt all) env
          (losses t) t refl

    none_stuck-Moves : (o : Option Pod) → OfOption P o → Moves P (none_stuck pods o)
    none_stuck-Moves (some pod) p = reschedule_one_pod-Moves P pod p
    none_stuck-Moves none p =
        then-Moves P (by_nodes pods) by_nodes-Moves
          (expect "failed to list nodes" (send Call.list_nodes)) (λ env t. ground arith)

    after_search :
        (r : Result (Option Pod)) (env : Env) (t u : Trace)
        → OfResult r
        → losses u ≡ losses t
        → OneMove P (losses t) (losses ((lift r >>= none_stuck pods) env u).1)
    after_search (err e) env t u p same = subst (λ l. OneMove P (losses t) l) (sym same) no_move
    after_search (ok o) env t u p same =
        subst (λ l. OneMove P l (losses (none_stuck pods o env u).1)) same
          (none_stuck-Moves o p env u)

    searched-OneMove :
        (env : Env) (t u : Trace)
        → losses u ≡ losses t
        → OneMove P (losses t) (losses ((find_stuck pods >>= none_stuck pods) env u).1)
    searched-OneMove env t u same =
        after_search (find_stuck pods env u).0 env t (find_stuck pods env u).1
          (find_stuck-OfResult pods env u all) (find_stuck-Keeps pods env u ∙ same)

pods_of-All :
    (pods whole : List Pod)
    → ((pod : Pod) → Memᴰ pod pods → Memᴰ pod whole)
    → All (λ pod. Memᴰ pod whole) pods
pods_of-All [] whole sub = tt
pods_of-All (pod ∷ pods) whole sub =
    (sub pod (head refl), pods_of-All pods whole (λ q m. sub q (tail m)))

module _ (ns : String) (env : Env) (t : Trace) where
  abbrev scale_read : Trace
  scale_read = (get_minio_scale ns env t).1

  abbrev health_read : Trace
  health_read = Call.http_get (health_url ns) ∷ scale_read

  -- Minio said that it is healthy, and the pods that were listed then are those of which one is moved.
  pub record Rebalanced (u : Trace) : Type 0 where
    pub healthy : is_status_ok (env.answer (Call.http_get (health_url ns)) scale_read) ≡ true
    pub pods : List Pod
    pub listed : env.answer (Call.list_pods ns "app=ha-minio") health_read ≡ ok pods
    pub one : OneMove (λ pod. Memᴰ pod pods) (losses t) (losses u)

  abbrev Outcome : Trace → Type 0
  Outcome u = (losses u ≡ losses t) ⊎ Rebalanced u

  listed-Outcome :
      (r : Result (List Pod))
      → env.answer (Call.list_pods ns "app=ha-minio") health_read ≡ r
      → is_status_ok (env.answer (Call.http_get (health_url ns)) scale_read) ≡ true
      → losses scale_read ≡ losses t
      → Outcome
          (((λ env t. (ok r, t)) >>= λ r. wrap "faled to get ha-minio pods" (lift r) >>= λ pods.
              find_stuck pods >>= none_stuck pods)
            env
            (Call.list_pods ns "app=ha-minio" ∷ health_read)).1
  listed-Outcome (err e) answered healthy same = inl same
  listed-Outcome (ok pods) answered healthy same = inr (record {
    healthy = healthy;
    pods = pods;
    listed = answered;
    one =
        searched-OneMove (λ pod. Memᴰ pod pods) pods (pods_of-All pods pods (λ pod m. m)) env t
          (Call.list_pods ns "app=ha-minio" ∷ health_read) same;
  })

  healthy-Outcome :
      (b : Bool)
      → is_status_ok (env.answer (Call.http_get (health_url ns)) scale_read) ≡ b
      → losses scale_read ≡ losses t
      → Outcome (when b (rebalance_healthy ns) env health_read).1
  unfolding rebalance_healthy
  healthy-Outcome false answered same = inl same
  healthy-Outcome true answered same =
      listed-Outcome (env.answer (Call.list_pods ns "app=ha-minio") health_read) refl answered same

  scaled-Outcome :
      (r : Result (ℕ × ℤ))
      → losses scale_read ≡ losses t
      → Outcome (when_scaled ns r env scale_read).1
  unfolding ha_minio_healthy
  scaled-Outcome (err e) same = inl same
  scaled-Outcome (ok (current, desired)) same =
      elim (eqb current 0)
        as (λ b.
          Outcome
            ((if b
                then done
                else do healthy ← ha_minio_healthy ns; when healthy (rebalance_healthy ns))
              env scale_read).1) [
                | true ↦ inl same
                | false ↦
                    healthy-Outcome
                      (is_status_ok (env.answer (Call.http_get (health_url ns)) scale_read)) refl
                      same
              ]

  -- Whatever the cluster answers and in whatever order the loops over the nodes run, a call deletes no
  -- pod and no claim, or minio said before that it is healthy, and what is deleted is the claim of one
  -- pod of the statefulset, or that claim and then that pod.
  pub maybe_rebalance-Outcome :
      (losses (maybe_rebalance_minio_servers ns env t).1 ≡ losses t)
      ⊎ Rebalanced (maybe_rebalance_minio_servers ns env t).1
  unfolding maybe_rebalance_minio_servers
  maybe_rebalance-Outcome =
      scaled-Outcome (get_minio_scale ns env t).0 (get_minio_scale-Keeps ns env t)
