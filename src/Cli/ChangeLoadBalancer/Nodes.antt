-- ===== src/Cli/ChangeLoadBalancer/Nodes.antt =====
-- cmd/ekco/cli/change-load-balancer.go: on which nodes the address is changed.
use ekco.Prelude.{
  String, ◌≡◌, refl, ◌⊎◌, inl, inr, Bool, true, false, List, [], ◌∷◌, map, arith, ◌==◌,
  if◌then◌else◌, Bool-cases,
}
use ekco.Errors.{ok}
use ekco.Kube.{Keeps, Node, TaskContainer, TaskPod, Trace, Env}
use ekco.Cluster.Config.{ControllerConfig}
use ekco.Cluster.Tasks.{set_kubeconfig_server, set_kubeconfig_server_pod, delete_pods}
use ekco.Cluster.Tasks.Polls.{task_pods, run_task-task_pods}
use ekco.Util.Node.{node_is_master}
use ekco.Cluster.Tasks.Completed.{Completed, run_task-Completed}
use Prim.Native.String.{◌++◌ as join_text}
use ekco.Cli.ChangeLoadBalancer.{set_each}

module _ (cfg : ControllerConfig) (exclude server : String) (env : Env) where
  -- The task pods of the nodes that are not excluded, the last one first, on those before.
  abbrev pub server_pods : List Node → List TaskPod → List TaskPod
  server_pods [] before = before
  server_pods (node ∷ nodes) before = server_pods nodes (
      if node.name == exclude
      then before
      else set_kubeconfig_server_pod cfg node.name server (node_is_master node) ∷ before)

  delete_pods-task_pods : (ns selector : String) → Keeps task_pods (delete_pods ns selector)
  unfolding delete_pods
  delete_pods-task_pods ns selector env t = ground arith

  set_server-task_pods :
      (node : Node) (t : Trace)
      → task_pods (set_kubeconfig_server cfg node server env t).1
        ≡ set_kubeconfig_server_pod cfg node.name server (node_is_master node) ∷ task_pods t
  unfolding set_kubeconfig_server
  set_server-task_pods node t = grind (arith, run_task-task_pods, delete_pods-task_pods)

  -- A pod on the node runs the command with the server, and with the admin flag exactly on a master.
  abbrev pub Tells : Node → TaskPod → Type 0
  Tells node pod =
      (pod.node_selector ≡ ("kubernetes.io/hostname", node.name) ∷ [])
      × (map (λ (c : TaskContainer). c.command) pod.containers
          ≡ ("ekco"
              ∷ "set-kubeconfig-server"
              ∷ join_text "--server=" server
              ∷ "--host-etc-dir=/host/etc"
              ∷ (if node_is_master node then "--admin=true" else "--admin=false")
              ∷ [])
            ∷ [])

  -- From the trace on, each node of a list but the excluded one had such a pod in turn, which was created and
  -- succeeded.
  abbrev pub AllTold : List Node → Trace → Type 0
  AllTold [] t = Unit {0}
  AllTold (node ∷ nodes) t =
      ((node.name == exclude) ≡ true) × AllTold nodes t
      ⊎ ((node.name == exclude) ≡ false)
        × ((pod : TaskPod) × Tells node pod × Completed pod env t)
        × AllTold nodes (set_kubeconfig_server cfg node server env t).1

  flag :
      (b : Bool)
      → map
          (λ (c : TaskContainer). c.command)
          (set_kubeconfig_server_pod cfg "" server b).containers
        ≡ ("ekco"
            ∷ "set-kubeconfig-server"
            ∷ join_text "--server=" server
            ∷ "--host-etc-dir=/host/etc"
            ∷ (if b then "--admin=true" else "--admin=false")
            ∷ [])
          ∷ []
  flag true = refl
  flag false = refl

  set_server-Told :
      (node : Node) (t : Trace)
      → (set_kubeconfig_server cfg node server env t).0 ≡ ok tt
      → (pod : TaskPod) × Tells node pod × Completed pod env t
  unfolding set_kubeconfig_server
  set_server-Told node t worked =
      let pod = set_kubeconfig_server_pod cfg node.name server (node_is_master node) in
      (
        pod,
        (refl, flag (node_is_master node)),
        run_task-Completed "run set-kubeconfig-server pod" pod env t (ground arith),
      )

  set_each-AllTold :
      (nodes : List Node) (t : Trace)
      → (set_each cfg exclude server nodes env t).0 ≡ ok tt
      → AllTold nodes t
  unfolding set_each
  set_each-AllTold [] t worked = tt
  set_each-AllTold (node ∷ nodes) t worked =
      let u = (set_kubeconfig_server cfg node server env t).1 in
      elim (Bool-cases (node.name == exclude)) [
        | inl skipped ↦ inl (skipped, set_each-AllTold nodes t (grind (arith, skipped, worked)))
        | inr included ↦ inr (
          included,
          set_server-Told node t (grind (arith, included, worked)),
          set_each-AllTold nodes u (grind (arith, included, worked)),
        )
      ]

  set_each-started :
      (nodes : List Node) (t : Trace)
      → (set_each cfg exclude server nodes env t).0 ≡ ok tt
      → task_pods (set_each cfg exclude server nodes env t).1 ≡ server_pods nodes (task_pods t)
  unfolding set_each
  set_each-started [] t worked = refl
  set_each-started (node ∷ nodes) t worked =
      let u = (set_kubeconfig_server cfg node server env t).1 in
      let added = set_server-task_pods node t in
      let here = set_each-started nodes t in
      let later = set_each-started nodes u in
      elim (Bool-cases (node.name == exclude)) [
        | inl skipped ↦ grind (arith, skipped, here, worked)
        | inr included ↦ grind (arith, included, later, added, worked)
      ]

  -- If the address is changed without an error: for each listed node but the excluded one, in turn, a pod was
  -- created and succeeded that runs the command on the node with the new server, and with the admin flag
  -- exactly if the node is a master; and the pods that were asked for are one for each of these nodes, in the
  -- order of the list.
  pub set_each-pods :
      (nodes : List Node) (t : Trace)
      → (set_each cfg exclude server nodes env t).0 ≡ ok tt
      → AllTold nodes t
        × (task_pods (set_each cfg exclude server nodes env t).1 ≡ server_pods nodes (task_pods t))
  set_each-pods nodes t worked = (set_each-AllTold nodes t worked, set_each-started nodes t worked)
