-- ===== src/Cluster/Tasks/Polls.antt =====
-- pkg/cluster/certs.go: one primary after the other.
use ekco.Prelude.{
  ℕ, zero, suc, String, ◌≡◌, refl, ap, ◌∙◌, ◌⊎◌, inl, inr, List, [], ◌∷◌, ◌++◌, arith, ◌==◌,
  if◌then◌else◌, length,
}
use ekco.Errors.{Error, Result, ok, err}
use ekco.Kube.{
  Keeps, then-Keeps, if-Keeps, Node, TaskPod, Call, Trace, Action, raise, lift, send, ◌>>=◌, done,
  Env,
}
use ekco.Cluster.Config.{ControllerConfig}
use ekco.Cluster.Tasks.{
  phase_of, pod_failed, poll, poll_for_pod_completed, run_task, rotate_on,
  get_rotate_certs_pod_config,
}

abbrev noted : Call → List TaskPod → List TaskPod
noted (Call.create_task_pod pod) before = pod ∷ before
noted _ before = before

-- The task pods that were asked for, newest first.
abbrev pub task_pods : Trace → List TaskPod
task_pods [] = []
task_pods (c ∷ t) = noted c (task_pods t)

-- The first pods of a list, newest first, on those before.
abbrev pub first_pods : ℕ → List TaskPod → List TaskPod → List TaskPod
first_pods zero pods before = before
first_pods (suc k) [] before = before
first_pods (suc k) (pod ∷ pods) before = first_pods k pods (pod ∷ before)

abbrev unless_failed : String → Action (Unit {0}) → Action (Unit {0})
unless_failed phase m = if phase == "Failed" then raise pod_failed else m

poll-Keeps : (ns name : String) (waits : ℕ) → Keeps task_pods (poll ns name waits)
unfolding poll
poll-Keeps ns name zero = λ env t. refl
poll-Keeps ns name (suc waits) =
    let again = poll ns name waits in
    then-Keeps task_pods
      (λ found.
        if phase_of found == "Succeeded" then done else unless_failed (phase_of found) again)
      (λ found.
        if-Keeps task_pods (phase_of found == "Succeeded") done
          (unless_failed (phase_of found) again) (λ env t. refl)
          (if-Keeps task_pods (phase_of found == "Failed") (raise pod_failed) again (λ env t. refl)
            (poll-Keeps ns name waits)))
      (send (Call.get_pod ns name)) (λ env t. refl)

pub run_task-task_pods :
    (note : String) (pod : TaskPod) (env : Env) (t : Trace)
    → task_pods (run_task note pod env t).1 ≡ pod ∷ task_pods t
unfolding run_task poll_for_pod_completed
run_task-task_pods note pod env t = grind (arith, poll-Keeps)

module _ (cfg : ControllerConfig) (env : Env) where
  -- The pod that rotates the certificates of each node.
  abbrev pub rotation_pods : List Node → List TaskPod
  rotation_pods [] = []
  rotation_pods (node ∷ nodes) =
      get_rotate_certs_pod_config cfg (env.format_duration cfg.rotate_certs_ttl) node.name
      ∷ rotation_pods nodes

  abbrev rotate_node : Node → Action (Unit {0})
  rotate_node node =
      run_task "rotate certs pod for node"
        (get_rotate_certs_pod_config cfg (env.format_duration cfg.rotate_certs_ttl) node.name)

  -- The run of the list stopped at one of its nodes, where it ended as the run of this node's pod did: with
  -- its error, and without a call after it. The pods before are those of the nodes before.
  abbrev pub StoppedAt : List Node → List TaskPod → Error → Trace → Type 0
  StoppedAt nodes before e u =
      (first : List Node) × (node : Node) × (rest : List Node) × (v : Trace) × (nodes
        ≡ first ++ node ∷ rest)
      × (task_pods v ≡ first_pods (length first) (rotation_pods first) before)
      × (rotate_node node env v ≡ (err e, u))

  abbrev Rotated : List Node → List TaskPod → Result (Unit {0}) × Trace → Type 0
  Rotated nodes before (ok _, u) =
      task_pods u ≡ first_pods (length nodes) (rotation_pods nodes) before
  Rotated nodes before (err e, u) = StoppedAt nodes before e u

  later-Rotated :
      (node : Node) (nodes : List Node) (before : List TaskPod) (run : Result (Unit {0}) × Trace)
      → Rotated nodes
          (get_rotate_certs_pod_config cfg (env.format_duration cfg.rotate_certs_ttl) node.name
            ∷ before)
          run
      → Rotated (node ∷ nodes) before run
  later-Rotated node nodes before (ok _, u) all = all
  later-Rotated node nodes before (err e, u) (first, at, rest, v, split, pods, broken) =
      (node ∷ first, at, rest, v, ap (λ l. node ∷ l) split, pods, broken)

  after_task :
      (node : Node) (nodes : List Node) (before : List TaskPod) (r : Result (Unit {0}))
      (t u : Trace)
      → task_pods t ≡ before
      → rotate_node node env t ≡ (r, u)
      → Rotated nodes
          (get_rotate_certs_pod_config cfg (env.format_duration cfg.rotate_certs_ttl) node.name
            ∷ before)
          (rotate_on cfg nodes env u)
      → Rotated (node ∷ nodes) before ((lift r >>= λ _. rotate_on cfg nodes) env u)
  after_task node nodes before (err e) t u same run later = ([], node, nodes, t, refl, same, run)
  after_task node nodes before (ok _) t u same run later =
      later-Rotated node nodes before (rotate_on cfg nodes env u) later

  rotate_on-Rotated :
      (nodes : List Node) (before : List TaskPod) (t : Trace)
      → task_pods t ≡ before
      → Rotated nodes before (rotate_on cfg nodes env t)
  unfolding rotate_on
  rotate_on-Rotated [] before t same = same
  rotate_on-Rotated (node ∷ nodes) before t same =
      let pod =
        get_rotate_certs_pod_config cfg (env.format_duration cfg.rotate_certs_ttl) node.name in
      let run = run_task "rotate certs pod for node" pod env t in
      let added =
        run_task-task_pods "rotate certs pod for node" pod env t ∙ ap (λ l. pod ∷ l) same in
      after_task node nodes before run.0 t run.1 same refl
        (rotate_on-Rotated nodes (pod ∷ before) run.1 added)

  outcome :
      (nodes : List Node) (before : List TaskPod) (run : Result (Unit {0}) × Trace)
      → Rotated nodes before run
      → (run.0 ≡ ok tt) × (task_pods run.1 ≡ first_pods (length nodes) (rotation_pods nodes) before)
        ⊎ ((e : Error) × (run.0 ≡ err e) × StoppedAt nodes before e run.1)
  outcome nodes before (ok _, u) all = inl (refl, all)
  outcome nodes before (err e, u) stopped = inr (e, refl, stopped)

  pub rotate_on-pods :
      (nodes : List Node) (t : Trace)
      → let run = rotate_on cfg nodes env t in
        (run.0 ≡ ok tt)
          × (task_pods run.1 ≡ first_pods (length nodes) (rotation_pods nodes) (task_pods t))
        ⊎ ((e : Error) × (run.0 ≡ err e) × StoppedAt nodes (task_pods t) e run.1)
  rotate_on-pods nodes t =
      outcome nodes (task_pods t) (rotate_on cfg nodes env t)
        (rotate_on-Rotated nodes (task_pods t) t refl)
