-- ===== src/Cluster/Envoy/Failed.antt =====
-- Which envoy pods are deleted.
use ekco.Prelude.{
  ℕ, ◌+◌, String, ◌≡◌, refl, ap, ◌∙◌, inl, inr, Bool, true, false, not, ◌&&◌, Option, none, some,
  List, [], ◌∷◌, arith, ◌==◌, eq_iff, ltb, if◌then◌else◌, Bool-cases, any,
}
use ekco.Errors.{Error, ok}
use ekco.Kube.{ContainerStatus, PodCondition, PodStatus, Pod, Call, Trace, Env}
use ekco.Cluster.Config.{ControllerConfig}
use ekco.Cluster.ClearNode.Stuck.{pod_deletions}
use ekco.Cluster.Envoy.{
  settled, note_ready, readiness, is_not_ready_condition, not_ready_for, should_restart_at,
  should_restart_envoy_pod, restart_pods, restart_failed_envoy_pods,
}

-- A shutdown manager that is ready and has run for the duration.
abbrev pub is_ready_manager : ℕ → ℕ → ContainerStatus → Bool
is_ready_manager now duration s =
    s.name == "shutdown-manager" && s.ready && settled now duration s.started_at

-- An envoy that is ready and has run for the duration.
abbrev pub is_ready_envoy : ℕ → ℕ → ContainerStatus → Bool
is_ready_envoy now duration s = s.name == "envoy" && s.ready && settled now duration s.started_at

abbrev pub not_ready_since : ℕ → ℕ → PodCondition → Bool
not_ready_since now duration c =
    is_not_ready_condition c && ltb (c.last_transition_time + duration) now

readiness-manager :
    (now duration : ℕ) (statuses : List ContainerStatus) (found : Bool × Bool)
    → found.0 ≡ false
    → (readiness now duration statuses found).0 ≡ true
    → any (is_ready_manager now duration) statuses ≡ true
unfolding readiness
readiness-manager now duration [] found before h = ground arith
readiness-manager now duration (s ∷ statuses) found before h =
    let next = if settled now duration s.started_at then note_ready s found else found in
    elim (Bool-cases next.0) [
      | inl noted ↦ ground arith
      | inr unknown ↦ ground (arith, readiness-manager now duration statuses next unknown h)
    ]

not_ready_for-any :
    (now duration : ℕ) (conditions : List PodCondition)
    → not_ready_for now duration conditions ≡ true
    → any (not_ready_since now duration) conditions ≡ true
unfolding not_ready_for
not_ready_for-any now duration [] h = ground arith
not_ready_for-any now duration (c ∷ conditions) h =
    ground (arith, not_ready_for-any now duration conditions)

-- Of the containers of a name that run since the duration at least, the last one says if it is ready; the
-- default holds without one.
abbrev pub last_ready : String → ℕ → ℕ → List ContainerStatus → Bool → Bool
last_ready name now duration [] default = default
last_ready name now duration (s ∷ statuses) default =
    last_ready name now duration statuses
      (if s.name == name && settled now duration s.started_at then s.ready else default)

-- The first condition that says that the containers are not ready, for this reason, decides.
abbrev pub first_not_ready : List PodCondition → Option ℕ
first_not_ready [] = none
first_not_ready (c ∷ conditions) =
    if c.type == "ContainersReady" && c.reason == "ContainersNotReady" && c.status == "False"
    then some c.last_transition_time
    else first_not_ready conditions

abbrev pub is_longer_ago : ℕ → ℕ → Option ℕ → Bool
is_longer_ago now duration none = false
is_longer_ago now duration (some since) = ltb (since + duration) now

-- A failed pod: it is running, its shutdown manager is ready, its envoy is not, and its containers have not
-- been ready for longer than the duration.
abbrev pub is_failed : ℕ → ℕ → PodStatus → Bool
is_failed now duration status =
    status.phase == "Running"
    && (last_ready "shutdown-manager" now duration status.container_statuses false
        && not (last_ready "envoy" now duration status.container_statuses false)
        && is_longer_ago now duration (first_not_ready status.conditions))

not_both : (name : String) → (name == "shutdown-manager") ≡ true → (name == "envoy") ≡ false
not_both name manager =
    let named : name ≡ "shutdown-manager" = ground (arith, eq_iff name "shutdown-manager") in
    ap (λ n. n == "envoy") named

one_status :
    (now duration : ℕ) (s : ContainerStatus) (manager envoy : Bool)
    → (if settled now duration s.started_at
        then note_ready s (manager, envoy)
        else (manager, envoy))
      ≡ (
        (if s.name == "shutdown-manager" && settled now duration s.started_at
            then s.ready
            else manager),
        (if s.name == "envoy" && settled now duration s.started_at then s.ready else envoy),
      )
one_status now duration s manager envoy = elim (Bool-cases (s.name == "shutdown-manager")) [
  | inl is_manager ↦
      let not_envoy = not_both s.name is_manager in
      elim (Bool-cases (settled now duration s.started_at)) [
        | inl runs ↦ rw (is_manager, not_envoy, runs)
        | inr starts ↦ rw (is_manager, not_envoy, starts)
      ]
  | inr is_other ↦ elim (Bool-cases (settled now duration s.started_at)) [
    | inl runs ↦ elim (Bool-cases (s.name == "envoy")) [
      | inl is_envoy ↦ rw (is_other, runs, is_envoy)
      | inr neither ↦ rw (is_other, runs, neither)
    ]
    | inr starts ↦ elim (Bool-cases (s.name == "envoy")) [
      | inl is_envoy ↦ rw (is_other, starts, is_envoy)
      | inr neither ↦ rw (is_other, starts, neither)
    ]
  ]
]

readiness-last :
    (now duration : ℕ) (statuses : List ContainerStatus) (manager envoy : Bool)
    → readiness now duration statuses (manager, envoy) ≡ (
      last_ready "shutdown-manager" now duration statuses manager,
      last_ready "envoy" now duration statuses envoy,
    )
unfolding readiness
readiness-last now duration [] manager envoy = refl
readiness-last now duration (s ∷ statuses) manager envoy =
    let (m, e) =
      if settled now duration s.started_at
      then note_ready s (manager, envoy)
      else (manager, envoy) in
    readiness-last now duration statuses m e
    ∙ ap
        (λ p. (
          last_ready "shutdown-manager" now duration statuses p.0,
          last_ready "envoy" now duration statuses p.1,
        ))
        (one_status now duration s manager envoy)

not_ready_for-first :
    (now duration : ℕ) (conditions : List PodCondition)
    → not_ready_for now duration conditions
      ≡ is_longer_ago now duration (first_not_ready conditions)
unfolding not_ready_for
not_ready_for-first now duration [] = refl
not_ready_for-first now duration (c ∷ conditions) =
    ground (arith, not_ready_for-first now duration conditions)

should_restart_at-failed :
    (now duration : ℕ) (status : PodStatus)
    → (status.phase == "Running" && should_restart_at now duration status)
      ≡ is_failed now duration status
should_restart_at-failed now duration status = rw (
  readiness-last now duration status.container_statuses false false,
  not_ready_for-first now duration status.conditions,
)

-- The deletions of the failed pods, in the order of the list, on top of earlier ones.
abbrev pub restarts : String → ℕ → ℕ → List Pod → Trace → Trace
restarts ns now duration [] t = t
restarts ns now duration (pod ∷ pods) t =
    restarts ns now duration pods
      (if is_failed now duration pod.status then Call.delete_pod ns pod.name ∷ t else t)

-- A pod is held to be failed only if it is running, a shutdown manager in it is ready and has run for
-- the duration, and its containers have not been ready for longer than the duration.
pub should_restart_envoy_pod-only :
    (status : PodStatus) (duration : ℕ) (env : Env) (t : Trace)
    → (should_restart_envoy_pod status duration env t).0 ≡ ok true
    → let now = env.answer Call.now t in
      ((status.phase == "Running") ≡ true)
      × (any (is_ready_manager now duration) status.container_statuses ≡ true)
      × (any (not_ready_since now duration) status.conditions ≡ true)
unfolding should_restart_envoy_pod
should_restart_envoy_pod-only status duration env t h =
    let now = env.answer Call.now t in
    ground (
      arith,
      readiness-manager now duration status.container_statuses (false, false) refl,
      not_ready_for-any now duration status.conditions,
    )

module _ (env : Env) (n : ℕ) (clock : (t : Trace) → env.answer Call.now t ≡ n) where
  restart_pods-lem :
      (ns : String) (duration : ℕ) (pods : List Pod) (errs : Option Error) (t : Trace)
      → pod_deletions (restart_pods ns duration errs pods env t).1
        ≡ restarts ns n duration pods (pod_deletions t)
  unfolding restart_pods should_restart_envoy_pod
  restart_pods-lem ns duration [] errs t = refl
  restart_pods-lem ns duration (pod ∷ pods) errs t = grind (
    arith,
    clock,
    restart_pods-lem ns duration pods,
    should_restart_at-failed n duration pod.status,
  )

  pub restart_failed_envoy_pods-deletions :
      (cfg : ControllerConfig) (pods : List Pod) (t : Trace)
      → cfg.restart_failed_envoy_pods ≡ true
      → (cfg.contour_namespace == "") ≡ false
      → env.answer (Call.list_pods cfg.contour_namespace "app=envoy") t ≡ ok pods
      → pod_deletions (restart_failed_envoy_pods cfg env t).1
        ≡ restarts cfg.contour_namespace n cfg.envoy_pods_not_ready_duration pods (pod_deletions t)
  unfolding restart_failed_envoy_pods
  restart_failed_envoy_pods-deletions cfg pods t enabled named listed =
      let list = Call.list_pods cfg.contour_namespace "app=envoy" in grind (arith, restart_pods-lem)
