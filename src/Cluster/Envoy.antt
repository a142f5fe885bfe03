-- ===== src/Cluster/Envoy.antt =====
-- pkg/cluster/contour.go: envoy pods that do not get ready are deleted. A time that is before
-- `now - duration` is one that comes before `now` when the duration is added.
pub mod Failed
use ekco.Prelude.{
  ℕ, ◌+◌, ◌-◌, String, Bool, true, false, not, ◌&&◌, Option, none, some, List, [], ◌∷◌, ◌==◌, ltb,
  leb, if◌then◌else◌,
}
use ekco.Errors.{add_failure, Error, Result, ok}
use ekco.Kube.{
  ContainerStatus, PodCondition, PodStatus, Pod, Call, Action, pure, send, ◌>>=◌, ◌>>◌, expect,
  when, report,
}
use ekco.Cluster.Config.{ControllerConfig}

-- Running, and not started after `now` less the duration.
abbrev pub settled : ℕ → ℕ → Option ℕ → Bool
settled now duration none = false
settled now duration (some started) = leb (started + duration) now

-- The `switch` on the name: what is known of the shutdown manager and of envoy.
abbrev pub note_ready : ContainerStatus → Bool × Bool → Bool × Bool
note_ready s (manager, envoy) =
    if s.name == "shutdown-manager"
    then (s.ready, envoy)
    else if s.name == "envoy"
    then (manager, s.ready)
    else (manager, envoy)

unfoldable pub readiness : ℕ → ℕ → List ContainerStatus → Bool × Bool → Bool × Bool
readiness now duration [] found = found
readiness now duration (s ∷ statuses) found =
    readiness now duration statuses
      (if settled now duration s.started_at then note_ready s found else found)

abbrev pub is_not_ready_condition : PodCondition → Bool
is_not_ready_condition c =
    c.type == "ContainersReady" && c.reason == "ContainersNotReady" && c.status == "False"

-- The first such condition decides.
unfoldable pub not_ready_for : ℕ → ℕ → List PodCondition → Bool
not_ready_for now duration [] = false
not_ready_for now duration (c ∷ conditions) =
    let rest = not_ready_for now duration conditions in
    if is_not_ready_condition c then ltb (c.last_transition_time + duration) now else rest

abbrev pub should_restart_at : ℕ → ℕ → PodStatus → Bool
should_restart_at now duration status =
    let (manager, envoy) = readiness now duration status.container_statuses (false, false) in
    manager && not envoy && not_ready_for now duration status.conditions

unfoldable pub should_restart_envoy_pod : PodStatus → ℕ → Action Bool
should_restart_envoy_pod status duration =
    if not (status.phase == "Running")
    then pure false
    else do now ← send Call.now; pure (should_restart_at now duration status)

abbrev pub delete_failed : String → Pod → Bool → Action (Result (Unit {0}))
delete_failed ns pod false = pure (ok tt)
delete_failed ns pod true = send (Call.delete_pod ns pod.name)

-- The loop; a deletion that fails does not stop it.
unfoldable pub restart_pods : String → ℕ → Option Error → List Pod → Action (Option Error)
restart_pods ns duration errs [] = pure errs
restart_pods ns duration errs (pod ∷ pods) = do
  failed ← should_restart_envoy_pod pod.status duration
  deleted ← delete_failed ns pod failed
  restart_pods ns duration (add_failure "forcefully deleting pod" errs deleted) pods

abbrev restart_listed : ControllerConfig → Action (Unit {0})
restart_listed cfg = do
  pods ← expect "list envoy pods" (send (Call.list_pods cfg.contour_namespace "app=envoy"))
  errs ← restart_pods cfg.contour_namespace cfg.envoy_pods_not_ready_duration none pods
  report errs

unfoldable pub restart_failed_envoy_pods : ControllerConfig → Action (Unit {0})
restart_failed_envoy_pods cfg =
    when (cfg.restart_failed_envoy_pods && not (cfg.contour_namespace == "")) (restart_listed cfg)
