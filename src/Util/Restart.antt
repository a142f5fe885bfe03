-- ===== src/Util/Restart.antt =====
-- pkg/util/restart.go and pkg/util/await_health.go: a restart by an annotation, and the wait for it.
-- `waits` is how many of the one-second waits end before the context does.
pub mod Waits
use ekco.Prelude.{ℕ, zero, suc, String, Bool, not, ◌&&◌, eqb, if◌then◌else◌, insert}
use ekco.Errors.{is_not_found_err, Result, failure, ok, err}
use ekco.Kube.{
  WorkloadStatus, Workload, Call, Action, pure, raise, send, ◌>>=◌, ◌>>◌, plain, expect_plain,
  format_now, done, when,
}
use ekco.Prelude.Text.{replace_all}

-- One loop for the three kinds: the test, and while it fails a wait.
unfoldable pub await : Action Bool → ℕ → Action (Unit {0})
await check zero = do ready ← check; when (not ready) (raise (failure "context done"))
await check (suc waits) = do ready ← check; when (not ready) (await check waits)

abbrev pub await_ready : Action Bool → Action (Unit {0})
await_ready check = do waits ← send Call.waits_left; await check waits

abbrev pub is_deployment_ready : WorkloadStatus → Bool
is_deployment_ready s =
    eqb s.ready_replicas s.replicas
    && eqb s.available_replicas s.replicas
    && eqb s.unavailable_replicas 0
    && eqb s.updated_replicas s.replicas

abbrev pub is_stateful_set_ready : WorkloadStatus → Bool
is_stateful_set_ready s =
    eqb s.ready_replicas s.replicas
    && eqb s.available_replicas s.replicas
    && eqb s.updated_replicas s.replicas

abbrev pub check_deployment : String → String → Action Bool
check_deployment ns name = do
  w ← expect_plain "failed to get Deployment" (send (Call.get_deployment ns name))
  pure (is_deployment_ready w.status)

abbrev pub check_stateful_set : String → String → Action Bool
check_stateful_set ns name = do
  w ← expect_plain "failed to get StatefulSet" (send (Call.get_stateful_set ns name))
  pure (is_stateful_set_ready w.status)

abbrev pub check_daemon_set : String → String → Action Bool
check_daemon_set ns name = do
  w ← expect_plain "failed to get DaemonSet" (send (Call.get_daemon_set ns name))
  pure (eqb w.status.unavailable_replicas 0)

abbrev pub restarted : String → Workload → Workload
restarted now w = record w {
  pod_annotations = insert "ekco.kurl.sh/restartedAt" (replace_all now ":" "-") w.pod_annotations;
}

-- What the three functions do with the answer of the server.
abbrev pub restart_found :
    (Workload → Action (Result (Unit {0}))) → Action Bool → Result Workload → Action (Unit {0})
restart_found update check (err e) =
    if is_not_found_err e then done else raise (failure "failed to get")
restart_found update check (ok w) = do
  now ← format_now
  expect_plain "failed to set restart label" (update (restarted now w))
  plain "failed to wait" (await_ready check)

unfoldable pub restart_deployment : String → String → Action (Unit {0})
restart_deployment ns name = do
  found ← send (Call.get_deployment ns name)
  restart_found (λ w. send (Call.update_deployment ns w)) (check_deployment ns name) found

unfoldable pub restart_stateful_set : String → String → Action (Unit {0})
restart_stateful_set ns name = do
  found ← send (Call.get_stateful_set ns name)
  restart_found (λ w. send (Call.update_stateful_set ns w)) (check_stateful_set ns name) found

unfoldable pub restart_daemon_set : String → String → Action (Unit {0})
restart_daemon_set ns name = do
  found ← send (Call.get_daemon_set ns name)
  restart_found (λ w. send (Call.update_daemon_set ns w)) (check_daemon_set ns name) found
