-- ===== src/Ekcoops/Prometheus.antt =====
-- pkg/ekcoops/prometheus.go and pkg/util/prometheus.go: the replicas of Prometheus and AlertManager.
pub mod Scale
use ekco.Prelude.{ℕ, not, Option, none, some, leb, eqb, if◌then◌else◌}
use ekco.Errors.{failure}
use ekco.Kube.{
  Monitor, Call, prometheus, alert_manager, prometheus_scale, Action, raise, wrap, send, ◌>>=◌,
  ◌>>◌, expect, done, when,
}

-- `min` of pkg/ekcoops/prometheus.go
abbrev pub min : ℕ → ℕ → ℕ
min a b = if leb a b then a else b

abbrev scale_found : Monitor → ℕ → Option (Option ℕ) → Action (Unit {0})
scale_found m replicas none = done
scale_found m replicas (some none) = raise (failure "failed to parse replicas")
scale_found m replicas (some (some current)) =
    when (not (eqb current replicas))
      (expect "failed to patch replicas" (send (Call.patch_replicas m replicas)))

-- `ScalePrometheus` and `ScaleAlertManager`
unfoldable pub scale : Monitor → ℕ → Action (Unit {0})
scale m replicas = do found ← send (Call.get_replicas m); scale_found m replicas found

unfoldable pub reconcile_prometheus : ℕ → Action (Unit {0})
reconcile_prometheus node_count = do
  stopped ← send (Call.read_paused prometheus_scale)
  if stopped then done else do
    wrap "failed to scale prometheus operator" (scale prometheus (min 2 node_count))
    wrap "failed to scale alert manager operator" (scale alert_manager (min 3 node_count))
