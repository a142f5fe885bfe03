-- ===== src/Ekcoops/Prometheus/Scale.antt =====
-- What the operator does to the replicas of the monitors.
use ekco.Prelude.{ℕ, ◌≡◌, false, some, ◌∷◌, arith, ltb, eqb, if◌then◌else◌}
use ekco.Errors.{ok}
use ekco.Kube.{Monitor, Call, prometheus, alert_manager, prometheus_scale, Trace, Env}
use ekco.Ekcoops.Prometheus.{scale, reconcile_prometheus}

-- Asks for the replicas, and patches them if they are not as wanted.
abbrev pub scaled : Monitor → ℕ → ℕ → Trace → Trace
scaled m current wanted u =
    if eqb current wanted
    then Call.get_replicas m ∷ u
    else Call.patch_replicas m wanted ∷ Call.get_replicas m ∷ u

scale_lem :
    (env : Env) (m : Monitor) (current wanted : ℕ) (t : Trace)
    → env.answer (Call.get_replicas m) t ≡ some (some current)
    → env.answer (Call.patch_replicas m wanted) (Call.get_replicas m ∷ t) ≡ ok tt
    → scale m wanted env t ≡ (ok tt, scaled m current wanted t)
unfolding scale
scale_lem env m current wanted t has accepted = ground arith

-- Unless it is paused, and if the server accepts patches, Prometheus gets as many replicas as nodes up
-- to 2 and AlertManager up to 3; each is patched only if it has another number.
pub reconcile_prometheus-trace :
    (env : Env) (t : Trace) (node_count p a : ℕ)
    → env.answer (Call.read_paused prometheus_scale) t ≡ false
    → ((u : Trace) → env.answer (Call.get_replicas prometheus) u ≡ some (some p))
    → ((u : Trace) → env.answer (Call.get_replicas alert_manager) u ≡ some (some a))
    → ((m : Monitor) (n : ℕ) (u : Trace) → env.answer (Call.patch_replicas m n) u ≡ ok tt)
    → reconcile_prometheus node_count env t ≡ (
      ok tt,
      scaled alert_manager a (if ltb node_count 3 then node_count else 3) (
          scaled prometheus p
            (if ltb node_count 2 then node_count else 2)
            (Call.read_paused prometheus_scale ∷ t)),
    )
unfolding reconcile_prometheus
reconcile_prometheus-trace env t node_count p a running prom alerts accepted =
    let w2 = if ltb node_count 2 then node_count else 2 in
    let w3 = if ltb node_count 3 then node_count else 3 in
    let t1 = Call.read_paused prometheus_scale ∷ t in
    let t2 = scaled prometheus p w2 t1 in
    ground (
      arith,
      scale_lem env prometheus p w2 t1 (prom t1)
          (accepted prometheus w2 (Call.get_replicas prometheus ∷ t1)),
      scale_lem env alert_manager a w3 t2 (alerts t2)
          (accepted alert_manager w3 (Call.get_replicas alert_manager ∷ t2)),
    )
