-- ===== src/Cluster/InternalLb/Reconciled.antt =====
-- pkg/cluster/internallb.go: for which nodes the ConfigMap says that the load balancer is updated.
use ekco.Prelude.{◌≡◌, List, ◌∷◌, arith, ◌==◌, if◌then◌else◌, lookup}
use ekco.Errors.{wrapped, ok, err}
use ekco.Kube.{Node, ConfigMap, Call, Trace, Env}
use ekco.Cluster.Config.{ControllerConfig}
use ekco.Cluster.Storage.{value_or_empty}
use ekco.Cluster.InternalLb.{
  update_internal_lb_value, next_internal_lb, update_internal_lb, reconcile_internal_lb, noted,
}

module _ (cfg : ControllerConfig) (nodes : List Node) (env : Env) (t : Trace) where
  abbrev pub read_map : Call
  read_map = Call.get_config_map cfg.host_task_namespace update_internal_lb_value

  abbrev pub record_map : ConfigMap → Call
  record_map cm = Call.update_config_map cfg.host_task_namespace (noted (next_internal_lb nodes) cm)

  module _ (cm : ConfigMap)
      (found : env.answer (Call.get_config_map cfg.host_task_namespace update_internal_lb_value) t
        ≡ ok cm) where
    -- If the ConfigMap is read: where it names these nodes already, nothing is done; else the update
    -- runs, its error is returned and then nothing is recorded, and only after an update without an
    -- error the nodes are recorded, as the last call.
    pub reconcile_internal_lb-recorded : reconcile_internal_lb cfg nodes env t ≡ (
        let read = Call.get_config_map cfg.host_task_namespace update_internal_lb_value ∷ t in
        let (r, u) = update_internal_lb cfg nodes env read in
        let record_it =
          Call.update_config_map cfg.host_task_namespace (noted (next_internal_lb nodes) cm) in
        if next_internal_lb nodes == value_or_empty (lookup update_internal_lb_value cm.contents)
        then (ok tt, read)
        else elim r [
          | err e ↦ (err e, u)
          | ok _ ↦ (
            elim (env.answer record_it u) [
              | ok a ↦ ok a
              | err e ↦ err (wrapped "update configmap" e)
            ],
            record_it ∷ u,
          )
        ])
    unfolding reconcile_internal_lb
    reconcile_internal_lb-recorded = ground arith
