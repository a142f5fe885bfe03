-- ===== src/Tests/Operator.antt =====
-- A run of the command.
use ekco.Prelude.{◌≡◌, refl, ◌⊎◌, false, none, [], ◌∷◌, All}
use ekco.Errors.{ok}
use ekco.Kube.{Env}
use ekco.Cluster.PurgeNode.Order.{deletions}
use ekco.Ekcoops.Poll.{tick, cancelled, poll}
use ekco.Cli.Operator.{operator_cmd}
use ekco.Cli.PurgeCommand.{purge_node_cmd}
use ekco.Cli.PurgeCommand.Accepted.{AllowedByCommand, purge_node_cmd-deletions}
use ekco.Cli.Init.{EkcoConfig, Viper, Host, initialize}
use ekco.Cli.Operator.Purged.{DeletedBy, operator_cmd-deletions}
use ekco.Cli.Init.{init_ekco_config, init_cluster_controller}
use ekco.Cli.Operator.{run_operator}
use ekco.Webhook.Install.{start_webhooks, start_server, remove_hook}
use ekco.Ekcoops.Poll.{poll_from, poll_tick, on_launch}
use ekco.Ekcoops.Operator.{reconcile, reconcile_nodes, reconcile_cluster, reconcile_add_ons}
use ekco.Ekcoops.Prometheus.{reconcile_prometheus, scale}
use ekco.Cluster.RookVersion.{get_rook_version}
use ekco.Ekcoops.Nodes.{reconcile_node, is_dead, clear_if_dead}
use ekco.Cluster.ClearNode.{clear_node, clear_pods}
use ekco.Cluster.PurgeNode.{purge_node, maybe_master, remove_master, purge_osd_if}
use ekco.Cluster.Envoy.{restart_failed_envoy_pods}
use ekco.Util.Node.{node_ready_counts, node_is_ready, node_is_master}
use ekco.Tests.Env.{nothing, env_with, master, dead_worker}
use ekco.Tests.Settings.{settings, no_services}

abbrev env : Env
env =
    env_with none (record nothing { node = ok dead_worker; nodes = ok (dead_worker ∷ master ∷ []) })

abbrev config : EkcoConfig
config = record {
  operator = settings;
  controller = no_services.controller;
  contour_cert_namespace = "contour";
  pod_image_overrides = [];
}

abbrev viper : Viper
viper = record { unmarshal = ok config; is_set = λ name. false }

abbrev host : Host
host = record {
  logger = ok tt;
  in_cluster_config = ok tt;
  kubernetes_client = ok tt;
  controller_runtime_client = ok tt;
  ceph_client = ok tt;
  dynamic_client = ok tt;
}

operator_cmd-deletions_example :
    All
      (DeletedBy viper (tick ∷ cancelled ∷ []) env)
      (deletions (operator_cmd viper host (tick ∷ cancelled ∷ []) env []).1)
operator_cmd-deletions_example = operator_cmd-deletions viper host (tick ∷ cancelled ∷ []) env

-- The dead worker is purged on the first tick.
one_purged : deletions (operator_cmd viper host (tick ∷ cancelled ∷ []) env []).1 ≡ "w1" ∷ []
unfolding initialize operator_cmd init_ekco_config init_cluster_controller run_operator
    start_webhooks start_server remove_hook poll poll_from poll_tick on_launch reconcile
    reconcile_nodes reconcile_prometheus reconcile_cluster reconcile_add_ons get_rook_version
    reconcile_node is_dead clear_if_dead clear_node purge_node maybe_master remove_master
    purge_osd_if restart_failed_envoy_pods scale node_ready_counts node_is_ready node_is_master
    clear_pods
one_purged = refl

purge_node_cmd-deletions_example :
    let names = deletions (purge_node_cmd viper host "w1" env []).1 in
    (names ≡ [])
    ⊎ (names ≡ "w1" ∷ [])
      × (c : EkcoConfig) × (init_ekco_config viper env [] ≡ (ok c, []))
      × AllowedByCommand c.operator "w1" env
purge_node_cmd-deletions_example = purge_node_cmd-deletions viper host "w1" env
