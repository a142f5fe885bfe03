-- ===== src/Tests/Purge.antt =====
-- Purging a master and a dead worker.
use ekco.Prelude.{String, ◌≡◌, refl, ◌⊎◌, false, none, some, [], ◌∷◌, ◌==◌, if◌then◌else◌}
use ekco.Errors.{ok}
use ekco.Kube.{ConfigMap, ClusterStatus, Call, Env}
use ekco.Cluster.Etcd.{
  remove_etcd_peer, get_etcd_peer_url, get_etcd_client_url, join_host_port, purged_member_id,
}
use ekco.Cluster.PurgeNode.{purge_osd_if, maybe_master, remove_master, purge_node}
use ekco.Cluster.PurgeNode.Order.{deletions, DeletedLast, purge_node-DeletedLast}
use ekco.Cluster.Kubeadm.{status_to_write, delete_endpoint, remove_kubeadm_endpoint}
use ekco.Cluster.Kubeadm.Status.{
  read_config, endpoint_at, status_to_write-spellings, Content, plain_spelling, lower_spelling,
  remove_kubeadm_endpoint_lem,
}
use ekco.Cluster.ClearNode.{clear_node}
use ekco.Cluster.ClearNode.Stuck.{pod_deletions, clear_node-stuck}
use ekco.Ekcoops.Nodes.{reconcile_node}
use ekco.Ekcoops.Nodes.Purging.{MayPurge, reconcile_node-deletions}
use ekco.Tests.Env.{nothing, env_with, master, dead_worker, tools_pod}
use ekco.Tests.Settings.{settings}

abbrev status : ClusterStatus
status = record {
  meta_kind = "ClusterStatus";
  meta_api_version = "kubeadm.k8s.io/v1beta2";
  kind = "";
  api_version = "";
  api_endpoints = none;
  api_endpoints_lc = some (
      (
        "m1",
        record {
          advertise_address = "";
          advertise_address_lc = "10.0.0.1";
          bind_port = 0;
          bind_port_lc = 6443;
        },
      )
      ∷ (
        "m2",
        record {
          advertise_address = "";
          advertise_address_lc = "10.0.0.2";
          bind_port = 0;
          bind_port_lc = 6443;
        },
      )
      ∷ []);
}

abbrev config : ConfigMap
config = record { name = "kubeadm-config"; contents = ("ClusterStatus", "text") ∷ [] }

abbrev env : Env
env = env_with (some status) (record nothing {
  node = ok master;
  nodes = ok (master ∷ dead_worker ∷ []);
  pods = ok (tools_pod ∷ []);
  config_map = ok config;
  members = record { id = 7; first_peer_url = "https://10.0.0.1:2380" } ∷ [];
})

-- The member of the purged master is removed before its Node.
purges_master : purge_node "m1" false none env [] ≡ (
  ok tt,
  Call.delete_node "m1"
      ∷ Call.etcd_member_remove 7
      ∷ Call.etcd_member_list
      ∷ Call.new_etcd_client ("https://10.0.0.2:2379" ∷ [])
      ∷ Call.get_etcd_tls
      ∷ Call.update_config_map "kube-system"
          (record config { contents = ("ClusterStatus", "printed") ∷ [] })
      ∷ Call.get_config_map "kube-system" "kubeadm-config"
      ∷ Call.get_node "m1"
      ∷ [],
)
unfolding purge_node purge_osd_if maybe_master remove_master remove_kubeadm_endpoint status_to_write
    remove_etcd_peer get_etcd_peer_url get_etcd_client_url join_host_port purged_member_id
purges_master = refl

purge_node-DeletedLast_example :
    DeletedLast "m1" (some master) env [] (purge_node "m1" false none env []).1
purge_node-DeletedLast_example = purge_node-DeletedLast "m1" false none env []

abbrev content : Content
content = ("ClusterStatus", "kubeadm.k8s.io/v1beta2", ("m1", "10.0.0.1", 6443) ∷ [])

status_to_write-spellings_example :
    (status_to_write (plain_spelling content) ≡ plain_spelling content)
    × (status_to_write (lower_spelling content) ≡ plain_spelling content)
status_to_write-spellings_example = status_to_write-spellings content

remove_kubeadm_endpoint_example :
    (remove_kubeadm_endpoint "m1" env [] ≡ (
      ok ("10.0.0.1", "10.0.0.2" ∷ []),
      Call.update_config_map "kube-system"
            (record config { contents = ("ClusterStatus", "printed") ∷ [] })
          ∷ read_config
          ∷ [],
    ))
    × ((name : String)
        → endpoint_at name (status_to_write (delete_endpoint "m1" status))
          ≡ (if "m1" == name then none else endpoint_at name status))
remove_kubeadm_endpoint_example =
    remove_kubeadm_endpoint_lem "m1" env [] config "text" "printed" status
      (record {
        advertise_address = "";
        advertise_address_lc = "10.0.0.1";
        bind_port = 0;
        bind_port_lc = 6443;
      })
      refl refl refl refl refl refl

-- Begun 100 seconds ago.
clear_node-stuck_example :
    ((clear_node "w1" env []).0 ≡ ok tt)
    × (pod_deletions (clear_node "w1" env []).1 ≡ Call.delete_pod "rook-ceph" "tools" ∷ [])
clear_node-stuck_example =
    clear_node-stuck env 1000 (λ t. refl) (λ ns name t. refl) "w1" (tools_pod ∷ []) [] refl

reconcile_node-deletions_example :
    let t' = (reconcile_node settings (1, 0) none dead_worker env []).1 in
    (deletions t' ≡ []) ⊎ (deletions t' ≡ "w1" ∷ []) × MayPurge settings dead_worker (1, 0)
reconcile_node-deletions_example = reconcile_node-deletions settings (1, 0) none dead_worker env []
