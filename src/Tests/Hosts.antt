-- ===== src/Tests/Hosts.antt =====
-- The commands on the files of a host, and a wait for a filesystem.
use ekco.Prelude.{
  String, ◌≡◌, refl, true, false, ◌&&◌, none, some, [], ◌∷◌, ◌==◌, eqb, if◌then◌else◌,
}
use ekco.Errors.{failure, ok, err}
use ekco.Kube.{Call, Trace, Env}
use ekco.Prelude.Text.{uint_from, atoi}
use ekco.Haproxy.{generate_haproxy_manifest}
use ekco.Haproxy.Rewrites.{Describes, generate_haproxy_manifest-again}
use ekco.Cluster.Filesystem.{wait_ceph_filesystem}
use ekco.Cluster.Filesystem.Stuck.{wait_ceph_filesystem-stuck}
use ekco.Cluster.Tasks.{run_task, poll_for_pod_completed, poll, delete_pods, set_kubeconfig_server}
use ekco.Cluster.Tasks.Polls.{task_pods}
use ekco.Cli.SetKubeconfigServer.{
  overwrite, set_server, set_kubeconfig_server_command, kubelet_conf,
}
use ekco.Cli.SetKubeconfigServer.Writes.{
  changes, Updated, AdminPart, overwritten, set_kubeconfig_server_command-Updates,
}
use ekco.Cli.ChangeLoadBalancer.{set_each}
use ekco.Cli.ChangeLoadBalancer.Nodes.{AllTold, server_pods, set_each-pods}
use ekco.Tests.Env.{nothing, env_with, master, dead_worker, rook_1_9, tools_pod}
use ekco.Tests.Settings.{no_services}

abbrev written_env : Env
written_env = env_with none (record nothing { manifest = some "haproxy:2" })

described : Describes written_env "haproxy:2" 3 "haproxy:2"
unfolding atoi uint_from
described = (
  record { annotations = ("kurl.sh/haproxy-fileversion", "3") ∷ []; images = "haproxy:2" ∷ [] },
  refl,
  refl,
  refl,
  refl,
  refl,
)

generate_haproxy_manifest-again_example :
    let asked = Call.read_if_present "haproxy.yaml" ∷ Call.make_directory "haproxy.yaml" ∷ [] in
    generate_haproxy_manifest "haproxy.yaml" "haproxy:3" 3 written_env [] ≡ (
      if eqb 3 3 && "haproxy:2" == "haproxy:3"
      then (ok false, asked)
      else (ok true, Call.write_file "haproxy.yaml" "haproxy:3" ∷ asked))
generate_haproxy_manifest-again_example =
    generate_haproxy_manifest-again "haproxy.yaml" "haproxy:2" "haproxy:3" "haproxy:2" "haproxy:3" 3
      3 written_env [] described refl refl refl refl

wait_ceph_filesystem-stuck_example :
    (wait_ceph_filesystem rook_1_9 "rook-shared-fs" (env_with none nothing) []).0
    ≡ err (failure "context done")
wait_ceph_filesystem-stuck_example =
    wait_ceph_filesystem-stuck rook_1_9 "rook-shared-fs" (env_with none nothing)
      (λ selector t. ([], refl, refl)) []

abbrev changed : Trace
changed = (set_kubeconfig_server_command "/host/etc" "https://lb" true (env_with none nothing) []).1

changes_work :
    set_kubeconfig_server_command "/host/etc" "https://lb" true (env_with none nothing) []
    ≡ (ok tt, changed)
unfolding set_kubeconfig_server_command set_server overwrite
changes_work = refl

set_kubeconfig_server_command-Updates_example :
    let env = env_with none nothing in
    (updated : String) × (v : Trace) × (w : Trace) × Updated env
      (kubelet_conf "/host/etc")
      "https://lb"
      updated
    × (changes env v ≡ overwritten (kubelet_conf "/host/etc") updated [])
    × AdminPart "/host/etc" "https://lb" env true v w
    × (changes env changed ≡ Call.restart_kubelet ∷ changes env w)
set_kubeconfig_server_command-Updates_example =
    set_kubeconfig_server_command-Updates "/host/etc" "https://lb" (env_with none nothing) true []
      changed changes_work

abbrev task_env : Env
task_env = env_with none (record nothing {
  pod = ok (record tools_pod { status = record tools_pod.status { phase = "Succeeded" } });
})

each_works :
    (set_each no_services.controller "m1" "https://lb" (master ∷ dead_worker ∷ []) task_env []).0
    ≡ ok tt
unfolding set_each set_kubeconfig_server run_task poll_for_pod_completed poll delete_pods
each_works = refl

set_each-pods_example :
    AllTold no_services.controller "m1" "https://lb" task_env (master ∷ dead_worker ∷ []) []
    × (task_pods
          (set_each no_services.controller "m1" "https://lb"
            (master ∷ dead_worker ∷ [])
            task_env
            []).1
        ≡ server_pods no_services.controller "m1" "https://lb" task_env
            (master ∷ dead_worker ∷ [])
            [])
set_each-pods_example =
    set_each-pods no_services.controller "m1" "https://lb" task_env (master ∷ dead_worker ∷ []) []
      each_works
