-- ===== src/Cluster/Tasks.antt =====
-- pkg/cluster/certs.go: the pods that run a task on a node, and `RotateAllCerts`; and
-- pkg/cluster/set_kubeconfig_server.go.
pub mod Polls
pub mod Completed
use Prim.Native.String.{◌++◌ as join_text}
use ekco.Prelude.{
  ℕ, zero, suc, String, Bool, true, false, not, none, List, [], ◌∷◌, ◌==◌, if◌then◌else◌, is_empty,
}
use ekco.Errors.{Error, Result, other, failure, ok, err}
use ekco.Kube.{
  Node, Pod, TaskContainer, TaskPod, Call, failed, Action, pure, raise, lift, asks, attempt, wrap,
  send, ◌>>=◌, ◌>>◌, expect, done,
}
use ekco.Cluster.Config.{ControllerConfig}
use ekco.Cluster.Certs.{rotate_certs_value}
use ekco.Util.Node.{node_is_master}

-- A selector of one label, as `labels.SelectorFromSet` prints it.
abbrev pub task_selector : String → String
task_selector task = join_text "kurl.sh/task=" task

unfoldable pub delete_pods : String → String → Action (Unit {0})
delete_pods ns selector = do r ← send (Call.delete_task_pods ns selector); lift r

abbrev pub pod_failed : Error
pod_failed = failure "pod failed"

abbrev pub phase_of : Result Pod → String
phase_of (ok pod) = pod.status.phase
phase_of (err e) = ""

-- `pollForPodCompleted`: `waits` is how many of the two-second waits end before the context does. An
-- error of the API server is not an end, since a rotation restarts it.
unfoldable pub poll : String → String → ℕ → Action (Unit {0})
poll ns name zero = raise (failure "context done")
poll ns name (suc waits) = do
  found ← send (Call.get_pod ns name)
  if phase_of found == "Succeeded"
      then done
      else if phase_of found == "Failed"
      then raise pod_failed
      else poll ns name waits

unfoldable pub poll_for_pod_completed : String → String → Action (Unit {0})
poll_for_pod_completed ns name = do waits ← send Call.waits_left; poll ns name waits

-- A task pod is created and waited for.
unfoldable pub run_task : String → TaskPod → Action (Unit {0})
run_task note pod = do
  name ← expect note (send (Call.create_task_pod pod))
  wrap note (poll_for_pod_completed pod.namespace name)

abbrev pub master_toleration : String
master_toleration = "node-role.kubernetes.io/master"

abbrev pub control_plane_toleration : String
control_plane_toleration = "node-role.kubernetes.io/control-plane"

abbrev pub default_etc_kubernetes_dir : String
default_etc_kubernetes_dir = "/etc/kubernetes"

abbrev rotate_container : ControllerConfig → String → TaskContainer
rotate_container cfg ttl = record {
  name = "rotate-certs";
  image = cfg.rotate_certs_image;
  command = "ekco" ∷ "rotate-certs" ∷ join_text "--ttl=" ttl ∷ [];
  env_fields = ("HOSTNAME", "spec.nodeName") ∷ [];
  mounts = ("etc-kubernetes", default_etc_kubernetes_dir) ∷ [];
  working_dir = default_etc_kubernetes_dir;
  is_privileged = false;
}

abbrev pub get_rotate_certs_pod_config : ControllerConfig → String → String → TaskPod
get_rotate_certs_pod_config cfg ttl node_name = record {
  generate_name = "rotate-certs-";
  namespace = cfg.rotate_certs_namespace;
  labels = ("kurl.sh/task", rotate_certs_value) ∷ [];
  node_selector = ("kubernetes.io/hostname", node_name) ∷ [];
  tolerations = control_plane_toleration ∷ master_toleration ∷ [];
  init_containers = [];
  containers = rotate_container cfg ttl ∷ [];
  host_paths = ("etc-kubernetes", default_etc_kubernetes_dir) ∷ [];
}

-- One node after the other, up to the first whose pod fails.
unfoldable pub rotate_on : ControllerConfig → List Node → Action (Unit {0})
rotate_on cfg [] = done
rotate_on cfg (node ∷ nodes) = do
  ttl ← asks (λ env. env.format_duration cfg.rotate_certs_ttl)
  run_task "rotate certs pod for node" (get_rotate_certs_pod_config cfg ttl node.name)
  rotate_on cfg nodes

abbrev or_control_planes : List Node → Action (List Node)
or_control_planes nodes =
    if is_empty nodes
    then expect "list primary nodes"
        (send (Call.list_labelled_nodes "node-role.kubernetes.io/control-plane="))
    else pure nodes

-- The nodes labelled as masters, or if there are none those labelled as control planes.
unfoldable pub primaries : Action (List Node)
primaries = do
  nodes ←
      expect "list primary nodes"
        (send (Call.list_labelled_nodes "node-role.kubernetes.io/master="))
  or_control_planes nodes

-- The pods of a rotation that failed are left for inspection; a failed deletion is only logged.
unfoldable pub rotate_all_certs : ControllerConfig → Action (Unit {0})
rotate_all_certs cfg = do
  r ← attempt (delete_pods cfg.rotate_certs_namespace (task_selector rotate_certs_value))
  nodes ← primaries
  rotate_on cfg nodes
  r ← attempt (delete_pods cfg.rotate_certs_namespace (task_selector rotate_certs_value))
  done

abbrev pub set_kubeconfig_server_value : String
set_kubeconfig_server_value = "set-kubeconfig-server"

abbrev pub text_of_bool : Bool → String
text_of_bool true = "true"
text_of_bool false = "false"

abbrev kubeconfig_container : ControllerConfig → String → Bool → TaskContainer
kubeconfig_container cfg server admin = record {
  name = "set-kubeconfig-server";
  image = cfg.host_task_image;
  command =
      "ekco"
      ∷ "set-kubeconfig-server"
      ∷ join_text "--server=" server
      ∷ "--host-etc-dir=/host/etc"
      ∷ join_text "--admin=" (text_of_bool admin)
      ∷ [];
  env_fields = [];
  mounts = ("var-run-dbus", "/var/run/dbus") ∷ ("host-etc-dir", "/host/etc") ∷ [];
  working_dir = "";
  is_privileged = true;
}

abbrev pub set_kubeconfig_server_pod : ControllerConfig → String → String → Bool → TaskPod
set_kubeconfig_server_pod cfg node_name server admin = record {
  generate_name = "set-kubeconfig-server-";
  namespace = cfg.host_task_namespace;
  labels = ("kurl.sh/task", set_kubeconfig_server_value) ∷ [];
  node_selector = ("kubernetes.io/hostname", node_name) ∷ [];
  tolerations = master_toleration ∷ control_plane_toleration ∷ [];
  init_containers = [];
  containers = kubeconfig_container cfg server admin ∷ [];
  host_paths = ("var-run-dbus", "/var/run/dbus") ∷ ("host-etc-dir", "/etc") ∷ [];
}

unfoldable pub set_kubeconfig_server : ControllerConfig → Node → String → Action (Unit {0})
set_kubeconfig_server cfg node server = do
  run_task "run set-kubeconfig-server pod"
      (set_kubeconfig_server_pod cfg node.name server (node_is_master node))
  r ← attempt (delete_pods cfg.host_task_namespace (task_selector set_kubeconfig_server_value))
  done
