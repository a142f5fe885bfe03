-- ===== src/Cluster/InternalLb.antt =====
-- pkg/cluster/internallb.go: the load balancer on every node, and the ConfigMap that says for which
-- nodes it was last updated.
pub mod Reconciled
pub mod AnyOrder
use Prim.Native.String.{◌++◌ as join_text, compare}
use text.Mathlib.Text.{is_le}
use ekco.Prelude.{
  String, false, not, ◌&&◌, List, [], ◌∷◌, map, ◌==◌, if◌then◌else◌, is_empty, lookup, insert,
}
use ekco.Errors.{is_not_found_err, Result, wrapped, ok, err}
use ekco.Kube.{
  Node, Pod, ConfigMap, Piece, word, TaskContainer, TaskPod, Call, Action, raise, attempt, send,
  ◌>>=◌, ◌>>◌, expect, done,
}
use ekco.Prelude.Text.{join_all}
use ekco.Cluster.Config.{ControllerConfig}
use ekco.Cluster.Storage.{value_or_empty}
use ekco.Cluster.Tasks.{
  run_task, delete_pods, task_selector, master_toleration, control_plane_toleration, text_of_bool,
}
use ekco.Util.Node.{node_is_master, node_internal_ip}

abbrev pub update_internal_lb_value : String
update_internal_lb_value = "update-internallb"

-- The Go library promises of `sort.Strings` only that it sorts; on strings every sort gives the same.
unfoldable pub place : String → List String → List String
place s [] = s ∷ []
place s (x ∷ xs) = let rest = place s xs in if is_le (compare s x) then s ∷ x ∷ xs else x ∷ rest

unfoldable pub sort_strings : List String → List String
sort_strings [] = []
sort_strings (s ∷ texts) = place s (sort_strings texts)

abbrev pub node_prop : Node → String
node_prop node = join_text node.name (
    join_text " "
      (join_text (text_of_bool (node_is_master node)) (join_text " " (node_internal_ip node))))

-- `nextInternalLB`
abbrev pub next_internal_lb : List Node → String
next_internal_lb nodes = join_all (sort_strings (map node_prop nodes)) ","

unfoldable pub primary_hosts : List Node → List String
primary_hosts [] = []
primary_hosts (node ∷ nodes) =
    let rest = primary_hosts nodes in
    if node_is_master node && not (node_internal_ip node == "")
    then node_internal_ip node ∷ rest
    else rest

abbrev lb_container : String → String → String → String → TaskContainer
lb_container name image script mount_name = record {
  name = name;
  image = image;
  command = "/bin/bash" ∷ "-c" ∷ script ∷ [];
  env_fields = [];
  mounts = (mount_name, "/host/etc") ∷ [];
  working_dir = "";
  is_privileged = false;
}

abbrev pub config_script : String → String
config_script hosts =
    join_text "mkdir -p /host/etc/haproxy && /usr/bin/ekco generate-haproxy-config --primary-host="
      (join_text hosts " > /host/etc/haproxy/haproxy.cfg")

abbrev pub manifest_script : String → String → String
manifest_script hosts haproxy_image =
    join_text "/usr/bin/ekco generate-haproxy-manifest --primary-host=" (
      join_text hosts
        (join_text " --file /host/etc/kubernetes/manifests/haproxy.yaml --image=" haproxy_image))

abbrev pub get_update_internal_lb_pod : ControllerConfig → String → List String → TaskPod
get_update_internal_lb_pod cfg node_name hosts =
    let joined = join_all hosts "," in
    record {
      generate_name = "update-haproxy-";
      namespace = cfg.host_task_namespace;
      labels = ("kurl.sh/task", update_internal_lb_value) ∷ [];
      node_selector = ("kubernetes.io/hostname", node_name) ∷ [];
      tolerations = master_toleration ∷ control_plane_toleration ∷ [];
      init_containers = lb_container "config" cfg.host_task_image (config_script joined) "etc" ∷ [];
      containers =
          lb_container "manifest" cfg.host_task_image
            (manifest_script joined cfg.internal_load_balancer_haproxy_image) "etc"
          ∷ [];
      host_paths = ("etc", "/etc") ∷ [];
    }

unfoldable pub update_nodes : ControllerConfig → List String → List Node → Action (Unit {0})
update_nodes cfg hosts [] = done
update_nodes cfg hosts (node ∷ nodes) = do
  run_task "update internal loadbalancer pod for node"
      (get_update_internal_lb_pod cfg node.name hosts)
  update_nodes cfg hosts nodes

abbrev kill_cmd : List Piece
kill_cmd = word "/bin/kill" ∷ word "-HUP" ∷ word "1" ∷ []

-- The goroutines' calls, one after the other: what they return is only logged.
unfoldable pub sighup_all : String → String → List Pod → Action (Unit {0})
sighup_all ns container [] = done
sighup_all ns container (pod ∷ pods) = do
  answer ← send (Call.exec_container ns pod.name container kill_cmd)
  sighup_all ns container pods

unfoldable pub sighup_pods : String → String → String → Action (Unit {0})
sighup_pods ns selector container = do
  pods ← expect "list pods" (send (Call.list_pods ns selector))
  sighup_all ns container pods

unfoldable pub update_internal_lb : ControllerConfig → List Node → Action (Unit {0})
update_internal_lb cfg nodes = do
  r ← attempt (delete_pods cfg.host_task_namespace (task_selector update_internal_lb_value))
  if is_empty (primary_hosts nodes) then done else do
    update_nodes cfg (primary_hosts nodes) nodes
    r ← attempt (delete_pods cfg.host_task_namespace (task_selector update_internal_lb_value))
    r ← attempt (sighup_pods "kube-system" "app=kurl-haproxy" "haproxy")
    done

abbrev pub first_map : ConfigMap
first_map = record {
  name = update_internal_lb_value;
  contents = (update_internal_lb_value, "") ∷ [];
}

abbrev pub noted : String → ConfigMap → ConfigMap
noted next cm = record cm { contents = insert update_internal_lb_value next cm.contents }

abbrev reconcile_found : ControllerConfig → List Node → Result ConfigMap → Action (Unit {0})
reconcile_found cfg nodes (err e) =
    if is_not_found_err e
    then expect "create configmap" (send (Call.create_config_map cfg.host_task_namespace first_map))
    else raise (wrapped "get configmap" e)
reconcile_found cfg nodes (ok cm) =
    if next_internal_lb nodes == value_or_empty (lookup update_internal_lb_value cm.contents)
    then done
    else do
      update_internal_lb cfg nodes
      expect "update configmap" (
          send (Call.update_config_map cfg.host_task_namespace (noted (next_internal_lb nodes) cm)))

unfoldable pub reconcile_internal_lb : ControllerConfig → List Node → Action (Unit {0})
reconcile_internal_lb cfg nodes = do
  found ← send (Call.get_config_map cfg.host_task_namespace update_internal_lb_value)
  reconcile_found cfg nodes found
