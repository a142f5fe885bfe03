-- ===== src/Tests/Env.antt =====
-- An environment that answers each kind of call in one way.
use ekco.Prelude.{
  ℕ, String, Bool, true, false, not, Option, none, some, List, [], ◌∷◌, ◌==◌, eqb, if◌then◌else◌,
}
use ekco.Errors.{Result, not_found, api, ok, err}
use ekco.Kube.{
  Node, Pod, Workload, ConfigMap, EtcdMember, internal_ip, Version, CephCluster, CephBlockPool,
  ClusterStatus, Service, Secret, StorageClass, ObjectInfo, Certificate, Reply, Call, Trace, Env,
  no_fields,
}
use ekco.Prelude.Int.{negsuc}

pub record Answers : Type 0 where
  pub node : Result Node
  pub nodes : Result (List Node)
  pub pods : Result (List Pod)
  pub config_map : Result ConfigMap
  pub deployments : Result (List Workload)
  pub cluster : Result CephCluster
  pub pool : Result CephBlockPool
  pub exit_code : ℕ
  pub stdout : String
  pub members : List EtcdMember
  pub clock : ℕ
  pub secret : Result Secret
  pub service : Result Service
  pub storage_class : Result StorageClass
  pub stateful_set : Result Workload
  pub buckets : Result (List String)
  pub objects : List ObjectInfo
  pub pod : Result Pod
  pub waits : ℕ
  pub is_paused : Bool
  pub certs : Result (List Certificate)
  pub manifest : Option String

abbrev pub missing {ℓ} : {A : Type ℓ} → Result A
missing = err (api not_found)

abbrev pub nothing : Answers
nothing = record {
  node = missing;
  nodes = ok [];
  pods = ok [];
  config_map = missing;
  deployments = ok [];
  cluster = missing;
  pool = missing;
  exit_code = 0;
  stdout = "";
  members = [];
  clock = 1000;
  secret = missing;
  service = missing;
  storage_class = missing;
  stateful_set = missing;
  buckets = ok [];
  objects = [];
  pod = missing;
  waits = 5;
  is_paused = false;
  certs = missing;
  manifest = none;
}

abbrev pub answer_with : Answers → (c : Call) → Trace → Reply c
answer_with a (Call.get_node n) t = a.node
answer_with a Call.list_nodes t = a.nodes
answer_with a (Call.list_pods ns s) t = a.pods
answer_with a (Call.list_pods_on_node n) t = a.pods
answer_with a (Call.get_config_map ns n) t = a.config_map
answer_with a (Call.get_deployment ns n) t = missing
answer_with a (Call.list_deployments ns s) t = a.deployments
answer_with a (Call.get_daemon_set ns n) t = missing
answer_with a Call.list_csrs t = ok []
answer_with a Call.get_ceph_cluster t = a.cluster
answer_with a (Call.get_block_pool n) t = a.pool
answer_with a (Call.get_filesystem n) t = missing
answer_with a (Call.get_object_store n) t = missing
answer_with a (Call.exec_container ns p c cmd) t =
    (record { exit_code = a.exit_code; stdout = a.stdout; stderr = "" }, ok tt)
answer_with a Call.etcd_member_list t = ok a.members
answer_with a Call.now t = a.clock
answer_with a (Call.get_replicas m) t = some (some 1)
answer_with a (Call.read_paused c) t = a.is_paused
answer_with a Call.try_lock_minio t = true
answer_with a (Call.get_secret ns n) t = a.secret
answer_with a (Call.get_service ns n) t = a.service
answer_with a (Call.get_storage_class n) t = a.storage_class
answer_with a (Call.get_stateful_set ns n) t = a.stateful_set
answer_with a (Call.list_buckets e) t = a.buckets
answer_with a (Call.bucket_exists e b) t = ok false
answer_with a (Call.list_objects e b) t = a.objects
answer_with a Call.get_backup_location t = missing
answer_with a Call.list_backup_repositories t = ok []
answer_with a (Call.http_get url) t = ok 200
answer_with a Call.waits_left t = a.waits
answer_with a (Call.create_task_pod pod) t = ok "task"
answer_with a (Call.read_file path) t = ok "file"
answer_with a Call.random_serial t = ok 7
answer_with a Call.renewal_certificates t = ok ("scheduler.conf" ∷ "external" ∷ [])
answer_with a (Call.certificate_exists name) t = ok true
answer_with a (Call.residual_time name) t = ok 10
answer_with a (Call.renew_using_local_ca name) t = ok (not (name == "external"))
answer_with a (Call.new_private_key algorithm) t = ok "key"
answer_with a (Call.create_certificate template) t = ok "certificate"
answer_with a (Call.generate_self_signed host ips names) t = ok ("certificate", "key")
answer_with a (Call.generate_contour_certs ns) t = missing
answer_with a (Call.get_pod ns n) t = a.pod
answer_with a (Call.list_labelled_nodes sel) t = a.nodes
answer_with a (Call.get_hook_config name) t = missing
answer_with a (Call.certs_from_file path) t = a.certs
answer_with a (Call.renew_certificate config) t = ok ("certificate", "key")
answer_with a (Call.read_if_present path) t = ok a.manifest
answer_with a Call.chart_files t = ok ("rook-ceph-cluster-v1.9.12.tgz" ∷ [])
answer_with a (Call.open_chart name) t = ok "archive"
answer_with a Call.chart_values t = ok no_fields
answer_with a (Call.load_archive content) t = ok "rook-ceph-cluster"
answer_with a Call.list_releases t = ok []
answer_with a _ t = ok tt

-- Every Rook version is new, and a ClusterStatus is read as the one given.
abbrev pub env_with : Option ClusterStatus → Answers → Env
env_with status a = record {
  answer = answer_with a;
  semver_lt = λ v w. false;
  semver_parse = λ s. none;
  unmarshal_status = λ s. status;
  marshal_status = λ k. some "printed";
  format_time = λ n. "now";
  parse_time = λ s. some 1000;
  parse_api_endpoint = λ s. none;
  etcd_peer_port = "2380";
  etcd_client_port = "2379";
  parse_certs = λ s. none;
  certificate_validity_period = 31536000;
  remove_duplicate_names = λ names. names;
  format_int = λ n. if eqb n 3 then "3" else "many";
  format_duration = λ n. "1h";
  map_order = λ n t keys. keys;
  int_of_division_by_zero = negsuc 0;
  parse_ip = λ s. if s == "10.0.0.9" then some s else none;
  haproxy_manifest = λ image version. some image;
  unmarshal_pod = λ s.
      some (record { annotations = ("kurl.sh/haproxy-fileversion", "3") ∷ []; images = s ∷ [] });
  load_kubeconfig = λ s. some (record { clusters = ("kubernetes", "old") ∷ []; others = s });
  print_kubeconfig = λ k. some k.others;
}

abbrev pub master : Node
master = record {
  name = "m1";
  labels = ("node-role.kubernetes.io/control-plane", "") ∷ [];
  taints = [];
  addresses = record { type = internal_ip; address = "10.0.0.1" } ∷ [];
}

abbrev pub dead_worker : Node
dead_worker = record {
  name = "w1";
  labels = [];
  taints = record { key = "node.kubernetes.io/unreachable"; time_added = some 10 } ∷ [];
  addresses = [];
}

abbrev pub rook_1_9 : Version
rook_1_9 = record { major = 1; minor = 9; patch = 0; pre = [] }

abbrev pub tools_pod : Pod
tools_pod = record {
  namespace = "rook-ceph";
  name = "tools";
  annotations = [];
  deletion_timestamp = some 900;
  claim_names = [];
  status = record {
    phase = "Running";
    pod_ip = "10.1.0.1";
    host_ip = "10.0.0.1";
    container_statuses = [];
    conditions = [];
  };
}

abbrev pub ceph : CephCluster
ceph = record {
  storage_nodes = record { name = "m1"; config = [] } ∷ [];
  phase = "Ready";
  health = none;
  mon_count = 1;
  mgr_count = 1;
  image = "ceph/ceph:v17.2.0";
  status_version = none;
}
