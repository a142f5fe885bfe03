-- ===== src/Kube/Calls.antt =====
-- The calls that the program makes of what is outside it, and what each returns.
use ekco.Prelude.{ℕ, String, Bool, Option, List}
use ekco.Errors.{Result}
use ekco.Kube.Objects.{Node, Pod, Workload, ConfigMap, Csr, EtcdMember, ExecResult}
use ekco.Prelude.Int.{ℤ}
use ekco.Kube.Stores.{
  Service, Secret, StorageClass, Endpoint, ObjectInfo, BackupLocation, BackupRepository,
}
use ekco.Kube.Tasks.{TaskPod, Certificate, CertTemplate, ContourCerts}
use ekco.Kube.Hooks.{NewService, PriorityClass, HookConfig}
use ekco.Kube.Files.{Fields, RenewalConfig}
use ekco.Kube.Ceph.{CephCluster, CephBlockPool, CephFilesystem, CephObjectStore, Piece, JsonPatch}

-- The two objects of pkg/util/prometheus.go, and what pkg/ekcoops/overrides can pause.
pub data Monitor : Type 0 where
  prometheus alert_manager : Monitor

pub data Component : Type 0 where
  prometheus_scale minio kotsadm : Component

-- The values of `migrationStatus` of pkg/migrate/storage.go.
pub data MigrationStatus : Type 0 where
  not_started not_ready objectstore_running pvcmigrate_running failed completed : MigrationStatus

-- A selector names the pods or deployments of a list call.
pub data Call : Type 0 where
  get_node : String → Call
  list_nodes : Call
  delete_node : String → Call
  list_pods : String → String → Call
  list_pods_on_node : String → Call
  delete_pod : String → String → Call
  get_config_map : String → String → Call
  create_config_map : String → ConfigMap → Call
  update_config_map : String → ConfigMap → Call
  patch_config_map : String → String → List (String × String) → Call
  get_namespace : String → Call
  get_deployment : String → String → Call
  list_deployments : String → String → Call
  delete_deployment : String → String → Call
  update_deployment : String → Workload → Call
  get_daemon_set : String → String → Call
  update_daemon_set : String → Workload → Call
  list_csrs : Call
  update_approval : Csr → Call
  get_ceph_cluster : Call
  patch_ceph_cluster : List JsonPatch → Call
  get_block_pool : String → Call
  patch_block_pool : String → List JsonPatch → Call
  get_filesystem : String → Call
  patch_filesystem : String → List JsonPatch → Call
  merge_patch_filesystem : String → Call
  get_object_store : String → Call
  patch_object_store : String → List JsonPatch → Call
  exec_container : String → String → String → List Piece → Call
  get_etcd_tls : Call
  new_etcd_client : List String → Call
  etcd_member_list : Call
  etcd_member_remove : ℕ → Call
  now : Call
  get_replicas : Monitor → Call
  patch_replicas : Monitor → ℕ → Call
  read_paused : Component → Call
  start_minio_reconcile : Call
  try_lock_minio : Call
  unlock_minio : Call
  set_paused : Component → Bool → Call
  set_migration_status : MigrationStatus → Call
  get_secret : String → String → Call
  update_secret : String → Secret → Call
  get_service : String → String → Call
  update_service : String → Service → Call
  patch_service_selector : String → String → List (String × String) → Call
  get_storage_class : String → Call
  delete_storage_class : String → Call
  get_stateful_set : String → String → Call
  update_stateful_set : String → Workload → Call
  delete_stateful_set : String → String → Call
  get_scale : String → String → Call
  update_scale : String → String → ℤ → Call
  delete_namespace : String → Call
  delete_claim : String → String → Call
  new_object_client : Endpoint → Call
  list_buckets : Endpoint → Call
  bucket_exists : Endpoint → String → Call
  make_bucket : Endpoint → String → Call
  list_objects : Endpoint → String → Call
  get_object : Endpoint → String → String → Call
  put_object : Endpoint → String → ObjectInfo → Call
  get_backup_location : Call
  update_backup_location : BackupLocation → Call
  list_backup_repositories : Call
  update_backup_repository : BackupRepository → Call
  migrate_claims : String → String → Call
  http_get : String → Call
  -- How many more waits end before the context does.
  waits_left : Call
  create_task_pod : TaskPod → Call
  read_file : String → Call
  -- crypto and certificates: what is drawn at random and what is signed
  random_serial : Call
  new_private_key : String → Call
  create_certificate : CertTemplate → Call
  load_certificate_authority : String → Call
  generate_self_signed : String → List String → List String → Call
  generate_contour_certs : String → Call
  -- kubeadm's renewal manager, and the files of the host
  renewal_certificates : Call
  certificate_exists : String → Call
  residual_time : String → Call
  renew_using_local_ca : String → Call
  rename_file : String → String → Call
  start_migration : Call
  restart_daemon_set_pods : String → String → String → Call
  delete_task_pods : String → String → Call
  get_pod : String → String → Call
  list_labelled_nodes : String → Call
  -- the webhook server
  create_service : NewService → Call
  get_priority_class : String → Call
  create_priority_class : PriorityClass → Call
  get_hook_config : String → Call
  create_hook_config : HookConfig → Call
  update_hook_config : HookConfig → Call
  delete_hook_config : String → Call
  load_key_pair : String → String → Call
  -- files of a host
  certs_from_file : String → Call
  renew_certificate : RenewalConfig → Call
  write_cert_and_key : String → String → String → String → Call
  make_directory : String → Call
  read_if_present : String → Call
  write_file : String → String → Call
  open_file : String → Call
  truncate_file : String → Call
  seek_start : String → Call
  write_opened : String → String → Call
  restart_kubelet : Call
  -- the charts that are built in, and the Helm library
  chart_files : Call
  open_chart : String → Call
  init_helm : String → Call
  chart_values : Call
  load_archive : String → Call
  list_releases : Call
  install_release : String → String → String → Fields → Call
  create_object_store_user : String → String → Call

-- `exec_container` gives its output and its error side by side; the clock, the flags and the lock cannot
-- fail. The replicas are `none` without the object, and `some none` if they are no number. A file that is
-- not there is read as `none`; an archive is loaded as the name of its chart.
abbrev pub Reply : Call → Type 0
Reply (Call.get_node n) = Result Node
Reply Call.list_nodes = Result (List Node)
Reply (Call.list_pods ns sel) = Result (List Pod)
Reply (Call.list_pods_on_node n) = Result (List Pod)
Reply (Call.get_config_map ns n) = Result ConfigMap
Reply (Call.get_deployment ns n) = Result Workload
Reply (Call.list_deployments ns sel) = Result (List Workload)
Reply (Call.get_daemon_set ns n) = Result Workload
Reply Call.list_csrs = Result (List Csr)
Reply Call.get_ceph_cluster = Result CephCluster
Reply (Call.get_block_pool n) = Result CephBlockPool
Reply (Call.get_filesystem n) = Result CephFilesystem
Reply (Call.get_object_store n) = Result CephObjectStore
Reply (Call.exec_container ns p c cmd) = ExecResult × Result (Unit {0})
Reply Call.etcd_member_list = Result (List EtcdMember)
Reply Call.now = ℕ
Reply (Call.get_replicas m) = Option (Option ℕ)
Reply (Call.read_paused c) = Bool
Reply Call.try_lock_minio = Bool
Reply (Call.get_secret ns n) = Result Secret
Reply (Call.get_service ns n) = Result Service
Reply (Call.get_storage_class n) = Result StorageClass
Reply (Call.get_stateful_set ns n) = Result Workload
Reply (Call.list_buckets e) = Result (List String)
Reply (Call.bucket_exists e b) = Result Bool
Reply (Call.list_objects e b) = List ObjectInfo
Reply Call.get_backup_location = Result BackupLocation
Reply Call.list_backup_repositories = Result (List BackupRepository)
Reply (Call.http_get url) = Result ℕ
Reply Call.waits_left = ℕ
Reply (Call.create_task_pod pod) = Result String
Reply (Call.read_file path) = Result String
Reply Call.random_serial = Result ℕ
Reply Call.renewal_certificates = Result (List String)
Reply (Call.certificate_exists name) = Result Bool
Reply (Call.residual_time name) = Result ℕ
Reply (Call.renew_using_local_ca name) = Result Bool
Reply (Call.new_private_key algorithm) = Result String
Reply (Call.create_certificate template) = Result String
Reply (Call.generate_self_signed host ips names) = Result (String × String)
Reply (Call.generate_contour_certs ns) = Result ContourCerts
Reply (Call.get_pod ns n) = Result Pod
Reply (Call.list_labelled_nodes sel) = Result (List Node)
Reply (Call.get_hook_config name) = Result HookConfig
Reply (Call.certs_from_file path) = Result (List Certificate)
Reply (Call.renew_certificate config) = Result (String × String)
Reply (Call.read_if_present path) = Result (Option String)
Reply Call.chart_files = Result (List String)
Reply (Call.open_chart name) = Result String
Reply Call.chart_values = Result Fields
Reply (Call.load_archive content) = Result String
Reply Call.list_releases = Result (List String)
Reply _ = Result (Unit {0})
