-- ===== src/Migrate/Status/History.antt =====
-- pkg/migrate/storage.go: the statuses that a trace shows, and the steps of a migration that set none.
use ekco.Prelude.{ℕ, String, ◌≡◌, true, List, [], ◌∷◌, arith}
use ekco.Kube.{
  Keeps, then-Keeps, when-Keeps, Endpoint, Monitor, Component, MigrationStatus, Call,
  prometheus_scale, minio, kotsadm, pvcmigrate_running, Trace, Action, plain, when, Env,
}
use ekco.Objectstore.Keeps.{ordinary, sync_all_buckets-Keeps}
use ekco.Objectstore.Keeps.Consumers.{update_consumers-Keeps}
use ekco.Objectstore.Usage.{is_minio_in_use}
use ekco.Ekcoops.Config.{Config}
use ekco.Ekcoops.Prometheus.{scale}
use ekco.Migrate.Ready.{is_migration_ready}
use ekco.Migrate.ObjectStorage.{
  find_stores, minio_pod_ip, move_data, move_found, migrate_object_storage, delete_minio,
  while_paused,
}
use ekco.Migrate.Status.{move_claims, migrate_storage_classes}

abbrev noted : Call → List MigrationStatus → List MigrationStatus
noted (Call.set_migration_status s) before = s ∷ before
noted _ before = before

-- The statuses that were set, newest first.
abbrev pub history : Trace → List MigrationStatus
history [] = []
history (c ∷ t) = noted c (history t)

blind : (c : Call) (t : Trace) → ordinary c ≡ true → history (c ∷ t) ≡ history t
blind c t allowed = grind arith

is_minio_in_use-Keeps : (ns : String) → Keeps history (is_minio_in_use ns)
unfolding is_minio_in_use
is_minio_in_use-Keeps ns env t = ground arith

minio_pod_ip-Keeps : (ns : String) → Keeps history (minio_pod_ip ns)
unfolding minio_pod_ip
minio_pod_ip-Keeps ns env t = ground arith

find_stores-Keeps : (ns : String) → Keeps history (find_stores ns)
unfolding find_stores
find_stores-Keeps ns env t = grind (arith, minio_pod_ip-Keeps)

delete_minio-Keeps : (ns : String) → Keeps history (delete_minio ns)
unfolding delete_minio
delete_minio-Keeps ns env t = ground arith

move_data-Keeps : (ns : String) (a b : Endpoint) → Keeps history (move_data ns a b)
unfolding move_data
move_data-Keeps ns a b env t = grind (
  arith,
  sync_all_buckets-Keeps history blind,
  update_consumers-Keeps history blind,
  delete_minio-Keeps,
)

move_found-Keeps : (ns : String) → Keeps history (move_found ns)
unfolding move_found
move_found-Keeps ns =
    then-Keeps history (λ (a, b). move_data ns a b) (λ (a, b). move_data-Keeps ns a b)
      (find_stores ns) (find_stores-Keeps ns)

while_paused-Keeps :
    (c : Component) (m : Action (Unit {0})) → Keeps history m → Keeps history (while_paused c m)
unfolding while_paused
while_paused-Keeps c m keeps env t = grind (arith, keeps)

pub migrate_object_storage-Keeps : (ns : String) → Keeps history (migrate_object_storage ns)
unfolding migrate_object_storage
migrate_object_storage-Keeps ns =
    let pausing = while_paused minio (move_found ns) in
    then-Keeps history (λ in_use. when in_use pausing)
      (λ in_use.
        when-Keeps history in_use pausing
          (while_paused-Keeps minio (move_found ns) (move_found-Keeps ns)))
      (plain "check if minio is in use" (is_minio_in_use ns))
      (λ env t. is_minio_in_use-Keeps ns env t)

pub is_migration_ready-Keeps : (cfg : Config) → Keeps history (is_migration_ready cfg)
unfolding is_migration_ready
is_migration_ready-Keeps cfg env t = ground arith

scale-Keeps : (c : Monitor) (n : ℕ) → Keeps history (scale c n)
unfolding scale
scale-Keeps c n env t = ground arith

move_claims-Keeps : (cfg : Config) → Keeps history (move_claims cfg)
unfolding move_claims
move_claims-Keeps cfg env t = grind (arith, scale-Keeps)

pub migrate_storage_classes-history :
    (cfg : Config) (env : Env) (t : Trace)
    → history (migrate_storage_classes cfg env t).1 ≡ pvcmigrate_running ∷ history t
unfolding migrate_storage_classes
migrate_storage_classes-history cfg env t =
    while_paused-Keeps prometheus_scale (while_paused kotsadm (move_claims cfg))
      (while_paused-Keeps kotsadm (move_claims cfg) (move_claims-Keeps cfg)) env
      (Call.set_migration_status pvcmigrate_running ∷ t)
