-- ===== src/Migrate/Status.antt =====
-- pkg/migrate/storage.go: `ObjectStorageAndPVCs` and its status. A variable of the package holds the
-- status under a mutex, and only these functions set it: it is read off the trace, from the last call
-- that set it.
pub mod History
pub mod Machine
use ekco.Prelude.{Bool, true, false, not, Option, none, some, [], ◌∷◌, ◌==◌, if◌then◌else◌, lookup}
use ekco.Errors.{is_not_found_err, Result, wrapped, ok, err}
use ekco.Kube.{
  StorageClass, MigrationStatus, Call, prometheus, prometheus_scale, kotsadm, not_started,
  not_ready, objectstore_running, pvcmigrate_running, failed, completed, Trace, Action, pure, raise,
  attempt, send, ◌>>=◌, ◌>>◌, plain, expect_plain, done,
}
use ekco.Cluster.Storage.{value_or_empty}
use ekco.Ekcoops.Config.{Config}
use ekco.Ekcoops.Prometheus.{scale}
use ekco.Migrate.Ready.{MigrationReadyResult, is_migration_ready}
use ekco.Migrate.ObjectStorage.{while_paused, migrate_object_storage}

abbrev pub after_call : Call → MigrationStatus → MigrationStatus
after_call (Call.set_migration_status s) before = s
after_call _ before = before

-- `migrationStatus`
abbrev pub status_of : Trace → MigrationStatus
status_of [] = not_started
status_of (c ∷ t) = after_call c (status_of t)

abbrev pub migration_status : Action MigrationStatus
migration_status env t = (ok (status_of t), t)

abbrev pub set_status : MigrationStatus → Action (Unit {0})
set_status s = do send (Call.set_migration_status s); done

-- What runs while Prometheus and kotsadm are paused; the claims are moved by pvmigrate.
unfoldable pub move_claims : Config → Action (Unit {0})
move_claims cfg = do
  plain "scale down prometheus" (scale prometheus 0)
  expect_plain "run pvmigrate" (send (Call.migrate_claims "scaling" cfg.rook_storage_class))
  expect_plain "delete scaling storage class" (send (Call.delete_storage_class "scaling"))
  plain "scale up prometheus" (scale prometheus 2)

unfoldable pub migrate_storage_classes : Config → Action (Unit {0})
migrate_storage_classes cfg = do
  set_status pvcmigrate_running
  while_paused prometheus_scale (while_paused kotsadm (move_claims cfg))

abbrev pub after_classes : Result (Unit {0}) → Action (Unit {0})
after_classes (err e) = set_status failed
after_classes (ok _) = set_status completed

abbrev pub after_objects : Config → Result (Unit {0}) → Action (Unit {0})
after_objects cfg (err e) = set_status failed
after_objects cfg (ok _) = do
  set_status pvcmigrate_running
  r ← attempt (migrate_storage_classes cfg)
  after_classes r

abbrev pub after_ready : Config → Result MigrationReadyResult → Action (Unit {0})
after_ready cfg (err e) = set_status failed
after_ready cfg (ok status) = if not status.ready then set_status not_ready else do
  set_status objectstore_running
  r ← attempt (migrate_object_storage cfg.minio_namespace)
  after_objects cfg r

abbrev pub is_completed : MigrationStatus → Bool
is_completed completed = true
is_completed _ = false

-- `ObjectStorageAndPVCs`, under `migrateStorageMut`: its runs exclude one another.
unfoldable pub object_storage_and_pvcs : Config → Action (Unit {0})
object_storage_and_pvcs cfg = do
  before ← migration_status
  if is_completed before
      then done
      else do status ← attempt (is_migration_ready cfg); after_ready cfg status

abbrev class_status : Option StorageClass → Action MigrationStatus
class_status none = migration_status
class_status (some c) =
    if value_or_empty (lookup "storageclass.kubernetes.io/is-default-class" c.annotations) == "true"
    then pure completed
    else migration_status

abbrev found_class : Result StorageClass → Action (Option StorageClass)
found_class (ok c) = pure (some c)
found_class (err e) =
    if is_not_found_err e then pure none else raise (wrapped "failed to get ceph storageclass" e)

unfoldable pub get_migration_status : Action MigrationStatus
get_migration_status = do
  found ← send (Call.get_storage_class "distributed")
  c ← found_class found
  class_status c
