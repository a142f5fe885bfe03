-- ===== src/Migrate/Status/Machine.antt =====
-- pkg/migrate/storage.go: the statuses that a run of `ObjectStorageAndPVCs` goes through.
use mathlib.Core.List.{◌++◌}
use ekco.Prelude.{◌≡◌, refl, ap, ◌∙◌, Bool, true, false, not, List, [], ◌∷◌, if◌then◌else◌}
use ekco.Errors.{Error, Result, ok, err}
use ekco.Kube.{
  MigrationStatus, Call, not_started, not_ready, objectstore_running, pvcmigrate_running, failed,
  completed, Trace, Action, attempt, ◌>>=◌, ◌>>◌, done, Env,
}
use ekco.Ekcoops.Config.{Config}
use ekco.Migrate.Ready.{MigrationReadyResult, is_migration_ready}
use ekco.Migrate.ObjectStorage.{migrate_object_storage}
use ekco.Migrate.Status.{
  status_of, set_status, migrate_storage_classes, object_storage_and_pvcs, is_completed,
  after_ready, after_objects, after_classes,
}
use ekco.Migrate.Status.History.{
  history, is_migration_ready-Keeps, migrate_object_storage-Keeps, migrate_storage_classes-history,
}

-- An action was run after some trace, and gave this result.
abbrev pub Gave : Action (Unit {0}) → Env → Result (Unit {0}) → Type 0
Gave m env r = (before : Trace) × ((m env before).0 ≡ r)

abbrev objects : Config → Action (Unit {0})
objects cfg = migrate_object_storage cfg.minio_namespace

-- What a run may set, newest first, and what its two parts gave: the specification.
pub data Run (cfg : Config) (env : Env) : MigrationStatus → List MigrationStatus → Type 0 where
  kept : Run cfg env completed []
  refused : {s : MigrationStatus} → is_completed s ≡ false → Run cfg env s (not_ready ∷ [])
  unknown : {s : MigrationStatus} → is_completed s ≡ false → Run cfg env s (failed ∷ [])
  stuck :
      {s : MigrationStatus} {e : Error}
      → is_completed s ≡ false
      → Gave (objects cfg) env (err e)
      → Run cfg env s (failed ∷ objectstore_running ∷ [])
  lost :
      {s : MigrationStatus} {e : Error}
      → is_completed s ≡ false
      → Gave (objects cfg) env (ok tt)
      → Gave (migrate_storage_classes cfg) env (err e)
      → Run cfg env s (failed ∷ pvcmigrate_running ∷ pvcmigrate_running ∷ objectstore_running ∷ [])
  moved :
      {s : MigrationStatus}
      → is_completed s ≡ false
      → Gave (objects cfg) env (ok tt)
      → Gave (migrate_storage_classes cfg) env (ok tt)
      → Run cfg env s
          (completed ∷ pvcmigrate_running ∷ pvcmigrate_running ∷ objectstore_running ∷ [])

abbrev Ran : Config → Env → MigrationStatus → List MigrationStatus → Trace → Type 0
Ran cfg env s before u =
    (new : List MigrationStatus) × (history u ≡ new ++ before) × Run cfg env s new

module _ (cfg : Config) (s : MigrationStatus) (unfinished : is_completed s ≡ false) (env : Env)
    (before : List MigrationStatus) where
  after_classes-Ran :
      (r : Result (Unit {0})) (u : Trace)
      → Gave (objects cfg) env (ok tt)
      → Gave (migrate_storage_classes cfg) env r
      → history u ≡ pvcmigrate_running ∷ pvcmigrate_running ∷ objectstore_running ∷ before
      → Ran cfg env s before (after_classes r env u).1
  after_classes-Ran (err e) u fine broken same =
      (_, ap (λ h. failed ∷ h) same, lost unfinished fine broken)
  after_classes-Ran (ok tt) u fine all_fine same =
      (_, ap (λ h. completed ∷ h) same, moved unfinished fine all_fine)

  after_objects-Ran :
      (r : Result (Unit {0})) (u : Trace)
      → Gave (objects cfg) env r
      → history u ≡ objectstore_running ∷ before
      → Ran cfg env s before (after_objects cfg r env u).1
  after_objects-Ran (err e) u gave same = (_, ap (λ h. failed ∷ h) same, stuck unfinished gave)
  after_objects-Ran (ok tt) u gave same =
      let v = Call.set_migration_status pvcmigrate_running ∷ u in
      let run = migrate_storage_classes cfg env v in
      after_classes-Ran run.0 run.1 gave (v, refl)
        (migrate_storage_classes-history cfg env v
          ∙ ap (λ h. pvcmigrate_running ∷ pvcmigrate_running ∷ h) same)

  after_answer-Ran :
      (ready : Bool) (u : Trace)
      → history u ≡ before
      → Ran cfg env s before
          ((if not ready then set_status not_ready else do
            set_status objectstore_running
            r ← attempt (migrate_object_storage cfg.minio_namespace)
            after_objects cfg r)
            env u).1
  after_answer-Ran false u same = (_, ap (λ h. not_ready ∷ h) same, refused unfinished)
  after_answer-Ran true u same =
      let v = Call.set_migration_status objectstore_running ∷ u in
      let run = migrate_object_storage cfg.minio_namespace env v in
      after_objects-Ran run.0 run.1 (v, refl)
        (migrate_object_storage-Keeps cfg.minio_namespace env v
          ∙ ap (λ h. objectstore_running ∷ h) same)

  after_ready-Ran :
      (r : Result MigrationReadyResult) (u : Trace)
      → history u ≡ before
      → Ran cfg env s before (after_ready cfg r env u).1
  after_ready-Ran (err e) u same = (_, ap (λ h. failed ∷ h) same, unknown unfinished)
  after_ready-Ran (ok status) u same = after_answer-Ran status.ready u same

ready-Ran :
    (cfg : Config) (s : MigrationStatus)
    → is_completed s ≡ false
    → (env : Env) (t : Trace)
    → Ran cfg env s
        (history t)
        ((attempt (is_migration_ready cfg) >>= λ status. after_ready cfg status) env t).1
ready-Ran cfg s unfinished env t =
    let run = is_migration_ready cfg env t in
    after_ready-Ran cfg s unfinished env (history t) run.0 run.1
      (is_migration_ready-Keeps cfg env t)

start-Ran :
    (cfg : Config) (s : MigrationStatus) (env : Env) (t : Trace)
    → Ran cfg env s
        (history t)
        ((if is_completed s
            then done
            else do status ← attempt (is_migration_ready cfg); after_ready cfg status)
          env t).1
start-Ran cfg completed env t = ([], refl, kept)
start-Ran cfg not_started env t = ready-Ran cfg not_started refl env t
start-Ran cfg not_ready env t = ready-Ran cfg not_ready refl env t
start-Ran cfg objectstore_running env t = ready-Ran cfg objectstore_running refl env t
start-Ran cfg pvcmigrate_running env t = ready-Ran cfg pvcmigrate_running refl env t
start-Ran cfg failed env t = ready-Ran cfg failed refl env t

-- Whatever the cluster answers, the statuses that one run sets, from any state of the migration, are
-- one of the words of the specification for the status it starts from; so it ends as completed only if
-- it was completed, or if both of its parts were run without an error.
pub object_storage_and_pvcs-Run :
    (cfg : Config) (env : Env) (t : Trace)
    → (new : List MigrationStatus) × (history (object_storage_and_pvcs cfg env t).1
        ≡ new ++ history t)
      × Run cfg env (status_of t) new
unfolding object_storage_and_pvcs
object_storage_and_pvcs-Run cfg env t = start-Ran cfg (status_of t) env t
