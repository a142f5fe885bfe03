-- ===== src/Objectstore/Consumers.antt =====
-- pkg/objectstore/migrate.go: `UpdateConsumers`, for the registry, Velero and kotsadm.
use ekco.Prelude.{
  String, Bool, true, false, not, ◌&&◌, ◌||◌, Option, none, some, List, [], ◌∷◌, if◌then◌else◌,
  is_some, is_empty, lookup, insert,
}
use ekco.Kube.{
  ConfigMap, Secret, BackupLocation, BackupRepository, Call, Action, pure, send, ◌>>=◌, ◌>>◌, plain,
  expect_plain, found_or_none, done, when,
}
use ekco.Prelude.Text.{contains_text, replace_all, replace_lines}
use Prim.Native.String.{◌++◌ as join_text}
use ekco.Cluster.Storage.{value_or_empty}
use ekco.Util.Restart.{restart_deployment, restart_stateful_set, restart_daemon_set}

-- The arguments of `UpdateConsumers`.
pub record Move : Type 0 where
  pub endpoint : String
  pub hostname : String
  pub access_key : String
  pub secret_key : String
  pub original_hostname : String
  pub original_secret_key : String

abbrev http_url : String → String
http_url endpoint = join_text "http://" (join_text endpoint "/")

abbrev pub kotsadm_secret : Move → Secret → Secret
kotsadm_secret move s = record s {
  contents = insert "object-store-cluster-ip" move.endpoint (
      insert "endpoint" move.hostname (
        insert "secret-access-key" move.secret_key
          (insert "access-key-id" move.access_key s.contents)));
}

unfoldable pub kotsadm_found : Move → Option Secret → Action (Unit {0})
kotsadm_found move none = done
kotsadm_found move (some s) = do
  expect_plain "update kotsadm-s3 secret in default namespace"
      (send (Call.update_secret "default" (kotsadm_secret move s)))
  plain "restart kotsadm deployment after migrating object store"
      (restart_deployment "default" "kotsadm")
  plain "restart kotsadm statefulset after migrating object store"
      (restart_stateful_set "default" "kotsadm")

unfoldable pub update_kotsadm_object_store : Move → Action (Unit {0})
update_kotsadm_object_store move = do
  found ←
      found_or_none "get kotsadm-s3 secret in default namespace"
        (send (Call.get_secret "default" "kotsadm-s3"))
  kotsadm_found move found

abbrev pub registry_config : Move → ConfigMap → ConfigMap
registry_config move cm = record cm {
  contents =
      insert "config.yml"
        (replace_lines (value_or_empty (lookup "config.yml" cm.contents)) "regionendpoint: http"
          (join_text "regionendpoint: " (http_url move.endpoint)))
        cm.contents;
}

abbrev pub registry_secret : Move → Secret → Secret
registry_secret move s = record s {
  contents = insert "object-store-hostname" move.hostname (
      insert "object-store-cluster-ip" move.endpoint (
        insert "secret-access-key" move.secret_key
          (insert "access-key-id" move.access_key s.contents)));
}

-- A missing object has no data.
unfoldable pub registry_found : Move → Option ConfigMap → Option Secret → Action (Unit {0})
registry_found move none s = done
registry_found move (some cm) none = done
registry_found move (some cm) (some s) =
    if is_empty cm.contents || is_empty s.contents then done else do
      expect_plain "update registry-config configmap in kurl namespace"
          (send (Call.update_config_map "kurl" (registry_config move cm)))
      expect_plain "update registry-s3-secret secret in kurl namespace"
          (send (Call.update_secret "kurl" (registry_secret move s)))
      plain "restart registry deployment after migrating object store"
          (restart_deployment "kurl" "registry")

unfoldable pub update_registry_object_store : Move → Action (Unit {0})
update_registry_object_store move = do
  config ←
      found_or_none "get registry-config configmap in kurl namespace"
        (send (Call.get_config_map "kurl" "registry-config"))
  secret ←
      found_or_none "get registry-s3-secret secret in kurl namespace"
        (send (Call.get_secret "kurl" "registry-s3-secret"))
  registry_found move config secret

abbrev pub moved_repository : Move → BackupRepository → BackupRepository
moved_repository move r = record r {
  restic_identifier = replace_all r.restic_identifier move.original_hostname move.hostname;
}

unfoldable pub update_repositories : Move → List BackupRepository → Action (Unit {0})
update_repositories move [] = done
update_repositories move (r ∷ repositories) = do
  expect_plain "update velero backuprepository in velero namespace"
      (send (Call.update_backup_repository (moved_repository move r)))
  update_repositories move repositories

abbrev pub moved_location : Move → BackupLocation → BackupLocation
moved_location move l = record {
  config = insert "publicUrl" (http_url move.endpoint) (insert "s3Url" move.hostname l.config);
}

-- Whether Velero is to be restarted.
unfoldable pub location_found : Move → Option BackupLocation → Action Bool
location_found move none = pure false
location_found move (some l) =
    if not (
      is_some (lookup "s3Url" l.config)
      && contains_text (value_or_empty (lookup "s3Url" l.config)) move.original_hostname)
    then pure false
    else do
      expect_plain "update velero backupstoragelocation in velero namespace"
          (send (Call.update_backup_location (moved_location move l)))
      repositories ←
          expect_plain "list velero backuprepositories in velero namespace"
            (send Call.list_backup_repositories)
      update_repositories move repositories
      pure true

abbrev pub velero_secret : Move → String → Secret → Secret
velero_secret move cloud s = record s {
  contents =
      insert "cloud"
        (replace_lines
          (replace_lines cloud "aws_access_key_id="
            (join_text "aws_access_key_id=" move.access_key))
          "aws_secret_access_key=" (join_text "aws_secret_access_key=" move.secret_key))
        s.contents;
}

unfoldable pub credentials_found : Move → Option Secret → Action Bool
credentials_found move none = pure false
credentials_found move (some s) =
    let cloud = value_or_empty (lookup "cloud" s.contents) in
    if not (is_some (lookup "cloud" s.contents) && contains_text cloud move.original_secret_key)
    then pure false
    else do
      expect_plain "update cloud-credentials secret in velero namespace"
          (send (Call.update_secret "velero" (velero_secret move cloud s)))
      pure true

unfoldable pub restart_velero : Bool → Action (Unit {0})
restart_velero changed = when changed do
  plain "restart velero restic daemonset after migrating object store"
      (restart_daemon_set "velero" "restic")
  plain "restart velero deployment after migrating object store"
      (restart_deployment "velero" "velero")

unfoldable pub update_velero_object_store : Move → Action (Unit {0})
update_velero_object_store move = do
  location ←
      found_or_none "get velero backupstoragelocation in velero namespace"
        (send Call.get_backup_location)
  moved ← location_found move location
  secret ←
      found_or_none "get cloud-credentials secret in velero namespace"
        (send (Call.get_secret "velero" "cloud-credentials"))
  changed ← credentials_found move secret
  restart_velero (moved || changed)

unfoldable pub update_consumers : Move → Action (Unit {0})
update_consumers move = do
  update_registry_object_store move
  update_velero_object_store move
  update_kotsadm_object_store move
