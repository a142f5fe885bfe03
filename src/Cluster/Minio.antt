-- ===== src/Cluster/Minio.antt =====
-- pkg/cluster/minio.go: the scale of ha-minio, the move of the data to it, and its service.
pub mod KeepsData
use Prim.Native.String.{◌++◌ as join_text}
use ekco.Prelude.{
  ℕ, String, Bool, true, false, Option, none, some, List, [], ◌∷◌, ◌==◌, eqb, if◌then◌else◌, lookup,
}
use ekco.Errors.{is_not_found_err, Result, failure, wrapped, ok, err}
use ekco.Kube.{
  Pod, Workload, Service, Secret, Endpoint, Call, minio, Action, pure, raise, attempt, wrap, send,
  ◌>>=◌, ◌>>◌, expect, done, when,
}
use ekco.Prelude.Int.{ℤ, pos, eqz}
use ekco.Prelude.Text.{parse_int32}
use ekco.Cluster.Storage.{value_or_empty}
use ekco.Objectstore.Sync.{sync_all_buckets}
use ekco.Migrate.ObjectStorage.{no_selector, read_key, minio_endpoint}

-- A nil pointer counts as 0.
abbrev pub replicas_of : Workload → ℕ
replicas_of w = elim w.replicas [ none ↦ 0 | some n ↦ n ]

abbrev scale_of : ℕ → Option ℤ → Action (ℕ × ℤ)
scale_of current none = raise (failure "failed to decode desired scale")
scale_of current (some desired) = pure (current, desired)

-- The current and the desired scale.
unfoldable pub get_minio_scale : String → Action (ℕ × ℤ)
get_minio_scale ns = do
  w ← expect "get ha-minio statefulset" (send (Call.get_stateful_set ns "ha-minio"))
  scale_of (replicas_of w)
      (parse_int32 (value_or_empty (lookup "kurl.sh/desired-scale" w.annotations)))

unfoldable pub scale_minio_statefulset : String → Action (Unit {0})
scale_minio_statefulset ns = do
  (current, desired) ← wrap "determine current ha-minio statefulset status" (get_minio_scale ns)
  if eqz (pos current) desired then done else do
    expect "get ha-minio statefulset scale" (send (Call.get_scale ns "ha-minio"))
    expect "failed to scale ha-minio statefulset" (send (Call.update_scale ns "ha-minio" desired))

abbrev scale_read : Result (ℕ × ℤ) → Action Bool
scale_read (ok scale) = pure true
scale_read (err e) = if is_not_found_err e then pure false else raise e

unfoldable pub does_ha_minio_exist : String → Action Bool
does_ha_minio_exist ns = do r ← attempt (get_minio_scale ns); scale_read r

abbrev pub is_status_ok : Result ℕ → Bool
is_status_ok (ok code) = eqb code 200
is_status_ok (err e) = false

abbrev pub health_url : String → String
health_url ns =
    join_text "http://ha-minio." (join_text ns ".svc.cluster.local/minio/health/cluster")

unfoldable pub ha_minio_healthy : String → Action Bool
ha_minio_healthy ns = do answer ← send (Call.http_get (health_url ns)); pure (is_status_ok answer)

abbrev pub disable_found : String → Result Service → Action (Unit {0})
disable_found ns (ok service) =
    expect "disable existing minio service"
      (send (Call.patch_service_selector ns "minio" no_selector))
disable_found ns (err e) =
    if is_not_found_err e then done else raise (wrapped "get existing minio service" e)

abbrev first_ip : List Pod → Action String
first_ip [] = raise (failure "unable to find existing minio pod to migrate from")
first_ip (pod ∷ pods) = pure pod.status.pod_ip

abbrev pub ha_selector : List (String × String)
ha_selector = ("app", "ha-minio") ∷ []

-- The new store takes the keys of the old one.
abbrev pub ha_endpoint : String → Secret → Endpoint
ha_endpoint ns s = record {
  address = join_text "ha-minio." (join_text ns ".svc.cluster.local");
  access_key = read_key "MINIO_ACCESS_KEY" s;
  secret_key = read_key "MINIO_SECRET_KEY" s;
}

-- From the disabled service to the two object stores.
unfoldable pub find_minio_stores : String → Action (Endpoint × Endpoint)
find_minio_stores ns = do
  pods ← expect "list minio pods" (send (Call.list_pods ns "app=minio"))
  ip ← first_ip pods
  credentials ← expect "retrieve minio credentials" (send (Call.get_secret ns "minio-credentials"))
  pure (minio_endpoint ip credentials, ha_endpoint ns credentials)

unfoldable pub switch_to_ha : String → Action (Unit {0})
switch_to_ha ns = do
  expect "failed to enable minio service"
      (send (Call.patch_service_selector ns "minio" ha_selector))
  expect "failed to clean up minio deployment" (send (Call.delete_deployment ns "minio"))
  expect "failed to clean up minio pvc" (send (Call.delete_claim ns "minio-pv-claim"))

unfoldable pub sync_and_switch : String → Endpoint → Endpoint → Action (Unit {0})
sync_and_switch ns old new = do wrap "sync minio data" (sync_all_buckets old new); switch_to_ha ns

unfoldable pub migrate_minio_data : String → Action (Unit {0})
migrate_minio_data ns = do
  healthy ← ha_minio_healthy ns
  when healthy do
    service ← send (Call.get_service ns "minio")
    disable_found ns service
    (old, new) ← find_minio_stores ns
    sync_and_switch ns old new

abbrev pub enabled : Service → Service
enabled s = record s { selector = ha_selector }

unfoldable pub ensure_ha_minio_svc : String → Action (Unit {0})
ensure_ha_minio_svc ns = do
  s ← expect "get minio service" (send (Call.get_service ns "minio"))
  when (value_or_empty (lookup "doesnotexist" s.selector) == "doesnotexist")
      (expect "failed to enable minio service" (send (Call.update_service ns (enabled s))))
