-- ===== src/Tests/Install.antt =====
-- The start of the webhooks, a certificate that is made again, and the chart of the CephCluster.
use text.Mathlib.Text.{starts_with}
use ekco.Prelude.{String, ◌≡◌, refl, Option, none, some, [], ◌∷◌, select}
use ekco.Errors.{Result, ok}
use ekco.Kube.{
  Fields, text_value, map_value, other_value, no_fields, with_field, Certificate, rsa_key,
  RenewalConfig, Trace, Env,
}
use ekco.Prelude.Text.{split}
use ekco.Helm.{
  place_down, sort_down, latest_chart_by_name, new_helm_manager, get_release, install_chart_archive,
}
use ekco.Helm.Latest.{Greatest, latest_chart_by_name-Greatest}
use ekco.Cluster.EnsureCeph.{
  field_at, set_field, with_ceph_image, ensure_ceph_cluster, ensure_ceph_cluster_helm,
}
use ekco.Cluster.EnsureCeph.Values.{HasImage, with_ceph_image-HasImage}
use ekco.Cluster.EnsureCeph.Installs.{Installed, ensure_ceph_cluster-Installed}
use ekco.Cli.RegenCert.{read_drops, keep_ips, keep_names, add_names, new_config, regen_cert}
use ekco.Cli.RegenCert.Renewed.{Renews, HasNames, calls, regen_cert-Renews}
use ekco.Webhook.Install.{
  WebhookServer, ensure_service, make_certificate, ensure_hook, install_priority, install_overrides,
  new_server, remove_hook, parse_overrides, start_server, start_webhooks,
}
use ekco.Webhook.Install.Started.{Started, start_webhooks-Started}
use ekco.Tests.Env.{nothing, env_with}
use ekco.Tests.Settings.{no_services}

abbrev env : Env
env = env_with none nothing

abbrev server : WebhookServer
server = record {
  certificate = "certificate";
  key = "key";
  rook_priority_class = "";
  overrides = ("nginx", "mirror/nginx") ∷ [];
}

abbrev start : Result (Option WebhookServer) × Trace
start = start_webhooks "" ("nginx=mirror/nginx" ∷ []) env []

started : start_webhooks "" ("nginx=mirror/nginx" ∷ []) env [] ≡ (ok (some server), start.1)
unfolding start_webhooks start_server parse_overrides split new_server ensure_service
    make_certificate install_priority install_overrides ensure_hook remove_hook
started = refl

start_webhooks-Started_example : Started "" ("nginx=mirror/nginx" ∷ []) (some server) env [] start.1
start_webhooks-Started_example =
    start_webhooks-Started "" ("nginx=mirror/nginx" ∷ []) (some server) env [] start.1 started

opened : latest_chart_by_name "rook-ceph-cluster" env [] ≡ (
  ok ("archive", "rook-ceph-cluster-v1.9.12.tgz"),
  (latest_chart_by_name "rook-ceph-cluster" env []).1,
)
unfolding latest_chart_by_name sort_down place_down
opened = refl

latest_chart_by_name-Greatest_example :
    Greatest "rook-ceph-cluster-v1.9.12.tgz"
      (select (λ f. starts_with f "rook-ceph-cluster") ("rook-ceph-cluster-v1.9.12.tgz" ∷ []))
latest_chart_by_name-Greatest_example =
    latest_chart_by_name-Greatest "rook-ceph-cluster" "archive" "rook-ceph-cluster-v1.9.12.tgz" env
      ("rook-ceph-cluster-v1.9.12.tgz" ∷ []) [] (latest_chart_by_name "rook-ceph-cluster" env []).1
      refl opened

-- The tenth minor version is below the ninth.
tenth_version :
    sort_down ("rook-ceph-cluster-v1.10.0.tgz" ∷ "rook-ceph-cluster-v1.9.0.tgz" ∷ [])
    ≡ "rook-ceph-cluster-v1.9.0.tgz" ∷ "rook-ceph-cluster-v1.10.0.tgz" ∷ []
unfolding sort_down place_down
tenth_version = refl

abbrev plain_values : Fields
plain_values = with_field "toolbox" (other_value "true") no_fields

abbrev image_values : Fields
image_values = with_field "toolbox" (other_value "true") (
    with_field "cephClusterSpec"
      (map_value (
        with_field "cephVersion"
          (map_value (with_field "image" (text_value "ceph/ceph:v17") no_fields)) no_fields))
      no_fields)

changed : with_ceph_image "ceph/ceph:v17" plain_values ≡ ok image_values
unfolding with_ceph_image field_at set_field
changed = refl

with_ceph_image-HasImage_example : HasImage "ceph/ceph:v17" plain_values image_values
with_ceph_image-HasImage_example =
    with_ceph_image-HasImage "ceph/ceph:v17" plain_values image_values refl changed

abbrev ensured : Trace
ensured = (ensure_ceph_cluster no_services.controller env []).1

ensures : ensure_ceph_cluster no_services.controller env [] ≡ (ok tt, ensured)
unfolding ensure_ceph_cluster ensure_ceph_cluster_helm latest_chart_by_name sort_down place_down
    new_helm_manager install_chart_archive get_release with_ceph_image field_at set_field
ensures = refl

ensure_ceph_cluster-Installed_example : Installed no_services.controller env [] ensured
ensure_ceph_cluster-Installed_example =
    ensure_ceph_cluster-Installed no_services.controller env [] ensured ensures

-- The certificate of an API server, from which one address and one name are dropped.
abbrev api_cert : Certificate
api_cert = record {
  common_name = "kube-apiserver";
  issuer_common_name = "kubernetes";
  organization = [];
  dns_names = "old.example.com" ∷ "kubernetes" ∷ [];
  ip_addresses = "10.0.0.9" ∷ "10.96.0.1" ∷ [];
  ext_key_usage = 1 ∷ [];
  not_after = 5000;
  public_key = rsa_key 256;
}

abbrev pki_env : Env
pki_env = env_with none (record nothing { certs = ok (api_cert ∷ []) })

abbrev regenerated : Trace
regenerated = (regen_cert "new.example.com,10.0.0.9" "10.0.0.9,old.example.com" pki_env []).1

regenerates :
    regen_cert "new.example.com,10.0.0.9" "10.0.0.9,old.example.com" pki_env []
    ≡ (ok tt, regenerated)
unfolding regen_cert new_config split read_drops keep_ips keep_names add_names
regenerates = refl

regen_cert-Renews_example :
    (config : RenewalConfig) × (made : String × String) × (regenerated
      ≡ calls "new.example.com,10.0.0.9" "10.0.0.9,old.example.com" pki_env config made [])
    × Renews api_cert config
    × HasNames "new.example.com,10.0.0.9" "10.0.0.9,old.example.com" pki_env api_cert config
unfolding split
regen_cert-Renews_example =
    regen_cert-Renews "new.example.com,10.0.0.9" "10.0.0.9,old.example.com" pki_env api_cert []
      regenerated (λ n v keys k. refl) refl refl regenerates
